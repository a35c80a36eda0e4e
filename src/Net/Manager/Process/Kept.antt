-- ===== src/Net/Manager/Process/Kept.antt =====
-- What each message does to the list of outgoing peers (src/network/NetworkManager.cpp).
use metachain.Base.{
  ltb, ◌==◌, if_both, length, take, drop, ℕ, zero, suc, ◌+◌, ◌-◌, ◌/◌, ◌≡◌, refl, sym, ap, subst,
  Bool, true, false, not, All, ◌&&◌, Option, none, some, List, [], ◌∷◌,
}
use metachain.Script.Code.{read_le, write_le}
use metachain.Net.Message.{NetMessage, payload_size}
use metachain.Net.Manager.{
  Subject, net_version, net_version_newer, net_nodemode, net_node_listening_port_get,
  net_node_listening_port_send, net_node_ping, net_node_pong, net_peer_list_get, net_peer_list_send,
  net_ban_list_get, net_ban_list_send, net_testnet, other_subject, subject, Peer, send, Config,
  Node, increment_newer_version_ticker, Place, modify, list_of, with_list, modify_peer,
}
use metachain.Net.Manager.Places.{list_of-ticker}
use metachain.Net.Manager.Process.{
  Handled, handled, failed, overread, with_bytes, same_bool, ip_port_size, set_mode,
  set_listening_port, set_active, on_nodemode, on_listening_port, on_testnet, on_peer_list_send,
  entry_service, got_peers, is_version, greet, on_version, add_entries, dispatch, process_message,
  process_at,
}
use metachain.Net.Manager.Process.Entries.{
  IsDistinct, is_wanted, addresses, IsPeerList, IsPeerList-add_entry,
}

addresses-modify :
    (f : Peer → Peer) (ps : List Peer) (i : ℕ)
    → ((p : Peer) → (f p).address ≡ p.address)
    → addresses (modify f ps i) ≡ addresses ps
addresses-modify f [] i keeps = refl
addresses-modify f (p ∷ ps) zero keeps = ap (λ a. a ∷ addresses ps) (keeps p)
addresses-modify f (p ∷ ps) (suc i) keeps =
    ap (λ as'. p.address ∷ as') (addresses-modify f ps i keeps)

module _ (c : Config) where
  -- Of the node, of what `ProcessMessage` returns, and of what the loops return.
  abbrev pub IsGood : Node → Type 0
  IsGood n = IsPeerList c n.peers_out

  abbrev pub IsGoodResult : Handled → Type 0
  IsGoodResult (handled n) = IsGood n
  IsGoodResult (failed n) = IsGood n
  IsGoodResult overread = Unit {0}

  abbrev pub IsGoodEnd : Option Node → Type 0
  IsGoodEnd none = Unit {0}
  IsGoodEnd (some n) = IsGood n

  IsGood-with_list :
      (b : Bool) (ps : List Peer) (n : Node)
      → addresses ps ≡ addresses (list_of b n)
      → IsGood n
      → IsGood (with_list b ps n)
  IsGood-with_list true ps n e h = h
  IsGood-with_list false ps n e h =
      subst (λ ss. IsDistinct ss × All (λ s. is_wanted c s ≡ true) ss) (sym e) h

  pub IsGood-modify_peer :
      (at : Place) (f : Peer → Peer) (n : Node)
      → ((p : Peer) → (f p).address ≡ p.address)
      → IsGood n
      → IsGood (modify_peer at f n)
  unfolding modify_peer
  IsGood-modify_peer at f n keeps h =
      IsGood-with_list at.inbound (modify f (list_of at.inbound n) at.index) n
        (addresses-modify f (list_of at.inbound n) at.index keeps) h

  IsGood-ticker : (n : Node) → IsGood n → IsGood (increment_newer_version_ticker c n)
  IsGood-ticker n h = subst (IsPeerList c) (sym (list_of-ticker c false n)) h

  IsGoodResult-with_bytes :
      (k : ℕ) (payload : List ℕ) (next : List ℕ → Handled)
      → ((bytes : List ℕ) → IsGoodResult (next bytes))
      → IsGoodResult (with_bytes k payload next)
  IsGoodResult-with_bytes k payload next h =
      if_both IsGoodResult (ltb (length payload) k) (λ e. tt) (λ e. h (take k payload))

  IsGoodResult-on_version :
      (at : Place) (n : Node) (bytes : List ℕ) → IsGood n → IsGoodResult (on_version c at n bytes)
  unfolding on_version
  IsGoodResult-on_version at n bytes h =
      if_both IsGoodResult (ltb (read_le bytes) c.version)
        (λ e. IsGood-modify_peer at (send net_version_newer (write_le 4 c.version)) n (λ p. refl) h)
        (λ e.
          if_both IsGoodResult (ltb c.version (read_le bytes)) (λ e'. IsGood-ticker n h)
            (λ e'. IsGood-modify_peer at (greet c) n (λ p. refl) h))

  IsGood-on_peer_list_send :
      (at : Place) (p : Peer) (n : Node) → IsGood n → IsGood (on_peer_list_send at p n)
  unfolding on_peer_list_send
  IsGood-on_peer_list_send at p n h =
      if_both IsGood (length n.peers_out + length n.peers_in - 1 == 0) (λ e. h)
        (λ e. IsGood-modify_peer at _ n (λ q. refl) h)

  abbrev IsGoodList : Option (List Peer) → Type 0
  IsGoodList none = Unit {0}
  IsGoodList (some ps) = IsPeerList c ps

  IsGoodList-add_entries :
      (count : ℕ) (payload : List ℕ) (ps : List Peer)
      → IsPeerList c ps
      → IsGoodList (add_entries c count payload ps)
  unfolding add_entries
  IsGoodList-add_entries zero payload ps h = h
  IsGoodList-add_entries (suc count) payload ps h =
      if_both IsGoodList (ltb (length payload) ip_port_size) (λ e. tt)
        (λ e.
          IsGoodList-add_entries count (drop ip_port_size payload) _
            (IsPeerList-add_entry c (entry_service (take ip_port_size payload)) ps h))

  IsGoodResult-got_peers :
      (n : Node) (o : Option (List Peer)) → IsGoodList o → IsGoodResult (got_peers n o)
  IsGoodResult-got_peers n none h = tt
  IsGoodResult-got_peers n (some ps) h = h

  set_mode-address : (full : Bool) (p : Peer) → (set_mode full p).address ≡ p.address
  set_mode-address true p = refl
  set_mode-address false p = refl

  IsGoodResult-on_nodemode :
      (at : Place) (n : Node) (bytes : List ℕ) → IsGood n → IsGoodResult (on_nodemode at n bytes)
  unfolding on_nodemode
  IsGoodResult-on_nodemode at n bytes h =
      let full = not (read_le bytes == 0) in
      IsGood-modify_peer at (set_mode full) n (set_mode-address full) h

  IsGoodResult-on_listening_port :
      (at : Place) (n : Node) (bytes : List ℕ)
      → IsGood n
      → IsGoodResult (on_listening_port at n bytes)
  unfolding on_listening_port
  IsGoodResult-on_listening_port at n bytes h =
      IsGood-modify_peer at (set_listening_port (read_le bytes)) n (λ p. refl) h

  IsGoodResult-on_testnet :
      (n : Node) (bytes : List ℕ) → IsGood n → IsGoodResult (on_testnet c n bytes)
  unfolding on_testnet
  IsGoodResult-on_testnet n bytes h =
      if_both IsGoodResult (same_bool c.test_net (not (read_le bytes == 0))) (λ e. h) (λ e. h)

  IsGoodResult-dispatch :
      (s : Subject) (msg : NetMessage) (at : Place) (p : Peer) (n : Node)
      → IsGood n
      → IsGoodResult (dispatch c s msg at p n)
  unfolding dispatch
  IsGoodResult-dispatch net_version msg at p n h =
      if_both IsGoodResult p.valid_connection (λ e. h)
        (λ e.
          IsGoodResult-with_bytes 4 msg.payload (on_version c at n)
            (λ bytes. IsGoodResult-on_version at n bytes h))
  IsGoodResult-dispatch net_nodemode msg at p n h =
      IsGoodResult-with_bytes 1 msg.payload (on_nodemode at n)
        (λ bytes. IsGoodResult-on_nodemode at n bytes h)
  IsGoodResult-dispatch net_node_listening_port_get msg at p n h =
      IsGood-modify_peer at _ n (λ q. refl) h
  IsGoodResult-dispatch net_node_listening_port_send msg at p n h =
      IsGoodResult-with_bytes 2 msg.payload (on_listening_port at n)
        (λ bytes. IsGoodResult-on_listening_port at n bytes h)
  IsGoodResult-dispatch net_testnet msg at p n h =
      IsGoodResult-with_bytes 1 msg.payload (on_testnet c n)
        (λ bytes. IsGoodResult-on_testnet n bytes h)
  IsGoodResult-dispatch net_version_newer msg at p n h = IsGood-ticker n h
  IsGoodResult-dispatch net_peer_list_send msg at p n h = IsGood-on_peer_list_send at p n h
  IsGoodResult-dispatch net_peer_list_get msg at p n h =
      IsGoodResult-got_peers n _
        (IsGoodList-add_entries (payload_size msg.header / ip_port_size) msg.payload n.peers_out h)
  IsGoodResult-dispatch net_node_ping msg at p n h = IsGood-modify_peer at _ n (λ q. refl) h
  IsGoodResult-dispatch net_node_pong msg at p n h =
      IsGood-modify_peer at set_active n (λ q. refl) h
  IsGoodResult-dispatch net_ban_list_get msg at p n h = h
  IsGoodResult-dispatch net_ban_list_send msg at p n h = h
  IsGoodResult-dispatch other_subject msg at p n h = h

  pub IsGoodResult-process_at :
      (msg : NetMessage) (at : Place) (o : Option Peer) (n : Node)
      → IsGood n
      → IsGoodResult (process_at c msg at o n)
  unfolding process_message
  IsGoodResult-process_at msg at none n h = h
  IsGoodResult-process_at msg at (some p) n h =
      if_both IsGoodResult (not p.valid_connection && not (is_version (subject msg))) (λ e. h)
        (λ e. IsGoodResult-dispatch (subject msg) msg at p n h)
