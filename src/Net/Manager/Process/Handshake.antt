-- ===== src/Net/Manager/Process/Handshake.antt =====
-- A peer that has not shown its version (`ProcessMessage` of src/network/NetworkManager.cpp).
use metachain.Base.{
  ltb, ◌==◌, length, get_elem?, take, ℕ, ◌≡◌, refl, ap, ◌∙◌, inl, inr, Bool, true, false, ◌&&◌,
  some, List, ◌∷◌, arith, Bool-cases,
}
use metachain.Script.Code.{read_le, write_le}
use metachain.Net.Message.{NetMessage}
use metachain.Net.Manager.{
  Subject, net_version, net_version_newer, subject, Peer, send, mark_destroy, Config, Node,
  increment_newer_version_ticker, Place, peer_at, modify_peer,
}
use metachain.Net.Manager.Places.{
  list_of-ticker, same_place, peer_at-modify_peer, peer_at-modify_peer_other,
}
use metachain.Net.Manager.Process.{
  failed, on_version, dispatch, is_version, process_message, set_queue, handle_queue,
}

abbrev pub shows_version : Config → NetMessage → Bool
shows_version c msg = is_version (subject msg) && read_le (take 4 msg.payload) == c.version

abbrev pub is_short_version : NetMessage → Bool
is_short_version msg = is_version (subject msg) && ltb (length msg.payload) 4

-- The peer at `at` is there and not valid, and the one at `at'` is as it was in `n`.
abbrev IsQuiet : (at at' : Place) (n m : Node) → Type 0
IsQuiet at at' n m =
    (peer_at at' m ≡ peer_at at' n)
    × ((q : Peer) × ((peer_at at m ≡ some q) × (q.valid_connection ≡ false)))

IsQuiet-modify_peer :
    (at at' : Place) (n m : Node) (f : Peer → Peer)
    → same_place at at' ≡ false
    → ((q : Peer) → (f q).valid_connection ≡ q.valid_connection)
    → IsQuiet at at' n m
    → IsQuiet at at' n (modify_peer at f m)
IsQuiet-modify_peer at at' n m f other keeps (same, (q, (there, silent))) = (
  peer_at-modify_peer_other at at' f m other ∙ same,
  (f q, (peer_at-modify_peer at f m q there, keeps q ∙ silent)),
)

peer_at-ticker :
    (c : Config) (at : Place) (m : Node)
    → peer_at at (increment_newer_version_ticker c m) ≡ peer_at at m
unfolding peer_at
peer_at-ticker c at m = ap (λ ps. get_elem? ps at.index) (list_of-ticker c at.inbound m)

IsQuiet-ticker :
    (c : Config) (at at' : Place) (n m : Node)
    → IsQuiet at at' n m
    → IsQuiet at at' n (increment_newer_version_ticker c m)
IsQuiet-ticker c at at' n m (same, (q, (there, silent))) =
    (peer_at-ticker c at' m ∙ same, (q, (peer_at-ticker c at m ∙ there, silent)))

is_version_sound : (s : Subject) → is_version s ≡ true → s ≡ net_version
is_version_sound net_version h = refl
is_version_sound _ h = cc

right_false : (a b : Bool) → a ≡ true → (a && b) ≡ false → b ≡ false
right_false a b h k = ground arith

refused_version :
    (c : Config) (at at' : Place) (n m : Node) (bytes : List ℕ)
    → same_place at at' ≡ false
    → (read_le bytes == c.version) ≡ false
    → IsQuiet at at' n m
    → (m' : Node) × ((on_version c at m bytes ≡ failed m') × IsQuiet at at' n m')
unfolding on_version
refused_version c at at' n m bytes other differs h =
    elim (Bool-cases (ltb (read_le bytes) c.version)) [
      | inl e ↦ (
        _,
        (
          rw (e) refl,
          IsQuiet-modify_peer at at' n m (send net_version_newer (write_le 4 c.version)) other
              (λ q. refl) h,
        ),
      )
      | inr e ↦
          let newer : ltb c.version (read_le bytes) ≡ true = ground arith in
          (_, (rw (e, newer) refl, IsQuiet-ticker c at at' n m h))
    ]

process_version :
    (c : Config) (msg : NetMessage) (at : Place) (m : Node) (p : Peer)
    → p.valid_connection ≡ false
    → is_version (subject msg) ≡ true
    → ltb (length msg.payload) 4 ≡ false
    → process_message c msg at p m ≡ on_version c at m (take 4 msg.payload)
unfolding process_message dispatch
process_version c msg at m p silent e long =
    rw (silent, e, is_version_sound (subject msg) e, long) refl

screened :
    (c : Config) (msg : NetMessage) (at at' : Place) (n m : Node) (p : Peer)
    → same_place at at' ≡ false
    → p.valid_connection ≡ false
    → shows_version c msg ≡ false
    → is_short_version msg ≡ false
    → IsQuiet at at' n m
    → (m' : Node) × ((process_message c msg at p m ≡ failed m') × IsQuiet at at' n m')
unfolding process_message
screened c msg at at' n m p other silent differs long h =
    elim (Bool-cases (is_version (subject msg))) [
      | inl e ↦
          let (m', (refused, quiet)) =
            refused_version c at at' n m (take 4 msg.payload) other (right_false _ _ e differs) h in
          (m', (process_version c msg at m p silent e (right_false _ _ e long) ∙ refused, quiet))
      | inr e ↦ (m, (rw (silent, e) refl, h))
    ]

-- As long as a peer has not shown our version, its messages reach nobody else: unless the first one in
-- its queue is NET_VERSION with our number, the peer is marked to be destroyed and stays invalid, and
-- any other peer is left as it was. (A NET_VERSION with less than 4 bytes is read behind its end.)
pub handle_queue_refuses :
    (c : Config) (msg : NetMessage) (rest : List NetMessage) (at at' : Place) (n : Node) (p : Peer)
    → peer_at at n ≡ some p
    → p.valid_connection ≡ false
    → shows_version c msg ≡ false
    → is_short_version msg ≡ false
    → same_place at at' ≡ false
    → (n' : Node) × ((handle_queue c (msg ∷ rest) at n ≡ some n')
        × ((peer_at at' n' ≡ peer_at at' n)
            × ((q : Peer) × ((peer_at at n' ≡ some q)
                  × ((q.destroy ≡ true) × (q.valid_connection ≡ false))))))
unfolding handle_queue
handle_queue_refuses c msg rest at at' n p there silent differs long other =
    let popped = peer_at-modify_peer at (set_queue rest) n p there in
    let (m, (refused, (same, (q, (at_q, invalid))))) =
      screened c msg at at' n (modify_peer at (set_queue rest) n) (set_queue rest p) other silent
        differs long
        (
          peer_at-modify_peer_other at at' (set_queue rest) n other,
          (set_queue rest p, (popped, silent)),
        ) in
    (
      modify_peer at mark_destroy m,
      (
        rw (popped, refused) refl,
        (
          peer_at-modify_peer_other at at' mark_destroy m other ∙ same,
          (mark_destroy q, (peer_at-modify_peer at mark_destroy m q at_q, (refl, invalid))),
        ),
      ),
    )
