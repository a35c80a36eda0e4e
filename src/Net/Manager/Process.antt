-- ===== src/Net/Manager/Process.antt =====
-- `ProcessMessage` and `handleMessage` of src/network/NetworkManager.cpp.
pub mod Handshake
pub mod Entries
pub mod Kept
pub mod PeerList
use metachain.Base.{
  ltb, leb, ◌==◌, if◌then◌else◌, length, get_elem?, get_or, take, drop, replicate, ℕ, zero, suc,
  ◌+◌, ◌-◌, ◌*◌, ◌/◌, Bool, true, false, not, ◌&&◌, ◌||◌, Option, none, some, List, [], ◌∷◌, ◌++◌,
}
use metachain.Script.Code.{read_le, write_le}
use metachain.Net.Message.{NetMessage, payload_size}
use metachain.Net.Address.{NetAddr, addr_eq, init, set_raw, is_local}
use metachain.Net.Service.{Service, service_eq}
use metachain.Net.Manager.{
  Subject, net_version, net_version_newer, net_nodemode, net_node_listening_port_get,
  net_node_listening_port_send, net_node_ping, net_node_pong, net_peer_list_get, net_peer_list_send,
  net_ban_list_get, net_ban_list_send, net_testnet, other_subject, subject, Peer, new_peer, send,
  mark_destroy, mark, unmark, has_message, Config, Node, increment_newer_version_ticker, Place,
  list_of, peer_at, modify_peer, is_known, is_banned,
}

-- What `ProcessMessage` returns. `overread` is a `memcpy` from behind the end of the payload.
pub data Handled : Type 0 where
  handled failed : Node → Handled
  overread : Handled

-- `memcpy` of the first `n` bytes of the payload.
abbrev pub with_bytes : ℕ → List ℕ → (List ℕ → Handled) → Handled
with_bytes n payload next = if ltb (length payload) n then overread else next (take n payload)

abbrev pub bool_byte : Bool → List ℕ
bool_byte true = 1 ∷ []
bool_byte false = 0 ∷ []

abbrev pub same_bool : Bool → Bool → Bool
same_bool true b = b
same_bool false b = not b

-- The size of an entry of a peer list: 16 bytes of address, 2 of port.
abbrev pub ip_port_size : ℕ
ip_port_size = 18

abbrev pub set_mode : Bool → Peer → Peer
set_mode full p =
    let asked =
      if full
      then send net_node_listening_port_get [] (record p { node_mode = full })
      else record p { node_mode = full } in
    send net_peer_list_send [] asked

abbrev pub set_listening_port : ℕ → Peer → Peer
set_listening_port port p = record p { listening_port = port }

abbrev pub set_active : Peer → Peer
set_active p = record p { ping_pong = true }

unfoldable pub on_nodemode : Place → Node → List ℕ → Handled
unfolding modify_peer
on_nodemode at n bytes = handled (modify_peer at (set_mode (not (read_le bytes == 0))) n)

unfoldable pub on_listening_port : Place → Node → List ℕ → Handled
unfolding modify_peer
on_listening_port at n bytes = handled (modify_peer at (set_listening_port (read_le bytes)) n)

-- One entry of the list that is sent.
abbrev pub entry : Peer → List ℕ
entry p = take 16 p.address.addr.ip ++ write_le 2 p.listening_port

-- The entries of one list; `skip` is the place of the peer that asks, when it is in that list.
abbrev pub entries : Bool → Option ℕ → List Peer → List ℕ
entries full skip [] = []
entries full none (p ∷ ps) = (if full then entry p else []) ++ entries full none ps
entries full (some zero) (p ∷ ps) = entries full none ps
entries full (some (suc i)) (p ∷ ps) = (if full then entry p else []) ++ entries full (some i) ps

unfoldable pub on_peer_list_send : Place → Peer → Node → Node
unfolding modify_peer
on_peer_list_send at p n =
    if length n.peers_out + length n.peers_in - 1 == 0
    then n
    else modify_peer at
        (send net_peer_list_get (
          entries p.node_mode (if at.inbound then none else some at.index) n.peers_out
          ++ entries p.node_mode (if at.inbound then some at.index else none) n.peers_in))
        n

-- The service of an entry that is received.
abbrev pub entry_service : List ℕ → Service
entry_service bytes = record { addr = set_raw bytes init; port = read_le (take 2 (drop 16 bytes)) }

abbrev pub got_peers : Node → Option (List Peer) → Handled
got_peers n none = overread
got_peers n (some ps) = handled (record n { peers_out = ps })

abbrev pub is_version : Subject → Bool
is_version net_version = true
is_version _ = false

abbrev pub set_queue : List NetMessage → Peer → Peer
set_queue rest p = record p { recv = record (p.recv) { queue = rest } }

-- A peer whose message is refused is marked, and its other messages are left.
abbrev pub after_message : Place → (Node → Option Node) → Handled → Option Node
after_message at next (handled n) = next n
after_message at next (failed n) = some (modify_peer at mark_destroy n)
after_message at next overread = none

abbrev pub after_peer : Place → (Node → Option Node) → Option Node → Option Node
after_peer at next none = none
after_peer at next (some n) =
    let n' = modify_peer at unmark n in if n'.interrupted then some n' else next n'

module _ (c : Config) where
  abbrev pub greet : Peer → Peer
  greet p = send net_nodemode (bool_byte c.full_node) (
      send net_testnet (bool_byte c.test_net)
        (send net_version (write_le 4 c.version) (record p { valid_connection = true })))

  unfoldable pub on_version : Place → Node → List ℕ → Handled
  unfolding modify_peer increment_newer_version_ticker
  on_version at n bytes =
      let received = read_le bytes in
      if ltb received c.version
      then failed (modify_peer at (send net_version_newer (write_le 4 c.version)) n)
      else if ltb c.version received
      then failed (increment_newer_version_ticker c n)
      else handled (modify_peer at greet n)

  unfoldable pub on_testnet : Node → List ℕ → Handled
  on_testnet n bytes =
      if same_bool c.test_net (not (read_le bytes == 0)) then handled n else failed n

  -- The list of outgoing peers, after an entry.
  unfoldable pub add_entry : Service → List Peer → List Peer
  unfolding is_local
  add_entry s ps =
      if not c.debug && is_local s.addr
      then ps
      else if addr_eq c.local.addr s.addr || is_banned s.addr c.ban_list || is_known s ps
      then ps
      else ps ++ (new_peer s ∷ [])

  -- `count` entries; `none` if one is behind the end of the payload.
  unfoldable pub add_entries : (count : ℕ) → List ℕ → List Peer → Option (List Peer)
  unfolding add_entry
  add_entries zero payload ps = some ps
  add_entries (suc count) payload ps =
      let rest =
        add_entries count (drop ip_port_size payload)
          (add_entry (entry_service (take ip_port_size payload)) ps) in
      if ltb (length payload) ip_port_size then none else rest

  -- The `switch`.
  unfoldable pub dispatch : Subject → NetMessage → Place → Peer → Node → Handled
  unfolding on_version on_nodemode on_listening_port on_testnet on_peer_list_send add_entries
      modify_peer increment_newer_version_ticker
  dispatch net_version msg at p n =
      if p.valid_connection then handled n else with_bytes 4 msg.payload (on_version at n)
  dispatch net_nodemode msg at p n = with_bytes 1 msg.payload (on_nodemode at n)
  dispatch net_node_listening_port_get msg at p n =
      handled (modify_peer at (send net_node_listening_port_send (write_le 2 c.local.port)) n)
  dispatch net_node_listening_port_send msg at p n =
      with_bytes 2 msg.payload (on_listening_port at n)
  dispatch net_testnet msg at p n = with_bytes 1 msg.payload (on_testnet n)
  dispatch net_version_newer msg at p n = handled (increment_newer_version_ticker c n)
  dispatch net_peer_list_send msg at p n = handled (on_peer_list_send at p n)
  dispatch net_peer_list_get msg at p n =
      got_peers n (add_entries (payload_size msg.header / ip_port_size) msg.payload n.peers_out)
  dispatch net_node_ping msg at p n = handled (modify_peer at (send net_node_pong []) n)
  dispatch net_node_pong msg at p n = handled (modify_peer at set_active n)
  dispatch net_ban_list_get msg at p n = failed n
  dispatch net_ban_list_send msg at p n = failed n
  dispatch other_subject msg at p n = failed n

  unfoldable pub process_message : NetMessage → Place → Peer → Node → Handled
  unfolding subject dispatch
  process_message msg at p n =
      if not p.valid_connection && not (is_version (subject msg))
      then failed n
      else dispatch (subject msg) msg at p n

  -- `ProcessMessage` where the iterator points.
  abbrev pub process_at : NetMessage → Place → Option Peer → Node → Handled
  process_at msg at none n = failed n
  process_at msg at (some p) n = process_message msg at p n

  -- The messages of one peer; `none` is an overread. Handling one adds none.
  unfoldable pub handle_queue : List NetMessage → Place → Node → Option Node
  unfolding peer_at modify_peer process_message
  handle_queue [] at n = some n
  handle_queue (msg ∷ rest) at n =
      let popped = modify_peer at (set_queue rest) n in
      after_message at (handle_queue rest at) (process_at msg at (peer_at at popped) popped)

  abbrev pub visit : Place → (Node → Option Node) → Option Peer → Node → Option Node
  visit at next none n = some n
  visit at next (some p) n =
      let marked = modify_peer at mark n in
      if p.destroy || not (has_message p)
      then next (modify_peer at unmark marked)
      else after_peer at next (handle_queue p.recv.queue at marked)

  -- The loop over a list, from a position on.
  unfoldable pub visit_from : (left index : ℕ) (inbound : Bool) → Node → Option Node
  unfolding peer_at modify_peer handle_queue
  visit_from zero index inbound n = some n
  visit_from (suc left) index inbound n =
      let at : Place = record { inbound = inbound; index = index } in
      visit at (visit_from left (suc index) inbound) (peer_at at n) n

  -- `handleMessage`. A peer that a message adds behind the others has no messages yet: the loop would
  -- mark and unmark it.
  unfoldable pub handle_message : Bool → Node → Option Node
  unfolding visit_from
  handle_message inbound n = visit_from (length (list_of inbound n)) 0 inbound n
