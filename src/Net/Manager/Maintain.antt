-- ===== src/Net/Manager/Maintain.antt =====
-- `Maintainer` and `getNextOutNode` of src/network/NetworkManager.cpp.
pub mod Inactive
use metachain.Base.{
  ltb, leb, ◌==◌, if◌then◌else◌, ℕ, zero, suc, ◌+◌, ◌-◌, ◌%◌, Bool, true, false, not, ◌&&◌, ◌||◌,
  Option, none, some, List, [], ◌∷◌, ◌++◌, map,
}
use metachain.Net.Manager.{
  net_node_ping, net_peer_list_send, Peer, send, mark_destroy, in_use, Config, Node,
}
use metachain.Net.Manager.Process.{same_bool}

-- Step 1, of one peer.
abbrev pub ping_pong : Peer → Peer
ping_pong p =
    if p.destroy
    then p
    else if p.ping_pong
    then record (send net_node_ping [] p) { ping_pong = false }
    else mark_destroy p

abbrev pub ping_all : List Peer → List Peer
ping_all [] = []
ping_all (p ∷ ps) = ping_pong p ∷ ping_all ps

-- Step 2: `usActiveOutgoing`, an unsigned short, and the requests.
abbrev pub count_active : List Peer → ℕ
count_active [] = 0
count_active (p ∷ ps) = (if p.valid_connection && p.node_mode then 1 else 0) + count_active ps

abbrev pub ask_all : List Peer → List Peer
ask_all [] = []
ask_all (p ∷ ps) = (if p.valid_connection then send net_peer_list_send [] p else p) ∷ ask_all ps

abbrev pub active : List Peer → ℕ
active ps = count_active ps % 65536

abbrev pub ask : Config → List Peer → List Peer
ask c ps = if leb (active ps) c.hysteresis_outbound_connections then ask_all ps else ps

-- Step 4, which `handlePeers` begins with, too.
abbrev pub is_stale : Peer → Bool
is_stale p = (p.destroy || (p.socket_invalid && p.connected)) && not (in_use p)

abbrev pub remove_stale : List Peer → List Peer
remove_stale [] = []
remove_stale (p ∷ ps) = let rest = remove_stale ps in if is_stale p then rest else p ∷ rest

unfoldable pub maintain : Config → Node → Node
maintain c n =
    let pinged = ping_all n.peers_out in
    let synced = n.sync || leb c.min_outbound_connections (active pinged) in
    record n { peers_out = remove_stale (ask c pinged); sync = synced }

-- `getNextOutNode` at a time; `none` is the end of the list.
unfoldable pub get_next_out_node :
    Config → (time : ℕ) → (connected check_time_delta : Bool) → List Peer → Option Peer
get_next_out_node c time connected check [] = none
get_next_out_node c time connected check (p ∷ ps) =
    let rest = get_next_out_node c time connected check ps in
    if not (same_bool p.connected connected)
    then rest
    else if check
        && not (p.time_last_try == 0)
        && leb (time - p.time_last_try) c.time_between_connects
    then rest
    else some p
