-- ===== src/Net/Manager.antt =====
-- `NetworkManager` of src/network/NetworkManager.cpp: its peers and what they are told.
pub mod Places
pub mod Process
pub mod Maintain
use metachain.Base.{
  ltb, leb, ◌==◌, if◌then◌else◌, length, get_elem?, take, drop, ℕ, zero, suc, ◌+◌, ◌-◌, ◌%◌, Bool,
  true, false, not, ◌&&◌, ◌||◌, Option, none, some, List, [], ◌∷◌, ◌++◌, map,
}
use metachain.Script.Code.{read_le, write_le}
use metachain.Net.Message.{NetMessage, empty_message}
use metachain.Net.Peer.{NetPeer}
use metachain.Net.Address.{NetAddr, addr_eq}
use metachain.Net.Service.{Service, service_eq}

pub data Subject : Type 0 where
  net_version net_version_newer net_nodemode : Subject
  net_node_listening_port_get net_node_listening_port_send net_node_ping net_node_pong : Subject
  net_peer_list_get net_peer_list_send net_ban_list_get net_ban_list_send net_testnet : Subject
  -- A value that is none of these.
  other_subject : Subject

unfoldable pub subject_of : ℕ → Subject
subject_of n =
    if n == 0x0101
    then net_version
    else if n == 0x0102
    then net_version_newer
    else if n == 0x0103
    then net_nodemode
    else if n == 0x0104
    then net_node_listening_port_get
    else if n == 0x0105
    then net_node_listening_port_send
    else if n == 0x0108
    then net_node_ping
    else if n == 0x0109
    then net_node_pong
    else if n == 0x0201
    then net_peer_list_get
    else if n == 0x0202
    then net_peer_list_send
    else if n == 0x0203
    then net_ban_list_get
    else if n == 0x0204
    then net_ban_list_send
    else if n == 0x0301
    then net_testnet
    else other_subject

-- `ui16tSubject` in the memory of an `sHeader`.
unfoldable pub subject : NetMessage → Subject
unfolding subject_of
subject m = subject_of (read_le (take 2 (drop 8 m.header)))

-- What the sending constructor is given.
pub record Outgoing : Type 0 where
  pub subject : Subject
  pub bytes : List ℕ

-- `netPeers`, without its grant and its locks. `usage` counts the processes that have marked the peer
-- and not yet unmarked it, and `socket_invalid` is `hSocket == INVALID_SOCKET`.
pub record Peer : Type 0 where
  pub connected : Bool
  pub valid_connection : Bool
  pub destroy : Bool
  pub time_last_try : ℕ
  pub connection_tries : ℕ
  pub usage : ℕ
  pub node_mode : Bool
  pub listening_port : ℕ
  pub socket_invalid : Bool
  pub address : Service
  pub recv : NetPeer
  pub send_list : List Outgoing
  pub ping_pong : Bool

-- The default constructor, with the address that is set behind.
abbrev pub new_peer : Service → Peer
new_peer address = record {
  connected = false;
  valid_connection = false;
  destroy = false;
  time_last_try = 0;
  connection_tries = 0;
  usage = 0;
  node_mode = false;
  listening_port = 0;
  socket_invalid = false;
  address = address;
  recv = record { message = empty_message; queue = [] };
  send_list = [];
  ping_pong = true;
}

abbrev pub send : Subject → List ℕ → Peer → Peer
send to bytes' p = record p {
  send_list = p.send_list ++ (record { subject = to; bytes = bytes' } ∷ []);
}

abbrev pub mark_destroy : Peer → Peer
mark_destroy p = record p { destroy = true }

abbrev pub mark : Peer → Peer
mark p = record p { usage = suc p.usage }

abbrev pub unmark : Peer → Peer
unmark p = record p { usage = p.usage - 1 }

abbrev pub in_use : Peer → Bool
in_use p = not (p.usage == 0)

abbrev pub has_message : Peer → Bool
has_message p = ltb 0 (length p.recv.queue)

-- What no message changes: the `_DEBUG` of the build, `g_cuint32tVersion`, the modes of `MetaChain`,
-- its settings for updates, and the limits and the ban list of `NetworkManager`.
pub record Config : Type 0 where
  pub debug : Bool
  pub version : ℕ
  pub test_net : Bool
  pub full_node : Bool
  pub auto_update : Bool
  pub ticks_till_update : ℕ
  pub local : Service
  pub ban_list : List NetAddr
  pub min_outbound_connections : ℕ
  pub hysteresis_outbound_connections : ℕ
  pub time_between_connects : ℕ

-- `updating` is that `doAutoUpdate` has been called, `interrupted` is `m_abflagInterruptMsgProc`.
pub record Node : Type 0 where
  pub peers_out : List Peer
  pub peers_in : List Peer
  pub sync : Bool
  pub newer_version_ticker : ℕ
  pub shutdown : Bool
  pub updating : Bool
  pub interrupted : Bool

-- `incrementNewerVersionTicker` of src/MetaChain.cpp; the ticker is an unsigned short.
unfoldable pub increment_newer_version_ticker : Config → Node → Node
increment_newer_version_ticker c n =
    let ticker = (n.newer_version_ticker + 1) % 65536 in
    if leb c.ticks_till_update ticker
    then if not c.auto_update
      then record n { newer_version_ticker = ticker; shutdown = true }
      else record n { newer_version_ticker = ticker; updating = true }
    else record n { newer_version_ticker = ticker }

-- An iterator: the list of incoming or of outgoing peers, and the position.
pub record Place : Type 0 where
  pub inbound : Bool
  pub index : ℕ

abbrev pub modify {ℓ} : {A : Type ℓ} → (A → A) → List A → ℕ → List A
modify f [] i = []
modify f (x ∷ xs) zero = f x ∷ xs
modify f (x ∷ xs) (suc i) = x ∷ modify f xs i

abbrev pub list_of : Bool → Node → List Peer
list_of true n = n.peers_in
list_of false n = n.peers_out

abbrev pub with_list : Bool → List Peer → Node → Node
with_list true ps n = record n { peers_in = ps }
with_list false ps n = record n { peers_out = ps }

unfoldable pub peer_at : Place → Node → Option Peer
peer_at at n = get_elem? (list_of at.inbound n) at.index

unfoldable pub modify_peer : Place → (Peer → Peer) → Node → Node
modify_peer at f n = with_list at.inbound (modify f (list_of at.inbound n) at.index) n

-- `entryExists` of the peers and of the banned addresses.
abbrev pub is_known : Service → List Peer → Bool
is_known s [] = false
is_known s (p ∷ ps) = service_eq p.address s || is_known s ps

abbrev pub is_banned : NetAddr → List NetAddr → Bool
is_banned a [] = false
is_banned a (b ∷ bs) = addr_eq b a || is_banned a bs
