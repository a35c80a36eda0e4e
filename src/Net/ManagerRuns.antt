-- ===== src/Net/ManagerRuns.antt =====
-- The network manager on concrete inputs.
use metachain.Base.{
  get_elem?, length, ℕ, ◌≡◌, refl, true, false, Option, some, none, List, [], ◌∷◌, ◌++◌, All,
}
use metachain.Script.Code.{read_le, write_le}
use metachain.Net.Message.{NetMessage, payload_size}
use metachain.Net.Address.{init, set_raw_ipv4, is_local, is_ipv4}
use metachain.Net.Service.{Service, service_eq}
use metachain.Net.Manager.{
  Outgoing, subject_of, subject, Peer, new_peer, Config, Node, Place, peer_at, modify_peer,
  net_version, net_testnet, net_nodemode,
}
use metachain.Net.Manager.Process.{
  on_version, add_entry, add_entries, dispatch, process_message, handle_queue, visit_from,
  handle_message,
}
use metachain.Net.Manager.Process.Handshake.{handle_queue_refuses}
use metachain.Net.Manager.Process.Entries.{addresses, is_wanted, IsPeerList}
use metachain.Net.Manager.Process.PeerList.{handle_message-IsPeerList}
use metachain.Net.Manager.Maintain.{maintain, get_next_out_node}
use metachain.Net.Manager.Maintain.Inactive.{IsUsed, maintain_twice-IsUsed}

abbrev at_port : (a b c d port : ℕ) → Service
at_port a b c d port = record { addr = set_raw_ipv4 (a ∷ b ∷ c ∷ d ∷ []) init; port = port }

abbrev config : Config
config = record {
  debug = false;
  version = 1;
  test_net = true;
  full_node = false;
  auto_update = false;
  ticks_till_update = 100;
  local = at_port 8 8 8 8 5634;
  ban_list = set_raw_ipv4 (6 ∷ 6 ∷ 6 ∷ 6 ∷ []) init ∷ [];
  min_outbound_connections = 16;
  hysteresis_outbound_connections = 20;
  time_between_connects = 300;
}

-- A message of a subject and a payload of less than 256 bytes, with a checksum that was checked.
abbrev message : (low high : ℕ) → List ℕ → NetMessage
message low high payload = record {
  header = length payload ∷ 0 ∷ 0 ∷ 0 ∷ 0 ∷ 0 ∷ 0 ∷ 0 ∷ low ∷ high ∷ 0 ∷ 0 ∷ 0 ∷ 0 ∷ 0 ∷ 0 ∷ [];
  payload = payload;
  header_complete = true;
  complete = true;
}

abbrev version_message : ℕ → NetMessage
version_message v = message 1 1 (v ∷ 0 ∷ 0 ∷ 0 ∷ [])

abbrev entry_bytes : (a b c d : ℕ) → List ℕ
entry_bytes a b c d = (set_raw_ipv4 (a ∷ b ∷ c ∷ d ∷ []) init).ip ++ (2 ∷ 22 ∷ [])

-- A new peer, one that is known already, a banned one and this node.
abbrev list_message : NetMessage
list_message =
    message 1 2
      (entry_bytes 9 9 9 9 ++ entry_bytes 7 7 7 7 ++ entry_bytes 6 6 6 6 ++ entry_bytes 8 8 8 8)

abbrev peer : List NetMessage → Peer
peer queue = record (new_peer (at_port 5 5 5 5 5634)) {
  connected = true;
  recv = record { message = message 0 0 []; queue = queue };
}

abbrev node : List NetMessage → Node
node queue = record {
  peers_out = new_peer (at_port 7 7 7 7 5634) ∷ [];
  peers_in = peer queue ∷ [];
  sync = false;
  newer_version_ticker = 0;
  shutdown = false;
  updating = false;
  interrupted = false;
}

abbrev asking : Place
asking = record { inbound = true; index = 0 }

abbrev addresses_of : Option Node → List Service
addresses_of none = []
addresses_of (some n) = addresses n.peers_out

-- After the handshake, the list is taken over, but for the entries that are not wanted.
takes_list :
    addresses_of (handle_message config true (node (version_message 1 ∷ list_message ∷ [])))
    ≡ at_port 7 7 7 7 5634 ∷ at_port 9 9 9 9 5634 ∷ []
unfolding handle_message visit_from handle_queue process_message dispatch subject subject_of peer_at
    modify_peer on_version add_entries add_entry read_le write_le is_local is_ipv4 service_eq
    payload_size
takes_list = refl

-- Without it, it is not.
refuses_list :
    addresses_of (handle_message config true (node (list_message ∷ []))) ≡ at_port 7 7 7 7 5634 ∷ []
unfolding handle_message visit_from handle_queue process_message subject subject_of peer_at
    modify_peer read_le
refuses_list = refl

abbrev sent_by : Option Peer → List Outgoing
sent_by none = []
sent_by (some p) = p.send_list

abbrev heard : Option Node → Node
heard none = node []
heard (some n) = n

greets :
    sent_by
      (get_elem? (heard (handle_message config true (node (version_message 1 ∷ [])))).peers_in 0)
    ≡ record { subject = net_version; bytes = 1 ∷ 0 ∷ 0 ∷ 0 ∷ [] }
      ∷ record { subject = net_testnet; bytes = 1 ∷ [] }
      ∷ record { subject = net_nodemode; bytes = 0 ∷ [] }
      ∷ []
unfolding handle_message visit_from handle_queue process_message dispatch subject subject_of peer_at
    modify_peer on_version read_le write_le
greets = refl

-- Reconnecting is tried again after the time between connects.
next_node :
    get_next_out_node config 1000 false true (
      record (new_peer (at_port 7 7 7 7 1)) { time_last_try = 900 }
      ∷ new_peer (at_port 7 7 7 7 2)
      ∷ [])
    ≡ some (new_peer (at_port 7 7 7 7 2))
unfolding get_next_out_node
next_node = refl

handle_queue_refuses_example :
    (n' : Node) × ((handle_queue config (list_message ∷ []) asking (node (list_message ∷ []))
        ≡ some n')
      × ((peer_at (record { inbound = false; index = 0 }) n'
            ≡ peer_at (record { inbound = false; index = 0 }) (node (list_message ∷ [])))
          × ((q : Peer) × ((peer_at asking n' ≡ some q)
                × ((q.destroy ≡ true) × (q.valid_connection ≡ false))))))
handle_queue_refuses_example =
    handle_queue_refuses config list_message [] asking (record { inbound = false; index = 0 })
      (node (list_message ∷ [])) (peer (list_message ∷ [])) (unfold peer_at in refl) refl
      (unfold subject subject_of read_le in refl) (unfold subject subject_of read_le in refl) refl

abbrev listed : Option Node
listed = handle_message config true (node (version_message 1 ∷ list_message ∷ []))

listed-some : listed ≡ some (heard listed)
unfolding handle_message visit_from handle_queue process_message dispatch subject subject_of peer_at
    modify_peer on_version add_entries add_entry read_le write_le is_local is_ipv4 service_eq
    payload_size
listed-some = refl

node-IsPeerList : (queue : List NetMessage) → IsPeerList config (node queue).peers_out
unfolding is_wanted is_local is_ipv4
node-IsPeerList queue = ((refl, tt), (refl, tt))

handle_message-IsPeerList_example : IsPeerList config (heard listed).peers_out
handle_message-IsPeerList_example =
    handle_message-IsPeerList config true (node (version_message 1 ∷ list_message ∷ []))
      (heard listed) (node-IsPeerList (version_message 1 ∷ list_message ∷ [])) listed-some

maintain_twice-IsUsed_example : All IsUsed (maintain config (maintain config (node []))).peers_out
maintain_twice-IsUsed_example = maintain_twice-IsUsed config (node [])
