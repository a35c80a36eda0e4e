-- ===== src/Net/Peer.antt =====
-- `netPeers::ReceiveMsgBytes` of src/io/netPeers.cpp.
pub mod Chunks
pub mod Bounds
pub mod Delivers
use metachain.Base.{
  ltb, leb, ◌==◌, if◌then◌else◌, ltb→lt, lt→ltb, ==_iff, Bool-cases, Option-cases, if_both, length,
  get_elem?, get_or, take, drop, replicate, All, length-append, length-take, length-drop,
  length-replicate, take-append-drop, take-append, drop-append, take-append_of_length,
  drop-append_of_length, take-append_le, drop-append_le, take-append_add, drop-append_add, take_all,
  All-append, All-append_inv, All-take, All-drop, All-replicate, All-get_elem?, list_eq,
  list_eq_sound, list_eq_refl, ℕ, zero, suc, ◌+◌, ◌-◌, ◌*◌, ◌/◌, ◌%◌, ◌^◌, ◌≤◌, ◌<◌, bit_and,
  bit_or, ◌≡◌, refl, sym, ap, ◌∙◌, subst, ◌≢◌, ◌↔◌, ◌⊎◌, inl, inr, Bool, true, false, not, ◌&&◌,
  ◌||◌, Option, none, some, List, [], ◌∷◌, ◌++◌, map, arith,
}
use metachain.Net.Message.{
  header_size, checksum_size, max_payload_size, payload_size, checksum, empty_message, remaining,
  absorb_header, took, absorb_payload, absorb, read_data, make_checksum, make_header, get_package,
  NetMessage,
}

abbrev pub max_msg_queue : ℕ
max_msg_queue = 10

-- `m_netMsg` and `m_queueMessages`; the queue's front comes first.
pub record NetPeer : Type 0 where
  pub message : NetMessage
  pub queue : List NetMessage

-- What `ReceiveMsgBytes` comes to: `received` is `true`, with the `complete` flag, and `refused` is
-- `false`; `unfinished` is a loop of the model that is out of fuel.
pub data Receipt : Type 0 where
  received : Bool → NetPeer → Receipt
  refused unfinished : Receipt

-- A message that is complete goes to the queue.
unfoldable pub enqueue : Bool → NetPeer → NetMessage → Bool × NetPeer
enqueue complete p m =
    if m.complete
    then (true, record { message = empty_message; queue = p.queue ++ (m ∷ []) })
    else (complete, record p { message = m })

module _ (hash256 : List ℕ → List ℕ) where
  -- The loop; it reads a byte at least in each
  -- round, so as many rounds as there are bytes are enough.
  unfoldable pub receive_loop : ℕ → Bool → NetPeer → List ℕ → Receipt
  receive_loop f complete p [] = received complete p
  receive_loop zero complete p (b ∷ bytes) = unfinished
  receive_loop (suc f) complete p (b ∷ bytes) =
      if leb max_msg_queue (length p.queue)
      then received true p
      else elim (read_data hash256 p.message (b ∷ bytes)) [
        | none ↦ refused
        | some (handled, m) ↦
            let (complete', p') = enqueue complete p m in
            receive_loop f complete' p' (drop handled (b ∷ bytes))
      ]

  unfoldable pub receive_msg_bytes : NetPeer → List ℕ → Receipt
  receive_msg_bytes p bytes = receive_loop (length bytes) false p bytes
