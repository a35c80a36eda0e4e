-- ===== src/Net/Peer/Bounds.antt =====
-- The state of a peer in `netPeers::ReceiveMsgBytes` (src/io/netPeers.cpp), and its full queue.
use metachain.Base.{
  leb, Bool-cases, Option-cases, length, drop, length-append, length-drop, ℕ, zero, suc, ◌≤◌, ◌<◌,
  ◌≡◌, ◌⊎◌, inl, inr, Bool, true, false, List, [], ◌∷◌, arith,
}
use metachain.Net.Message.{read_data, NetMessage}
use metachain.Net.Message.Pieces.{IsPartial, read_data-handled}
use metachain.Net.Peer.{
  max_msg_queue, enqueue, receive_loop, receive_msg_bytes, NetPeer, Receipt, received, refused,
  unfinished,
}
use metachain.Net.Peer.Chunks.{enqueue-IsPartial, loop_full, loop_refuses, loop_reads, loop_end}

-- At most MAX_MSG_QUEUE messages wait, and the message that is read lacks bytes.
abbrev pub IsPeer : NetPeer → Type 0
IsPeer p = IsPartial p.message × (length p.queue ≤ max_msg_queue)

-- The loop is not out of fuel, and the peer that received satisfies `P`.
abbrev pub OnReceived : (NetPeer → Type 0) → Receipt → Type 0
OnReceived P (received c p) = P p
OnReceived P refused = Unit
OnReceived P unfinished = ⊥

enqueue-IsPeer :
    (c : Bool) (p : NetPeer) (m : NetMessage)
    → length p.queue < max_msg_queue
    → (m.complete ≡ true) ⊎ IsPartial m
    → IsPeer (enqueue c p m).1
enqueue-IsPeer c p m room h =
    (enqueue-IsPartial c p m h, unfold enqueue in ground (arith, length-append p.queue (m ∷ [])))

module _ (hash256 : List ℕ → List ℕ) where
  receive_loop-IsPeer :
      (f : ℕ) (c : Bool) (p : NetPeer) (a : List ℕ)
      → length a ≤ f
      → IsPeer p
      → OnReceived IsPeer (receive_loop hash256 f c p a)
  receive_loop-IsPeer f c p [] le h = rw (loop_end hash256 f c p) h
  receive_loop-IsPeer zero c p (x ∷ xs) le h = absurd (omega arith)
  receive_loop-IsPeer (suc f) c p (x ∷ xs) le h =
      elim (Bool-cases (leb max_msg_queue (length p.queue))) [
        | inl e ↦ rw (loop_full hash256 f c p x xs e) h
        | inr e ↦ elim (Option-cases (read_data hash256 p.message (x ∷ xs))) [
          | inl r ↦ rw (loop_refuses hash256 f c p x xs e r) tt
          | inr ((k, m), r) ↦
              let (lo, hi, q) = read_data-handled hash256 p.message m x xs k h.0 r in
              rw (loop_reads hash256 f c p x xs k m e r) (
                receive_loop-IsPeer f _ _ (drop k (x ∷ xs))
                  (omega (arith, length-drop k (x ∷ xs), lo, le))
                  (enqueue-IsPeer c p m (ground arith) q))
        ]
      ]

  -- From a peer with at most MAX_MSG_QUEUE messages in its queue, whose message in progress lacks bytes,
  -- `ReceiveMsgBytes` ends on any bytes, and a peer that it does not refuse is such a peer again.
  pub receive_msg_bytes-IsPeer :
      (p : NetPeer) (bytes : List ℕ)
      → IsPeer p
      → OnReceived IsPeer (receive_msg_bytes hash256 p bytes)
  unfolding receive_msg_bytes
  receive_msg_bytes-IsPeer p bytes h =
      receive_loop-IsPeer (length bytes) false p bytes (omega arith) h
