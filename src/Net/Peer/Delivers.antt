-- ===== src/Net/Peer/Delivers.antt =====
-- `netPeers::ReceiveMsgBytes` (src/io/netPeers.cpp) on the packages of the sending constructor of
-- `netMessage` (src/network/netMessage.cpp).
use mathlib.Core.List.{append_assoc}
use metachain.Base.{
  leb, ◌==◌, Bool-cases, length, take, drop, length-append, length-take, take-append_of_length,
  drop-append_of_length, take_all, list_eq_refl, ℕ, zero, suc, ◌+◌, ◌-◌, ◌≤◌, ◌<◌, ◌≡◌, refl, sym,
  ap, ◌∙◌, inl, inr, Bool, true, false, some, List, [], ◌∷◌, ◌++◌, arith,
}
use metachain.Script.Code.Reads.{write_le-read_le, length-write_le}
use metachain.Script.Code.{write_le, read_le}
use metachain.Net.Message.{
  max_payload_size, payload_size, checksum, empty_message, remaining, absorb_header, took,
  absorb_payload, absorb, read_data, make_checksum, make_header, get_package, NetMessage,
}
use metachain.Net.Peer.{max_msg_queue, enqueue, receive_loop, receive_msg_bytes, NetPeer, received}
use metachain.Net.Peer.Chunks.{drop_all, loop_reads, loop_end}

-- A peer that is in the middle of no message.
abbrev pub idle : List NetMessage → NetPeer
idle q = record { message = empty_message; queue = q }

enqueue_complete :
    (c : Bool) (p : NetPeer) (m : NetMessage)
    → m.complete ≡ true
    → enqueue c p m ≡ (true, idle (p.queue ++ (m ∷ [])))
unfolding enqueue
enqueue_complete c p m e = rw e refl

enqueue_open :
    (c : Bool) (p : NetPeer) (m : NetMessage)
    → m.complete ≡ false
    → enqueue c p m ≡ (c, record p { message = m })
unfolding enqueue
enqueue_open c p m e = rw e refl

no_bytes : (xs : List ℕ) → (length xs == 0) ≡ true → xs ≡ []
no_bytes [] e = refl
no_bytes (x ∷ xs) e = absurd (ground arith)

module _ (hash256 : List ℕ → List ℕ) where
  loop_reads_some :
      (f : ℕ) (c : Bool) (p : NetPeer) (a : List ℕ) (k : ℕ) (m : NetMessage)
      → 0 < length a
      → length a ≤ suc f
      → leb max_msg_queue (length p.queue) ≡ false
      → read_data hash256 p.message a ≡ some (k, m)
      → receive_loop hash256 (suc f) c p a
        ≡ receive_loop hash256 f (enqueue c p m).0 (enqueue c p m).1 (drop k a)
  loop_reads_some f c p [] k m lo le e r = absurd (omega arith)
  loop_reads_some f c p (x ∷ xs) k m lo le e r = loop_reads hash256 f c p x xs k m e r

module _ (hash256 : List ℕ → List ℕ) (subject : ℕ) (payload padding : List ℕ)
    (long : 4 ≤ length (hash256 payload)) (padded : length padding ≡ 2)
    (fits : length payload ≤ max_payload_size) where
  abbrev header : List ℕ
  header = make_header hash256 subject payload padding

  abbrev fields : List ℕ
  fields = write_le 4 (length payload) ++ (write_le 4 0 ++ write_le 2 subject)

  length-fields : length fields ≡ 10
  length-fields = omega (
    arith,
    length-append (write_le 4 (length payload)) (write_le 4 0 ++ write_le 2 subject),
    length-append (write_le 4 0) (write_le 2 subject),
    length-write_le 4 (length payload),
    length-write_le 4 0,
    length-write_le 2 subject,
  )

  length-make_checksum : length (make_checksum hash256 payload) ≡ 4
  unfolding make_checksum
  length-make_checksum = ground (arith, length-take 4 (hash256 payload))

  length-make_header : length header ≡ 16
  unfolding make_header
  length-make_header = omega (
    arith,
    length-append fields (make_checksum hash256 payload ++ padding),
    length-append (make_checksum hash256 payload) padding,
    length-fields,
    length-make_checksum,
    padded,
  )

  payload_size-make_header : payload_size header ≡ length payload
  unfolding make_header payload_size
  payload_size-make_header =
      ap (λ h. read_le (take 4 h))
        (append_assoc (write_le 4 (length payload)) (write_le 4 0 ++ write_le 2 subject)
          (make_checksum hash256 payload ++ padding))
      ∙ (ap read_le (
            take-append_of_length 4 (write_le 4 (length payload)) _
              (length-write_le 4 (length payload)))
          ∙ write_le-read_le 4 (length payload) (omega arith))

  checksum-make_header : checksum header ≡ make_checksum hash256 payload
  unfolding make_header checksum
  checksum-make_header =
      ap (take 4)
        (drop-append_of_length 10 fields (make_checksum hash256 payload ++ padding) length-fields)
      ∙ take-append_of_length 4 (make_checksum hash256 payload) padding length-make_checksum

  -- What the receiver has after the header, and after the payload.
  abbrev with_header : NetMessage
  with_header = record {
    header = header;
    payload = [];
    header_complete = true;
    complete = length payload == 0;
  }

  abbrev pub delivered : NetMessage
  delivered = record { header = header; payload = payload; header_complete = true; complete = true }

  reads_header : read_data hash256 empty_message (header ++ payload) ≡ some (16, with_header)
  unfolding read_data remaining absorb absorb_header took
  reads_header =
      rw
        (
          take-append_of_length 16 header payload length-make_header,
          length-make_header,
          payload_size-make_header,
        )
        (ground arith)

  make_checksum_some : 0 < length payload → make_checksum hash256 payload ≡ take 4 (hash256 payload)
  unfolding make_checksum
  make_checksum_some lo = ground arith

  minus_zero : length payload - 0 ≡ length payload
  minus_zero = omega arith

  reads_payload :
      0 < length payload → read_data hash256 with_header payload ≡ some (length payload, delivered)
  unfolding read_data remaining absorb absorb_payload took
  reads_payload lo =
      rw
        (
          payload_size-make_header,
          minus_zero,
          take_all (length payload) payload (omega arith),
          checksum-make_header,
          make_checksum_some lo,
          list_eq_refl (take 4 (hash256 payload)),
        )
        (ground arith)

  module _ (q : List NetMessage) (room : length q < max_msg_queue) where
    not_full : leb max_msg_queue (length q) ≡ false
    not_full = ground arith

    -- Without a payload the message is complete with its header.
    loop_no_payload :
        (f : ℕ)
        → (length payload == 0) ≡ true
        → receive_loop hash256 f
            (enqueue false (idle q) with_header).0
            (enqueue false (idle q) with_header).1
            payload
          ≡ received true (idle (q ++ (delivered ∷ [])))
    loop_no_payload f e =
        let empty : payload ≡ [] = no_bytes payload e in
        let same : with_header ≡ delivered = rw e (
          ap (λ l. record { header = header; payload = l; header_complete = true; complete = true })
            (sym empty)) in
        ap (λ r. receive_loop hash256 f r.0 r.1 payload)
          (enqueue_complete false (idle q) with_header e)
        ∙ (ap (λ m. receive_loop hash256 f true (idle (q ++ (m ∷ []))) payload) same
            ∙ (ap (receive_loop hash256 f true (idle (q ++ (delivered ∷ [])))) empty
                ∙ loop_end hash256 f true (idle (q ++ (delivered ∷ [])))))

    loop_some_payload :
        (f : ℕ)
        → length payload ≤ suc f
        → (length payload == 0) ≡ false
        → receive_loop hash256
            (suc f)
            (enqueue false (idle q) with_header).0
            (enqueue false (idle q) with_header).1
            payload
          ≡ received true (idle (q ++ (delivered ∷ [])))
    loop_some_payload f le e =
        ap (λ r. receive_loop hash256 (suc f) r.0 r.1 payload)
          (enqueue_open false (idle q) with_header e)
        ∙ (loop_reads_some hash256 f false (record { message = with_header; queue = q }) payload
              (length payload) delivered (ground arith) le not_full (reads_payload (ground arith))
            ∙ (ap (λ r. receive_loop hash256 f r.0 r.1 (drop (length payload) payload))
                  (enqueue_complete false (record { message = with_header; queue = q }) delivered
                    refl)
                ∙ (ap (receive_loop hash256 f true (idle (q ++ (delivered ∷ []))))
                      (drop_all payload)
                    ∙ loop_end hash256 f true (idle (q ++ (delivered ∷ []))))))

    loop_payload :
        (f : ℕ)
        → length payload ≤ f
        → receive_loop hash256 f
            (enqueue false (idle q) with_header).0
            (enqueue false (idle q) with_header).1
            payload
          ≡ received true (idle (q ++ (delivered ∷ [])))
    loop_payload zero le = loop_no_payload zero (ground arith)
    loop_payload (suc f) le = elim (Bool-cases (length payload == 0)) [
      | inl e ↦ loop_no_payload (suc f) e
      | inr e ↦ loop_some_payload f le e
    ]

    loop_package :
        (f : ℕ)
        → length (header ++ payload) ≡ suc f
        → receive_loop hash256 (suc f) false (idle q) (header ++ payload)
          ≡ received true (idle (q ++ (delivered ∷ [])))
    loop_package f e =
        loop_reads_some hash256 f false (idle q) (header ++ payload) 16 with_header
          (omega (arith, e)) (omega (arith, e)) not_full reads_header
        ∙ (ap
              (receive_loop hash256 f (enqueue false (idle q) with_header).0
                (enqueue false (idle q) with_header).1)
              (drop-append_of_length 16 header payload length-make_header)
            ∙ loop_payload f (omega (arith, e, length-append header payload, length-make_header)))

    -- A package that the sending constructor makes, and that a peer receives while it is in the middle of
    -- no message and its queue has room, puts one message into the queue: with the header and the payload
    -- of the package, and complete. The payload is at most MAX_PAYLOAD_SIZE bytes long, the hash at least
    -- 4 bytes.
    pub receive_msg_bytes-get_package :
        receive_msg_bytes hash256 (idle q) (get_package hash256 subject payload padding)
        ≡ received true (idle (q ++ (delivered ∷ [])))
    unfolding receive_msg_bytes get_package
    receive_msg_bytes-get_package =
        let e : length (header ++ payload) ≡ suc (15 + length payload) =
          omega (arith, length-append header payload, length-make_header) in
        ap (λ f. receive_loop hash256 f false (idle q) (header ++ payload)) e
        ∙ loop_package (15 + length payload) e
