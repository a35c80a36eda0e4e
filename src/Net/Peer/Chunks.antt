-- ===== src/Net/Peer/Chunks.antt =====
-- `netPeers::ReceiveMsgBytes` (src/io/netPeers.cpp) on the bytes of a connection in several pieces.
use metachain.Base.{
  ltb, leb, ltb→lt, Bool-cases, Option-cases, length, drop, length-append, length-drop,
  drop-append_le, drop-append_add, ℕ, zero, suc, ◌+◌, ◌≤◌, ◌<◌, ◌≡◌, refl, sym, ap, ◌∙◌, ◌⊎◌, inl,
  inr, Bool, true, false, ◌||◌, none, some, List, [], ◌∷◌, ◌++◌, arith,
}
use metachain.Net.Message.{remaining, read_data, NetMessage}
use metachain.Net.Message.Pieces.{
  IsPartial, extend, IsPartial-extend, read_data_whole, read_data_part, read_data_rest,
  read_data_rest_none, read_data-handled,
}
use metachain.Net.Peer.{
  max_msg_queue, enqueue, receive_loop, receive_msg_bytes, NetPeer, Receipt, received, refused,
  unfinished,
}

pub enqueue-IsPartial :
    (c : Bool) (p : NetPeer) (m : NetMessage)
    → (m.complete ≡ true) ⊎ IsPartial m
    → IsPartial (enqueue c p m).1.message
unfolding enqueue remaining
enqueue-IsPartial c p m h = ground arith

enqueue_partial :
    (c : Bool) (p : NetPeer) (m : NetMessage)
    → IsPartial m
    → enqueue c p m ≡ (c, record p { message = m })
unfolding enqueue
enqueue_partial c p m h = rw h.0 refl

enqueue_message :
    (c : Bool) (p : NetPeer) (m m' : NetMessage)
    → enqueue c (record p { message = m }) m' ≡ enqueue c p m'
unfolding enqueue
enqueue_message c p m m' = refl

pub drop_all : (xs : List ℕ) → drop (length xs) xs ≡ []
drop_all [] = refl
drop_all (x ∷ xs) = drop_all xs

append_none : (xs : List ℕ) → xs ++ [] ≡ xs
append_none [] = refl
append_none (x ∷ xs) = ap (λ l. x ∷ l) (append_none xs)

-- What comes of receiving further bytes.
unfoldable pub then_receive : Receipt → (Bool → NetPeer → Receipt) → Receipt
then_receive (received c p) f = f c p
then_receive refused f = refused
then_receive unfinished f = unfinished

module _ (hash256 : List ℕ → List ℕ) where
  pub loop_full :
      (f : ℕ) (c : Bool) (p : NetPeer) (x : ℕ) (xs : List ℕ)
      → leb max_msg_queue (length p.queue) ≡ true
      → receive_loop hash256 (suc f) c p (x ∷ xs) ≡ received true p
  unfolding receive_loop
  loop_full f c p x xs e = rw (e, receive_loop) refl

  pub loop_refuses :
      (f : ℕ) (c : Bool) (p : NetPeer) (x : ℕ) (xs : List ℕ)
      → leb max_msg_queue (length p.queue) ≡ false
      → read_data hash256 p.message (x ∷ xs) ≡ none
      → receive_loop hash256 (suc f) c p (x ∷ xs) ≡ refused
  unfolding receive_loop
  loop_refuses f c p x xs e r = rw (e, r, receive_loop) refl

  pub loop_reads :
      (f : ℕ) (c : Bool) (p : NetPeer) (x : ℕ) (xs : List ℕ) (k : ℕ) (m : NetMessage)
      → leb max_msg_queue (length p.queue) ≡ false
      → read_data hash256 p.message (x ∷ xs) ≡ some (k, m)
      → receive_loop hash256 (suc f) c p (x ∷ xs)
        ≡ receive_loop hash256 f (enqueue c p m).0 (enqueue c p m).1 (drop k (x ∷ xs))
  unfolding receive_loop
  loop_reads f c p x xs k m e r = rw (e, r, receive_loop) refl

  pub loop_end : (f : ℕ) (c : Bool) (p : NetPeer) → receive_loop hash256 f c p [] ≡ received c p
  unfolding receive_loop
  loop_end zero c p = refl
  loop_end (suc f) c p = refl

  loop_fuel :
      (f g : ℕ) (c : Bool) (p : NetPeer) (a : List ℕ)
      → IsPartial p.message
      → length a ≤ f
      → length a ≤ g
      → receive_loop hash256 f c p a ≡ receive_loop hash256 g c p a
  loop_fuel f g c p [] h lf lg = loop_end f c p ∙ sym (loop_end g c p)
  loop_fuel zero g c p (x ∷ xs) h lf lg = absurd (omega arith)
  loop_fuel (suc f) zero c p (x ∷ xs) h lf lg = absurd (omega arith)
  loop_fuel (suc f) (suc g) c p (x ∷ xs) h lf lg =
      elim (Bool-cases (leb max_msg_queue (length p.queue))) [
        | inl e ↦ loop_full f c p x xs e ∙ sym (loop_full g c p x xs e)
        | inr e ↦ elim (Option-cases (read_data hash256 p.message (x ∷ xs))) [
          | inl r ↦ loop_refuses f c p x xs e r ∙ sym (loop_refuses g c p x xs e r)
          | inr ((k, m), r) ↦
              let (lo, hi, q) = read_data-handled hash256 p.message m x xs k h r in
              let shorter = length-drop k (x ∷ xs) in
              loop_reads f c p x xs k m e r
              ∙ (loop_fuel f g _ _ (drop k (x ∷ xs)) (enqueue-IsPartial c p m q)
                    (omega (arith, shorter, lo, lf)) (omega (arith, shorter, lo, lg))
                  ∙ sym (loop_reads g c p x xs k m e r))
        ]
      ]

  loop_full_any :
      (p : NetPeer) (b : List ℕ)
      → leb max_msg_queue (length p.queue) ≡ true
      → receive_loop hash256 (length b) true p b ≡ received true p
  loop_full_any p [] e = loop_end 0 true p
  loop_full_any p (y ∷ ys) e = loop_full (length ys) true p y ys e

  -- The bytes `x ∷ xs` are fewer than the message lacks.
  module _ (c : Bool) (p : NetPeer) (x : ℕ) (xs : List ℕ) (h : IsPartial p.message)
      (lt : length (x ∷ xs) < remaining p.message)
      (e : leb max_msg_queue (length p.queue) ≡ false) where
    abbrev extended : NetPeer
    extended = record p { message = extend p.message (x ∷ xs) }

    loop_part : (f : ℕ) → receive_loop hash256 (suc f) c p (x ∷ xs) ≡ received c extended
    loop_part f =
        loop_reads f c p x xs (length (x ∷ xs)) (extend p.message (x ∷ xs)) e
          (read_data_part hash256 p.message (x ∷ xs) lt)
        ∙ (rw
              (
                enqueue_partial c p (extend p.message (x ∷ xs))
                    (IsPartial-extend hash256 p.message (x ∷ xs) h lt),
                drop_all (x ∷ xs),
              )
              refl
            ∙ loop_end f c extended)

    loop_spans :
        (g : ℕ) (b : List ℕ)
        → length ((x ∷ xs) ++ b) ≤ suc g
        → receive_loop hash256 (suc g) c p ((x ∷ xs) ++ b)
          ≡ receive_loop hash256 (length b) c extended b
    unfolding enqueue receive_loop
    loop_spans g [] le =
        ap (receive_loop hash256 (suc g) c p) (append_none (x ∷ xs))
        ∙ (loop_part g ∙ sym (loop_end 0 c extended))
    loop_spans g (y ∷ ys) le =
        elim (Option-cases (read_data hash256 (extend p.message (x ∷ xs)) (y ∷ ys))) [
          | inl r ↦
              loop_refuses g c p x (xs ++ (y ∷ ys)) e
                (read_data_rest_none hash256 p.message (x ∷ xs) (y ∷ ys) lt r)
              ∙ sym (loop_refuses (length ys) c extended y ys e r)
          | inr ((k, m), r) ↦
              let part = IsPartial-extend hash256 p.message (x ∷ xs) h lt in
              let (lo, hi, q) =
                read_data-handled hash256 (extend p.message (x ∷ xs)) m y ys k part r in
              let shorter = length-drop k (y ∷ ys) in
              loop_reads g c p x (xs ++ (y ∷ ys)) (length (x ∷ xs) + k) m e
                (read_data_rest hash256 p.message m (x ∷ xs) (y ∷ ys) k lt r)
              ∙ (ap (receive_loop hash256 g (enqueue c p m).0 (enqueue c p m).1)
                    (drop-append_add (x ∷ xs) (y ∷ ys) k)
                  ∙ (loop_fuel g (length ys) _ _ (drop k (y ∷ ys)) (enqueue-IsPartial c p m q)
                        (omega (arith, shorter, lo, le, length-append (x ∷ xs) (y ∷ ys)))
                        (omega (arith, shorter, lo))
                      ∙ sym (loop_reads (length ys) c extended y ys k m e r)))
        ]

  loop-append :
      (f g : ℕ) (c : Bool) (p : NetPeer) (a b : List ℕ)
      → IsPartial p.message
      → length a ≤ f
      → length (a ++ b) ≤ g
      → receive_loop hash256 g c p (a ++ b)
        ≡ then_receive
            (receive_loop hash256 f c p a)
            (λ c' p'. receive_loop hash256 (length b) c' p' b)
  loop-append f g c p [] b h lf lg =
      loop_fuel g (length b) c p b h lg (omega arith)
      ∙ rw (loop_end f c p) (unfold then_receive in refl)
  loop-append zero g c p (x ∷ xs) b h lf lg = absurd (omega arith)
  loop-append (suc f) zero c p (x ∷ xs) b h lf lg = absurd (omega arith)
  loop-append (suc f) (suc g) c p (x ∷ xs) b h lf lg =
      elim (Bool-cases (leb max_msg_queue (length p.queue))) [
        | inl e ↦
            loop_full g c p x (xs ++ b) e
            ∙ rw (loop_full f c p x xs e) (unfold then_receive in sym (loop_full_any p b e))
        | inr e ↦ elim (Bool-cases (ltb (length (x ∷ xs)) (remaining p.message))) [
          | inl lt ↦
              loop_spans c p x xs h (ltb→lt _ _ lt) e g b lg
              ∙ rw (loop_part c p x xs h (ltb→lt _ _ lt) e f) (unfold then_receive in refl)
          | inr ge ↦ elim (Option-cases (read_data hash256 p.message (x ∷ xs))) [
            | inl r ↦
                loop_refuses g c p x (xs ++ b) e (whole ge ∙ r)
                ∙ rw (loop_refuses f c p x xs e r) (unfold then_receive in refl)
            | inr ((k, m), r) ↦
                let (lo, hi, q) = read_data-handled hash256 p.message m x xs k h r in
                loop_reads g c p x (xs ++ b) k m e (whole ge ∙ r)
                ∙ (ap (receive_loop hash256 g (enqueue c p m).0 (enqueue c p m).1)
                      (drop-append_le k (x ∷ xs) b hi)
                    ∙ (loop-append f g _ _ (drop k (x ∷ xs)) b (enqueue-IsPartial c p m q)
                          (omega (arith, length-drop k (x ∷ xs), lo, lf))
                          (omega (
                            arith,
                            length-append (drop k (x ∷ xs)) b,
                            length-append (x ∷ xs) b,
                            length-drop k (x ∷ xs),
                            lo,
                            lg,
                            hi,
                          ))
                        ∙ rw (loop_reads f c p x xs k m e r) refl))
          ]
        ]
      ]
    where
      whole :
          ltb (length (x ∷ xs)) (remaining p.message) ≡ false
          → read_data hash256 p.message ((x ∷ xs) ++ b) ≡ read_data hash256 p.message (x ∷ xs)
      whole ge = read_data_whole hash256 p.message (x ∷ xs) b (ground arith)

-- The `complete` flag of an earlier call stays set.
unfoldable pub or_flag : Bool → Receipt → Receipt
or_flag c (received c' p) = received (c || c') p
or_flag c refused = refused
or_flag c unfinished = unfinished

or_flag-or : (c d : Bool) (r : Receipt) → or_flag (c || d) r ≡ or_flag c (or_flag d r)
unfolding or_flag
or_flag-or c d r = ground arith

enqueue_flag :
    (c : Bool) (p : NetPeer) (m : NetMessage)
    → enqueue c p m ≡ (c || (enqueue false p m).0, (enqueue false p m).1)
unfolding enqueue
enqueue_flag c p m = ground arith

then_receive_cong :
    (r : Receipt) (f g : Bool → NetPeer → Receipt)
    → ((c : Bool) (p : NetPeer) → f c p ≡ g c p)
    → then_receive r f ≡ then_receive r g
unfolding then_receive
then_receive_cong (received c p) f g h = h c p
then_receive_cong refused f g h = refl
then_receive_cong unfinished f g h = refl

module _ (hash256 : List ℕ → List ℕ) where
  loop_flag :
      (f : ℕ) (c : Bool) (p : NetPeer) (a : List ℕ)
      → receive_loop hash256 f c p a ≡ or_flag c (receive_loop hash256 f false p a)
  loop_flag f c p [] =
      loop_end hash256 f c p ∙ rw (loop_end hash256 f false p) (unfold or_flag in ground arith)
  loop_flag zero c p (x ∷ xs) = unfold receive_loop or_flag in refl
  loop_flag (suc f) c p (x ∷ xs) = elim (Bool-cases (leb max_msg_queue (length p.queue))) [
    | inl e ↦
        loop_full hash256 f c p x xs e
        ∙ rw (loop_full hash256 f false p x xs e) (unfold or_flag in ground arith)
    | inr e ↦ elim (Option-cases (read_data hash256 p.message (x ∷ xs))) [
      | inl r ↦
          loop_refuses hash256 f c p x xs e r
          ∙ rw (loop_refuses hash256 f false p x xs e r) (unfold or_flag in refl)
      | inr ((k, m), r) ↦
          let (d, p') = enqueue false p m in
          loop_reads hash256 f c p x xs k m e r
          ∙ (ap (λ q. receive_loop hash256 f q.0 q.1 (drop k (x ∷ xs))) (enqueue_flag c p m)
              ∙ (loop_flag f (c || d) p' (drop k (x ∷ xs))
                  ∙ (or_flag-or c d _
                      ∙ (ap (or_flag c) (sym (loop_flag f d p' (drop k (x ∷ xs))))
                          ∙ ap (or_flag c) (sym (loop_reads hash256 f false p x xs k m e r))))))
    ]
  ]

  -- Receiving two pieces of a connection's bytes one after the other comes to the same as receiving them
  -- in one: the same peer, or a refusal, and the `complete` flag that either call set. The message in
  -- progress lacks bytes.
  pub receive_msg_bytes-append :
      (p : NetPeer) (a b : List ℕ)
      → IsPartial p.message
      → receive_msg_bytes hash256 p (a ++ b)
        ≡ then_receive
            (receive_msg_bytes hash256 p a)
            (λ complete p'. or_flag complete (receive_msg_bytes hash256 p' b))
  unfolding receive_msg_bytes
  receive_msg_bytes-append p a b h =
      loop-append hash256 (length a) (length (a ++ b)) false p a b h (omega arith) (omega arith)
      ∙ then_receive_cong (receive_loop hash256 (length a) false p a) _ _
          (λ c p'. loop_flag (length b) c p' b)
