-- ===== src/Net/Message/Pieces.antt =====
-- `netMessage::readData` (src/network/netMessage.cpp) on bytes in two pieces.
use mathlib.Core.List.{append_assoc}
use metachain.Base.{
  if◌then◌else◌, length, take, length-append, length-take, take-append_le, take-append_add,
  take_all, ℕ, ◌+◌, ◌-◌, ◌≤◌, ◌<◌, ◌≡◌, refl, sym, ap, ◌∙◌, subst, ◌⊎◌, true, false, Option, none,
  some, List, ◌∷◌, ◌++◌, arith,
}
use metachain.Net.Message.{
  header_size, payload_size, remaining, absorb_header, took, absorb_payload, absorb, read_data,
  NetMessage,
}

-- A message that is not complete lacks bytes.
abbrev pub IsPartial : NetMessage → Type 0
IsPartial m =
    (m.complete ≡ false)
    × (0 < remaining m)
    × (if m.header_complete
        then length m.payload < payload_size m.header
        else (length m.payload ≡ 0) × (length m.header < header_size))

abbrev pub OnSome : (NetMessage → Type 0) → Option NetMessage → Type 0
OnSome P none = Unit
OnSome P (some m) = P m

-- With fewer bytes than it lacks.
unfoldable pub extend : NetMessage → List ℕ → NetMessage
extend m a =
    if m.header_complete
    then record m { payload = m.payload ++ a }
    else record m { header = m.header ++ a }

module _ (hash256 : List ℕ → List ℕ) where
  absorb_short :
      (m : NetMessage) (a : List ℕ)
      → length a < remaining m
      → absorb hash256 m a ≡ some (extend m a)
  unfolding absorb absorb_payload absorb_header extend remaining
  absorb_short m a lt = ground (arith, length-append m.payload a, length-append m.header a)

  absorb-extend :
      (m : NetMessage) (a b : List ℕ) → absorb hash256 (extend m a) b ≡ absorb hash256 m (a ++ b)
  unfolding absorb absorb_payload absorb_header extend
  absorb-extend m a b = ground (arith, append_assoc m.payload a b, append_assoc m.header a b)

  remaining-extend :
      (m : NetMessage) (a : List ℕ)
      → length a < remaining m
      → remaining (extend m a) ≡ remaining m - length a
  unfolding remaining extend
  remaining-extend m a lt = ground (arith, length-append m.payload a, length-append m.header a)

  pub IsPartial-extend :
      (m : NetMessage) (a : List ℕ) → IsPartial m → length a < remaining m → IsPartial (extend m a)
  unfolding remaining extend
  IsPartial-extend m a h lt = ground (arith, length-append m.payload a, length-append m.header a)

  -- After as many bytes as it lacks at most, a message is complete, or lacks bytes again.
  absorb-IsPartial_some :
      (m : NetMessage) (a : List ℕ)
      → IsPartial m
      → length a ≤ remaining m
      → OnSome (λ m'. (m'.complete ≡ true) ⊎ IsPartial m') (absorb hash256 m a)
  unfolding absorb absorb_payload absorb_header remaining
  absorb-IsPartial_some m a h le =
      ground (arith, length-append m.payload a, length-append m.header a)

  abbrev taking : NetMessage → List ℕ → Option (ℕ × NetMessage)
  taking m c = took (length c) (absorb hash256 m c)

  read_data-taking :
      (m : NetMessage) (a : List ℕ) → read_data hash256 m a ≡ taking m (take (remaining m) a)
  unfolding read_data
  read_data-taking m a = refl

  pub read_data_whole :
      (m : NetMessage) (a b : List ℕ)
      → remaining m ≤ length a
      → read_data hash256 m (a ++ b) ≡ read_data hash256 m a
  unfolding read_data
  read_data_whole m a b le = ap (taking m) (take-append_le (remaining m) a b le)

  pub read_data_part :
      (m : NetMessage) (a : List ℕ)
      → length a < remaining m
      → read_data hash256 m a ≡ some (length a, extend m a)
  read_data_part m a lt =
      read_data-taking m a
      ∙ (ap (taking m) (take_all (remaining m) a (omega arith))
          ∙ rw (absorb_short m a lt) (unfold took in refl))

  take_rest : (n : ℕ) (a b : List ℕ) → length a < n → take n (a ++ b) ≡ a ++ take (n - length a) b
  take_rest n a b lt =
      subst (λ k. take k (a ++ b) ≡ a ++ take (n - length a) b) (omega arith)
        (take-append_add a b (n - length a))

  read_data-append :
      (m : NetMessage) (a b : List ℕ)
      → length a < remaining m
      → read_data hash256 m (a ++ b)
        ≡ took
            (length a + length (take (remaining (extend m a)) b))
            (absorb hash256 (extend m a) (take (remaining (extend m a)) b))
  read_data-append m a b lt =
      read_data-taking m (a ++ b)
      ∙ (ap (taking m) (take_rest (remaining m) a b lt)
          ∙ rw
              (
                remaining-extend m a lt,
                length-append a (take (remaining m - length a) b),
                absorb-extend m a (take (remaining m - length a) b),
              )
              refl)

  took-add :
      (l k j : ℕ) (o : Option NetMessage) (m' : NetMessage)
      → took k o ≡ some (j, m')
      → took (l + k) o ≡ some (l + j, m')
  unfolding took
  took-add l k j o m' e = ground arith

  took-none : (l k : ℕ) (o : Option NetMessage) → took k o ≡ none → took l o ≡ none
  unfolding took
  took-none l k o e = ground arith

  pub read_data_rest :
      (m m' : NetMessage) (a b : List ℕ) (k : ℕ)
      → length a < remaining m
      → read_data hash256 (extend m a) b ≡ some (k, m')
      → read_data hash256 m (a ++ b) ≡ some (length a + k, m')
  read_data_rest m m' a b k lt e =
      read_data-append m a b lt
      ∙ took-add (length a) _ k _ m' (sym (read_data-taking (extend m a) b) ∙ e)

  pub read_data_rest_none :
      (m : NetMessage) (a b : List ℕ)
      → length a < remaining m
      → read_data hash256 (extend m a) b ≡ none
      → read_data hash256 m (a ++ b) ≡ none
  read_data_rest_none m a b lt e =
      read_data-append m a b lt ∙ took-none _ _ _ (sym (read_data-taking (extend m a) b) ∙ e)

  took-OnSome :
      (P : NetMessage → Type 0) (n k : ℕ) (o : Option NetMessage) (m' : NetMessage)
      → OnSome P o
      → took n o ≡ some (k, m')
      → (k ≡ n) × P m'
  unfolding took
  took-OnSome P n k none m' h e = absurd (cc)
  took-OnSome P n k (some m) m' h e =
      let same : m ≡ m' = cc in let count : k ≡ n = cc in (count, subst P same h)

  -- A byte at least is read, and no more than there are.
  pub read_data-handled :
      (m m' : NetMessage) (b : ℕ) (bytes : List ℕ) (k : ℕ)
      → IsPartial m
      → read_data hash256 m (b ∷ bytes) ≡ some (k, m')
      → (0 < k) × (k ≤ length (b ∷ bytes)) × ((m'.complete ≡ true) ⊎ IsPartial m')
  read_data-handled m m' b bytes k h e =
      let (same, p) =
        took-OnSome (λ n. (n.complete ≡ true) ⊎ IsPartial n) _ k _ m'
          (absorb-IsPartial_some m (take (remaining m) (b ∷ bytes)) h
            (omega (arith, length-take (remaining m) (b ∷ bytes))))
          (sym (read_data-taking m (b ∷ bytes)) ∙ e) in
      (
        omega (arith, same, length-take (remaining m) (b ∷ bytes), h.1),
        omega (arith, same, length-take (remaining m) (b ∷ bytes)),
        p,
      )
