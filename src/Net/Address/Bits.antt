-- ===== src/Net/Address/Bits.antt =====
-- The bits of the bytes of an address, and their masks (src/network/CSubnet.cpp).
use metachain.Base.{
  all_below, all_below_at, ◌==◌, ==_iff, length, take, list_eq, list_eq_sound, ℕ, ◌+◌, ◌-◌, ◌*◌,
  ◌/◌, ◌%◌, ◌^◌, ◌≤◌, ◌<◌, ◌≡◌, ◌↔◌, refl, ap, sym, ◌∙◌, subst, bit_and, Bool, true, ◌&&◌, List, [],
  ◌∷◌, ◌++◌, arith,
}

-- From the highest to the lowest.
unfoldable pub byte_bits : ℕ → List ℕ
byte_bits b =
    b / 128 % 2
    ∷ b / 64 % 2
    ∷ b / 32 % 2
    ∷ b / 16 % 2
    ∷ b / 8 % 2
    ∷ b / 4 % 2
    ∷ b / 2 % 2
    ∷ b % 2
    ∷ []

unfoldable pub bits : List ℕ → List ℕ
bits [] = []
bits (b ∷ bs) = byte_bits b ++ bits bs

-- A byte whose first `r` bits are set.
abbrev pub first_bits : ℕ → ℕ
first_bits r = 256 - 2 ^ (8 - r)

-- The byte of some bits from the highest on.
read_bits : ℕ → List ℕ → ℕ
read_bits w [] = 0
read_bits w (b ∷ bs) = b * w + read_bits (w / 2) bs

kept : ℕ → ℕ → Bool
kept r x =
    list_eq (take r (byte_bits x)) (take r (byte_bits (bit_and x (first_bits r))))
    && read_bits 128 (take r (byte_bits x)) == bit_and x (first_bits r)

-- For the number r * 256 + x.
kept_test : ℕ → Bool
unfolding kept
kept_test n = kept (n / 256) (n % 256)

kept_tests : all_below kept_test 2304 ≡ true
unfolding all_below kept_test byte_bits read_bits
kept_tests = refl

pub left_true : (a b : Bool) → (a && b) ≡ true → a ≡ true
left_true a b h = ground arith

pub right_true : (a b : Bool) → (a && b) ≡ true → b ≡ true
right_true a b h = ground arith

kept_parts :
    (r x : ℕ)
    → kept r x ≡ true
    → (take r (byte_bits x) ≡ take r (byte_bits (bit_and x (first_bits r))))
      × (read_bits 128 (take r (byte_bits x)) ≡ bit_and x (first_bits r))
unfolding kept
kept_parts r x h = (list_eq_sound _ _ (left_true _ _ h), (==_iff _ _).0 (right_true _ _ h))

kept_at : (r x : ℕ) → r ≤ 8 → x < 256 → kept r x ≡ true
kept_at r x hr hx =
    let t = all_below_at kept_test 2304 (r * 256 + x) (omega arith) kept_tests in
    let er : (r * 256 + x) / 256 ≡ r = omega arith in
    let ex : (r * 256 + x) % 256 ≡ x = omega arith in
    subst (λ n. kept n x ≡ true) er
      (subst (λ n. kept ((r * 256 + x) / 256) n ≡ true) ex (unfold kept_test in t))

kept_facts :
    (r x : ℕ)
    → r ≤ 8
    → x < 256
    → (take r (byte_bits x) ≡ take r (byte_bits (bit_and x (first_bits r))))
      × (read_bits 128 (take r (byte_bits x)) ≡ bit_and x (first_bits r))
kept_facts r x hr hx = kept_parts r x (kept_at r x hr hx)

-- Two bytes agree under the mask if they agree in the first bits.
pub masked_iff :
    (r x y : ℕ)
    → r ≤ 8
    → x < 256
    → y < 256
    → (bit_and x (first_bits r) ≡ bit_and y (first_bits r))
      ↔ (take r (byte_bits x) ≡ take r (byte_bits y))
masked_iff r x y hr hx hy =
    let (bx, nx) = kept_facts r x hr hx in
    let (by', ny) = kept_facts r y hr hy in
    (
      (λ e. bx ∙ ap (λ m. take r (byte_bits m)) e ∙ sym by'),
      (λ e. sym nx ∙ ap (read_bits 128) e ∙ ny),
    )

pub length-byte_bits : (b : ℕ) → length (byte_bits b) ≡ 8
unfolding byte_bits
length-byte_bits b = refl
