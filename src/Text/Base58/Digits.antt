-- ===== src/Text/Base58/Digits.antt =====
-- Digits in a base, and one pass of the loops of src/MCP/MCP01/base58.cpp.
use native.Mathlib.Nat.{
  div-add-mod, mod-lt, pow-succ', pow-zero, mul_assoc, mul_left_comm, le-mul_of_pos_right,
  mul-le-mul_right, lt_of_mul-lt-mul_left,
}
use metachain.Base.{
  ltb, ◌==◌, Bool-cases, length, All, ℕ, zero, suc, ◌+◌, ◌-◌, ◌*◌, ◌/◌, ◌%◌, ◌^◌, ◌≤◌, ◌<◌, ◌≡◌,
  refl, ap, ◌∙◌, subst, not, ◌||◌, inl, inr, List, [], ◌∷◌, arith,
}
use metachain.Text.Base58.{mul_add, passes}

-- The number that digits stand for, the last one at the front.
abbrev pub value : ℕ → List ℕ → ℕ
value b [] = 0
value b (d ∷ ds) = d + b * value b ds

-- From the place `n` on there are zeros only.
abbrev pub EndsAt : ℕ → List ℕ → Type 0
EndsAt n [] = Unit
EndsAt zero (d ∷ ds) = (d ≡ 0) × EndsAt zero ds
EndsAt (suc n) (d ∷ ds) = EndsAt n ds

abbrev pub Below : ℕ → List ℕ → Type 0
Below b = All (λ d. d < b)

value-EndsAt : (b : ℕ) (ds : List ℕ) → EndsAt 0 ds → value b ds ≡ 0
value-EndsAt b [] h = refl
value-EndsAt b (d ∷ ds) h = rw (h.0, value-EndsAt b ds h.1) (omega arith)

kept : (m b d v c : ℕ) → (c + m * d) % b + b * (m * v + (c + m * d) / b) ≡ m * (d + b * v) + c
kept m b d v c = grind (arith, div-add-mod (c + m * d) b)

carried : (m b d v c p : ℕ) → m * (d + b * v) + c < b * p → m * v + (c + m * d) / b < p
carried m b d v c p h = lt_of_mul-lt-mul_left b (omega (arith, kept m b d v c, h))

-- After a pass that has room for its result.
pub record IsProduct (m b carry : ℕ) (ds : List ℕ) (r : List ℕ × ℕ) : Type 0 where
  pub exact : value b r.0 ≡ m * value b ds + carry
  pub below : Below b r.0
  pub same_size : length r.0 ≡ length ds
  pub ends : EndsAt r.1 r.0

nothing_over :
    (m b carry : ℕ) (ds : List ℕ)
    → EndsAt 0 ds
    → Below b ds
    → carry ≡ 0
    → IsProduct m b carry ds (ds, 0)
nothing_over m b carry ds e h z = record {
  exact = rw (z, value-EndsAt b ds e) (omega arith);
  below = h;
  same_size = refl;
  ends = e;
}

one_more :
    (m b carry d : ℕ) (ds rest : List ℕ) (i : ℕ)
    → 0 < b
    → IsProduct m b ((carry + m * d) / b) ds (rest, i)
    → IsProduct m b carry (d ∷ ds) ((carry + m * d) % b ∷ rest, suc i)
one_more m b carry d ds rest i pos p = record {
  exact = rw p.exact (kept m b d (value b ds) carry);
  below = (mod-lt (carry + m * d) pos, p.below);
  same_size = ap suc p.same_size;
  ends = p.ends;
}

EndsAt-pred : (n d : ℕ) (ds : List ℕ) → EndsAt n (d ∷ ds) → EndsAt (n - 1) ds
EndsAt-pred zero d ds h = h.1
EndsAt-pred (suc n) d ds h = subst (λ k. EndsAt k ds) (let e : n ≡ suc n - 1 = omega arith in e) h

-- A pass multiplies and adds, if the result has room.
pub mul_add-IsProduct :
    (m b len carry : ℕ) (ds : List ℕ)
    → 0 < b
    → EndsAt len ds
    → Below b ds
    → m * value b ds + carry < b ^ length ds
    → IsProduct m b carry ds (mul_add m b len carry ds)
unfolding mul_add
mul_add-IsProduct m b len carry [] pos e h room = record {
  exact = omega (arith, pow-zero b, room);
  below = h;
  same_size = refl;
  ends = e;
}
mul_add-IsProduct m b len carry (d ∷ ds) pos e h room =
    elim (Bool-cases (not (carry == 0) || ltb 0 len)) [
      | inl goes ↦ rw goes (
          one_more m b carry d ds _ _ pos (
            mul_add-IsProduct m b (len - 1) ((carry + m * d) / b) ds pos (EndsAt-pred len d ds e)
              h.1
              (carried m b d (value b ds) carry (b ^ length ds) (
                subst (λ p. m * (d + b * value b ds) + carry < p) (pow-succ' b (length ds)) room))))
      | inr stops ↦ rw stops (
          nothing_over m b carry (d ∷ ds)
            (subst (λ k. EndsAt k (d ∷ ds)) (let z : len ≡ 0 = ground arith in z) e) h
            (ground arith))
    ]

-- The number that values stand for in the base `m`, the first one at the front, behind `acc`.
abbrev pub horner : ℕ → ℕ → List ℕ → ℕ
horner m acc [] = acc
horner m acc (c ∷ cs) = horner m (m * acc + c) cs

horner_grows : (m acc : ℕ) (cs : List ℕ) → 0 < m → acc ≤ horner m acc cs
horner_grows m acc [] h = omega arith
horner_grows m acc (c ∷ cs) h =
    omega (arith, le-mul_of_pos_right acc h, horner_grows m (m * acc + c) cs h)

pub horner-lt : (m acc : ℕ) (cs : List ℕ) → Below m cs → horner m acc cs < suc acc * m ^ length cs
horner-lt m acc [] h = rw (pow-zero m) (omega arith)
horner-lt m acc (c ∷ cs) h =
    let p = m ^ length cs in
    let step =
      mul-le-mul_right p (let e : suc (m * acc + c) ≤ m * suc acc = omega (arith, h.0) in e) in
    rw (pow-succ' m (length cs)) (
      omega (
        arith,
        horner-lt m (m * acc + c) cs h.1,
        step,
        mul_assoc m (suc acc) p,
        mul_left_comm (suc acc) m p,
      ))

-- The digits and the number of places in use, in passes that have room.
pub record IsNumber (b size n : ℕ) (r : List ℕ × ℕ) : Type 0 where
  pub stands_for : value b r.0 ≡ n
  pub digits : Below b r.0
  pub fits : length r.0 ≡ size
  pub ends : EndsAt r.1 r.0

pass-IsNumber :
    (m b size n c len : ℕ) (ds : List ℕ)
    → 0 < b
    → IsNumber b size n (ds, len)
    → m * n + c < b ^ size
    → IsNumber b size (m * n + c) (mul_add m b len c ds)
pass-IsNumber m b size n c len ds pos h room =
    let p = mul_add-IsProduct m b len c ds pos h.ends h.digits (rw (h.stands_for, h.fits) room) in
    record {
      stands_for = rw (p.exact, h.stands_for);
      digits = p.below;
      fits = p.same_size ∙ h.fits;
      ends = p.ends;
    }

pub passes-IsNumber :
    (m b size n : ℕ) (cs : List ℕ) (r : List ℕ × ℕ)
    → 0 < m
    → 0 < b
    → IsNumber b size n r
    → horner m n cs < b ^ size
    → IsNumber b size (horner m n cs) (passes m b r cs)
unfolding passes
passes-IsNumber m b size n [] r pm pb h room = h
passes-IsNumber m b size n (c ∷ cs) (ds, len) pm pb h room =
    passes-IsNumber m b size (m * n + c) cs (mul_add m b len c ds) pm pb
      (pass-IsNumber m b size n c len ds pb h
        (omega (arith, horner_grows m (m * n + c) cs pm, room)))
      room
