-- ===== src/Text/Base58/Unique.antt =====
-- A number has one list of digits with no zero in front; `digits_of` of src/MCP/MCP01/base58.cpp gives it.
use native.Mathlib.Nat.{mul-le-mul_left}
use native.Mathlib.Decide.{dec_lt}
use mathlib.Core.List.{reverse, reverse-cons, reverse-reverse, append-nil, append_assoc}
use metachain.Base.{
  ◌==◌, if◌then◌else◌, Bool-cases, length, drop, replicate, drop-append_of_length, length-replicate,
  All-append, ℕ, zero, suc, ◌+◌, ◌-◌, ◌*◌, ◌≤◌, ◌<◌, ◌≡◌, refl, ap, sym, ◌∙◌, subst, inl, inr, List,
  [], ◌∷◌, ◌++◌, arith,
}
use metachain.Text.Base58.{skip_front, digits_of}
use metachain.Text.Base58.Digits.{value, EndsAt, Below, horner}

-- No zero at the back.
abbrev pub Normal : List ℕ → Type 0
Normal [] = Unit
Normal (d ∷ []) = 0 < d
Normal (d ∷ e ∷ ds) = Normal (e ∷ ds)

Normal-tail : (d : ℕ) (ds : List ℕ) → Normal (d ∷ ds) → Normal ds
Normal-tail d [] h = tt
Normal-tail d (e ∷ ds) h = h

value-pos : (b d : ℕ) (ds : List ℕ) → 0 < b → Normal (d ∷ ds) → 0 < value b (d ∷ ds)
value-pos b d [] pos h = omega (arith, h)
value-pos b d (e ∷ ds) pos h =
    let p = mul-le-mul_left b (let q : 1 ≤ value b (e ∷ ds) = value-pos b e ds pos h in q) in
    omega (arith, p)

same_rest : (b x y v w : ℕ) → x < b → x + b * v ≡ y + b * w → w ≤ v
same_rest b x y v w h e = elim (dec_lt v w) [
  | yes p ↦
      let q = mul-le-mul_left b (let r : v + 1 ≤ w = omega arith in r) in absurd (grind (arith, q))
  | no p ↦ omega (arith, p)
]

same_digits :
    (b : ℕ) (xs ys : List ℕ)
    → 0 < b
    → Normal xs
    → Normal ys
    → Below b xs
    → Below b ys
    → value b xs ≡ value b ys
    → xs ≡ ys
same_digits b [] [] pos nx ny bx by e = refl
same_digits b [] (y ∷ ys) pos nx ny bx by e = absurd (omega (arith, value-pos b y ys pos ny, e))
same_digits b (x ∷ xs) [] pos nx ny bx by e = absurd (omega (arith, value-pos b x xs pos nx, e))
same_digits b (x ∷ xs) (y ∷ ys) pos nx ny bx by e =
    let v : value b xs ≡ value b ys = omega (
      arith,
      same_rest b x y (value b xs) (value b ys) bx.0 e,
      same_rest b y x (value b ys) (value b xs) by.0 (sym e),
    ) in
    let d : x ≡ y = omega (arith, e, ap (λ n. b * n) v) in
    cc (d, same_digits b xs ys pos (Normal-tail x xs nx) (Normal-tail y ys ny) bx.1 by.1 v)

-- Without the zeros at the back.
onto : ℕ → List ℕ → List ℕ
onto d [] = if d == 0 then [] else d ∷ []
onto d (x ∷ xs) = d ∷ x ∷ xs

strip : List ℕ → List ℕ
unfolding onto
strip [] = []
strip (d ∷ ds) = onto d (strip ds)

onto-Normal : (d : ℕ) (xs : List ℕ) → Normal xs → Normal (onto d xs)
unfolding onto
onto-Normal d [] h = ground arith
onto-Normal d (x ∷ xs) h = h

onto-value : (b d : ℕ) (xs : List ℕ) → value b (onto d xs) ≡ d + b * value b xs
unfolding onto
onto-value b d [] = ground arith
onto-value b d (x ∷ xs) = refl

onto-Below : (b d : ℕ) (xs : List ℕ) → d < b → Below b xs → Below b (onto d xs)
unfolding onto
onto-Below b d [] h k = ground arith
onto-Below b d (x ∷ xs) h k = (h, k)

strip-Normal : (ds : List ℕ) → Normal (strip ds)
unfolding strip
strip-Normal [] = tt
strip-Normal (d ∷ ds) = onto-Normal d (strip ds) (strip-Normal ds)

strip-value : (b : ℕ) (ds : List ℕ) → value b (strip ds) ≡ value b ds
unfolding strip
strip-value b [] = refl
strip-value b (d ∷ ds) = onto-value b d (strip ds) ∙ ap (λ v. d + b * v) (strip-value b ds)

strip-Below : (b : ℕ) (ds : List ℕ) → Below b ds → Below b (strip ds)
unfolding strip
strip-Below b [] h = tt
strip-Below b (d ∷ ds) h = onto-Below b d (strip ds) h.0 (strip-Below b ds h.1)

-- The same from the other end.
behind : List ℕ → ℕ → List ℕ
behind [] d = if d == 0 then [] else d ∷ []
behind (x ∷ xs) d = x ∷ (xs ++ (d ∷ []))

skip_front-snoc : (xs : List ℕ) (d : ℕ) → skip_front 0 (xs ++ (d ∷ [])) ≡ behind (skip_front 0 xs) d
unfolding skip_front behind
skip_front-snoc [] d = refl
skip_front-snoc (x ∷ xs) d = elim (Bool-cases (x == 0)) [
  | inl e ↦ rw e (skip_front-snoc xs d)
  | inr e ↦ rw e refl
]

behind-snoc : (xs : List ℕ) (x d : ℕ) → behind (xs ++ (x ∷ [])) d ≡ (xs ++ (x ∷ [])) ++ (d ∷ [])
unfolding behind
behind-snoc [] x d = refl
behind-snoc (y ∷ ys) x d = refl

behind-reverse : (xs : List ℕ) (d : ℕ) → behind (reverse xs) d ≡ reverse (onto d xs)
unfolding onto behind
behind-reverse [] d = ground arith
behind-reverse (x ∷ xs) d =
    rw (reverse-cons d (x ∷ xs), reverse-cons x xs) (behind-snoc (reverse xs) x d)

skip_front-reverse : (ds : List ℕ) → skip_front 0 (reverse ds) ≡ reverse (strip ds)
unfolding strip
skip_front-reverse [] = unfold skip_front in refl
skip_front-reverse (d ∷ ds) =
    ap (skip_front 0) (reverse-cons d ds)
    ∙ skip_front-snoc (reverse ds) d
    ∙ ap (λ xs. behind xs d) (skip_front-reverse ds)
    ∙ behind-reverse (strip ds) d

horner-snoc : (b acc d : ℕ) (xs : List ℕ) → horner b acc (xs ++ (d ∷ [])) ≡ b * horner b acc xs + d
horner-snoc b acc d [] = refl
horner-snoc b acc d (x ∷ xs) = horner-snoc b (b * acc + x) d xs

pub horner-reverse : (b : ℕ) (ds : List ℕ) → horner b 0 (reverse ds) ≡ value b ds
horner-reverse b [] = refl
horner-reverse b (d ∷ ds) =
    ap (horner b 0) (reverse-cons d ds)
    ∙ horner-snoc b 0 d (reverse ds)
    ∙ omega (arith, ap (λ v. b * v) (horner-reverse b ds))

-- No zero in front.
abbrev pub Leads : List ℕ → Type 0
Leads [] = Unit
Leads (d ∷ ds) = 0 < d

replicate-snoc {ℓ} : {A : Type ℓ} (k : ℕ) (a : A) → replicate k a ++ (a ∷ []) ≡ a ∷ replicate k a
replicate-snoc zero a = refl
replicate-snoc (suc k) a = ap (λ xs. a ∷ xs) (replicate-snoc k a)

-- What stands behind the place `n` is zeros, and the last in the vector is the first to be passed.
reverse_zeros : (ds : List ℕ) → EndsAt 0 ds → reverse ds ≡ replicate (length ds) 0
reverse_zeros [] h = refl
reverse_zeros (d ∷ ds) h =
    reverse-cons d ds ∙ rw (reverse_zeros ds h.1, h.0) (replicate-snoc (length ds) 0)

EndsAt-front :
    (n : ℕ) (ds : List ℕ)
    → EndsAt n ds
    → (ys : List ℕ) × (reverse ds ≡ replicate (length ds - n) 0 ++ ys)
EndsAt-front n [] h = ([], ap (λ k. replicate k 0 ++ []) (let z : 0 ≡ 0 - n = omega arith in z))
EndsAt-front zero (d ∷ ds) h = (
  [],
  reverse_zeros (d ∷ ds) h
      ∙ sym (append-nil (replicate (length (d ∷ ds)) 0))
      ∙ ap (λ k. replicate k 0 ++ [])
          (let z : length (d ∷ ds) ≡ length (d ∷ ds) - 0 = omega arith in z),
)
EndsAt-front (suc n) (d ∷ ds) h =
    let (ys, e) = EndsAt-front n ds h in
    (
      ys ++ (d ∷ []),
      reverse-cons d ds
          ∙ ap (λ xs. xs ++ (d ∷ [])) e
          ∙ append_assoc (replicate (length ds - n) 0) ys (d ∷ [])
          ∙ ap (λ k. replicate k 0 ++ (ys ++ (d ∷ [])))
              (let z : length ds - n ≡ suc (length ds) - suc n = omega arith in z),
    )

skip_front-replicate : (k : ℕ) (ys : List ℕ) → skip_front 0 (replicate k 0 ++ ys) ≡ skip_front 0 ys
unfolding skip_front
skip_front-replicate zero ys = refl
skip_front-replicate (suc k) ys = skip_front-replicate k ys

Normal-snoc : (xs : List ℕ) (d : ℕ) → 0 < d → Normal (xs ++ (d ∷ []))
Normal-snoc [] d h = h
Normal-snoc (x ∷ []) d h = h
Normal-snoc (x ∷ y ∷ ys) d h = Normal-snoc (y ∷ ys) d h

Leads-reverse : (xs : List ℕ) → Leads xs → Normal (reverse xs)
Leads-reverse [] h = tt
Leads-reverse (d ∷ ds) h = subst Normal (sym (reverse-cons d ds)) (Normal-snoc (reverse ds) d h)

Below-reverse : (b : ℕ) (xs : List ℕ) → Below b xs → Below b (reverse xs)
Below-reverse b [] h = tt
Below-reverse b (d ∷ ds) h =
    subst (Below b) (sym (reverse-cons d ds))
      (All-append (λ x. x < b) (reverse ds) (d ∷ []) (Below-reverse b ds h.1) (h.0, tt))

digits_of-strip : (ds : List ℕ) (n : ℕ) → EndsAt n ds → digits_of (ds, n) ≡ reverse (strip ds)
unfolding digits_of
digits_of-strip ds n ends =
    let (ys, front) = EndsAt-front n ds ends in
    ap (λ zs. skip_front 0 (drop (length ds - n) zs)) front
    ∙ ap (skip_front 0)
        (drop-append_of_length _ (replicate (length ds - n) 0) ys (length-replicate _ 0))
    ∙ sym (skip_front-replicate (length ds - n) ys)
    ∙ ap (skip_front 0) (sym front)
    ∙ skip_front-reverse ds

pub Leads-skip_front : (xs : List ℕ) → Leads (skip_front 0 xs)
unfolding skip_front
Leads-skip_front [] = tt
Leads-skip_front (x ∷ xs) = elim (Bool-cases (x == 0)) [
  | inl e ↦ rw e (Leads-skip_front xs)
  | inr e ↦ rw e (ground arith)
]

pub digits_of-Leads : (r : List ℕ × ℕ) → Leads (digits_of r)
unfolding digits_of
digits_of-Leads (ds, n) = Leads-skip_front (drop (length ds - n) (reverse ds))

pub digits_of-Below :
    (b : ℕ) (ds : List ℕ) (n : ℕ) → EndsAt n ds → Below b ds → Below b (digits_of (ds, n))
digits_of-Below b ds n ends h =
    subst (Below b) (sym (digits_of-strip ds n ends))
      (Below-reverse b (strip ds) (strip-Below b ds h))

pub horner-digits_of :
    (b : ℕ) (ds : List ℕ) (n : ℕ) → EndsAt n ds → horner b 0 (digits_of (ds, n)) ≡ value b ds
horner-digits_of b ds n ends =
    ap (horner b 0) (digits_of-strip ds n ends) ∙ horner-reverse b (strip ds) ∙ strip-value b ds

-- A list with no zero in front is what `digits_of` gives for its number.
pub digits_of-horner :
    (b : ℕ) (ds : List ℕ) (n : ℕ) (xs : List ℕ)
    → 0 < b
    → EndsAt n ds
    → Below b ds
    → Below b xs
    → Leads xs
    → value b ds ≡ horner b 0 xs
    → digits_of (ds, n) ≡ xs
digits_of-horner b ds n xs pos ends bd bx lead e =
    let same : strip ds ≡ reverse xs =
      same_digits b (strip ds) (reverse xs) pos (strip-Normal ds) (Leads-reverse xs lead)
        (strip-Below b ds bd) (Below-reverse b xs bx)
        (strip-value b ds
          ∙ e
          ∙ sym (ap (horner b 0) (reverse-reverse xs))
          ∙ horner-reverse b (reverse xs)) in
    digits_of-strip ds n ends ∙ ap reverse same ∙ reverse-reverse xs
