-- ===== src/Registry/Distinct.antt =====
-- Chains with distinct names and numbers (src/MCP/MCP02/SubChainManager.cpp).
use metachain.Base.{
  ltb, ◌==◌, list_eq, list_eq_sym, list_eq_sound, ℕ, ◌+◌, ◌<◌, ◌≤◌, ◌≡◌, refl, ap, sym, ◌∙◌, subst,
  inl, inr, Bool-cases, Bool, true, false, ◌||◌, List, [], ◌∷◌, ◌++◌, arith,
}
use metachain.Registry.{SubChain, name_of, Chains, insert}

-- Some chain has this name, and some key is this number.
abbrev pub is_named : List ℕ → Chains → Bool
is_named name [] = false
is_named name ((k, c) ∷ m) = list_eq (name_of c.arrays) name || is_named name m

abbrev pub is_key : ℕ → Chains → Bool
is_key k [] = false
is_key k ((j, c) ∷ m) = k == j || is_key k m

-- Each key is its chain's identifier and less than `bound`, and no key and no name comes twice.
abbrev pub IsRegistry : (bound : ℕ) → Chains → Type 0
IsRegistry bound [] = Unit {0}
IsRegistry bound ((k, c) ∷ m) =
    (c.identifier ≡ k)
    × ((k < bound)
        × ((is_key k m ≡ false) × ((is_named (name_of c.arrays) m ≡ false) × IsRegistry bound m)))

pub IsRegistry-weaken : (b b' : ℕ) (m : Chains) → b ≤ b' → IsRegistry b m → IsRegistry b' m
IsRegistry-weaken b b' [] le h = tt
IsRegistry-weaken b b' ((k, c) ∷ m) le (hi, (hb, (hk, (hn, hs)))) =
    (hi, (omega (arith, hb, le), (hk, (hn, IsRegistry-weaken b b' m le hs))))

is_key-append :
    (j k : ℕ) (c : SubChain) (m : Chains) → is_key j (m ++ ((k, c) ∷ [])) ≡ (is_key j m || j == k)
is_key-append j k c [] = ground arith
is_key-append j k c ((i, d) ∷ m) = ground (arith, is_key-append j k c m)

is_named-append :
    (name : List ℕ) (k : ℕ) (c : SubChain) (m : Chains)
    → is_named name (m ++ ((k, c) ∷ [])) ≡ (is_named name m || list_eq (name_of c.arrays) name)
is_named-append name k c [] = ground arith
is_named-append name k c ((i, d) ∷ m) = ground (arith, is_named-append name k c m)

pub left_false : (a b : Bool) → (a || b) ≡ false → a ≡ false
left_false a b h = ground arith

pub right_false : (a b : Bool) → (a || b) ≡ false → b ≡ false
right_false a b h = ground arith

pub both_false : (a b : Bool) → a ≡ false → b ≡ false → (a || b) ≡ false
both_false a b h k = ground arith

clash : (a : Bool) → a ≡ false → a ≡ true → ⊥
clash a h k = ground arith

pub other_true : (a b : Bool) → a ≡ false → (a || b) ≡ true → b ≡ true
other_true a b h k = ground arith

pub either_true : (a b : Bool) → b ≡ true → (a || b) ≡ true
either_true a b h = ground arith

-- A name that is used differs from one that is not.
pub unlike :
    (xs ys : List ℕ) (m : Chains)
    → is_named xs m ≡ false
    → is_named ys m ≡ true
    → list_eq xs ys ≡ false
unlike xs ys m h k = elim (Bool-cases (list_eq xs ys)) [
  | inl same ↦ absurd (
      clash (is_named xs m) h (subst (λ n. is_named n m ≡ true) (sym (list_eq_sound xs ys same)) k))
  | inr differs ↦ differs
]

pub IsRegistry-append :
    (k : ℕ) (c : SubChain) (m : Chains)
    → c.identifier ≡ k
    → is_named (name_of c.arrays) m ≡ false
    → IsRegistry k m
    → IsRegistry (k + 1) (m ++ ((k, c) ∷ []))
IsRegistry-append k c [] e n h = (e, (omega arith, (refl, (refl, tt))))
IsRegistry-append k c ((j, d) ∷ m) e n (hi, (hb, (hk, (hn, hs)))) =
    let other : (j == k) ≡ false = ground arith in
    let differs = list_eq_sym (name_of c.arrays) (name_of d.arrays) ∙ left_false _ _ n in
    (
      hi,
      (
        omega (arith, hb),
        (
          is_key-append j k c m ∙ both_false _ _ hk other,
          (
            is_named-append (name_of d.arrays) k c m ∙ both_false _ _ hn differs,
            IsRegistry-append k c m e (right_false _ _ n) hs,
          ),
        ),
      ),
    )

-- A number that is not below the bound is put behind all.
pub insert-append :
    (k : ℕ) (c : SubChain) (m : Chains) → IsRegistry k m → insert k c m ≡ m ++ ((k, c) ∷ [])
unfolding insert
insert-append k c [] h = refl
insert-append k c ((j, d) ∷ m) (hi, (hb, (hk, (hn, hs)))) =
    let other : (k == j) ≡ false = ground arith in
    let not_less : ltb k j ≡ false = ground arith in
    rw (other, not_less) (ap (λ t. (j, d) ∷ t) (insert-append k c m hs))
