-- ===== src/Text/Base58/Letters.antt =====
-- The letters of base58 texts (src/MCP/MCP01/base58.cpp).
use mathlib.Core.List.{reverse, reverse-cons, reverse-reverse}
use metachain.Base.{
  all_below, all_below_at, ◌==◌, leb, not, ◌&&◌, ◌||◌, All-append, length, get_or, replicate, All,
  ℕ, zero, suc, ◌<◌, ◌≡◌, refl, ap, sym, ◌∙◌, subst, Bool, true, false, none, some, List, [], ◌∷◌,
  ◌++◌, map, arith,
}
use metachain.Text.Hex.{is_space}
use metachain.Text.Base58.{alphabet, skip_front, find_from, values, trim_left, trim}
use metachain.Text.Base58.Digits.{Below}
use metachain.Text.Base58.Unique.{Leads}

-- Each of the alphabet's characters is found where it stands, is no space, and is "1" only for 0.
abbrev pub letter : ℕ → ℕ
letter v = get_or alphabet v 0

found : ℕ → Bool
found v = elim (find_from 0 (letter v) alphabet) [
  | none ↦ false
  | some w ↦ (w == v) && not (is_space (letter v)) && (leb v 0 || not (letter v == 49))
]

letters : all_below found 58 ≡ true
unfolding all_below found find_from is_space
letters = refl

letter_tests :
    (v : ℕ)
    → found v ≡ true
    → (find_from 0 (letter v) alphabet ≡ some v)
      × (is_space (letter v) ≡ false)
      × (0 < v → (letter v == 49) ≡ false)
unfolding found
letter_tests v t = (ground arith, ground arith, λ p. ground arith)

pub letter_facts :
    (v : ℕ)
    → v < 58
    → (find_from 0 (letter v) alphabet ≡ some v)
      × (is_space (letter v) ≡ false)
      × (0 < v → (letter v == 49) ≡ false)
letter_facts v h = letter_tests v (all_below_at found 58 v h letters)

values_next :
    (c v : ℕ) (cs vs : List ℕ)
    → find_from 0 c alphabet ≡ some v
    → values cs ≡ some vs
    → values (c ∷ cs) ≡ some (v ∷ vs)
unfolding values
values_next c v cs vs h k = rw (h, k, values) refl

pub values-letters : (ds : List ℕ) → Below 58 ds → values (map letter ds) ≡ some ds
unfolding values
values-letters [] h = refl
values-letters (d ∷ ds) h =
    values_next (letter d) d (map letter ds) ds (letter_facts d h.0).0 (values-letters ds h.1)

abbrev pub NoSpaces : List ℕ → Type 0
NoSpaces = All (λ c. is_space c ≡ false)

trim_left-NoSpaces : (cs : List ℕ) → NoSpaces cs → trim_left cs ≡ cs
unfolding trim_left
trim_left-NoSpaces [] h = refl
trim_left-NoSpaces (c ∷ cs) h = rw h.0 refl

NoSpaces-reverse : (cs : List ℕ) → NoSpaces cs → NoSpaces (reverse cs)
NoSpaces-reverse [] h = tt
NoSpaces-reverse (c ∷ cs) h =
    subst NoSpaces (sym (reverse-cons c cs)) (
      All-append (λ x. is_space x ≡ false) (reverse cs) (c ∷ []) (NoSpaces-reverse cs h.1)
        (h.0, tt))

pub trim-NoSpaces : (cs : List ℕ) → NoSpaces cs → trim cs ≡ cs
unfolding trim
trim-NoSpaces cs h =
    ap (λ xs. reverse (trim_left (reverse xs))) (trim_left-NoSpaces cs h)
    ∙ ap reverse (trim_left-NoSpaces (reverse cs) (NoSpaces-reverse cs h))
    ∙ reverse-reverse cs

pub letters-NoSpaces :
    (z : ℕ) (ds : List ℕ) → Below 58 ds → NoSpaces (replicate z 49 ++ map letter ds)
letters-NoSpaces zero [] h = tt
letters-NoSpaces zero (d ∷ ds) h = ((letter_facts d h.0).1, letters-NoSpaces zero ds h.1)
letters-NoSpaces (suc z) ds h = (unfold is_space in refl, letters-NoSpaces z ds h)

pub skip_front-letters :
    (z : ℕ) (ds : List ℕ)
    → Below 58 ds
    → Leads ds
    → skip_front 49 (replicate z 49 ++ map letter ds) ≡ map letter ds
unfolding skip_front
skip_front-letters zero [] h lead = refl
skip_front-letters zero (d ∷ ds) h lead = rw ((letter_facts d h.0).2 lead) refl
skip_front-letters (suc z) ds h lead = skip_front-letters z ds h lead

pub length-letters : (ds : List ℕ) → length (map letter ds) ≡ length ds
length-letters [] = refl
length-letters (d ∷ ds) = ap suc (length-letters ds)
