-- ===== src/Chain/Mine/Idents.antt =====
-- Sets of outputs, as `usetSpendings` of src/MCP/MCP02/Mine.cpp has them.
use metachain.Base.{
  Bool-cases, All, ◌≡◌, refl, ◌∙◌, subst, true, false, ◌||◌, List, [], ◌∷◌, ◌++◌, arith, inl, inr,
}
use metachain.Chain.Mine.{ident_eq, mem_ident, Ident}

-- No element stands twice.
abbrev pub Distinct : List Ident → Type 0
Distinct [] = Unit
Distinct (i ∷ is) = (mem_ident i is ≡ false) × Distinct is

abbrev pub In : List Ident → Ident → Type 0
In used i = mem_ident i used ≡ true

abbrev pub NotIn : List Ident → Ident → Type 0
NotIn used i = mem_ident i used ≡ false

ident_eq_sound : (i j : Ident) → ident_eq i j ≡ true → i ≡ j
ident_eq_sound (a, b) (c, d) h = ground arith

ident_eq_refl : (i : Ident) → ident_eq i i ≡ true
ident_eq_refl (a, b) = ground arith

ident_eq_sym : (i j : Ident) → ident_eq i j ≡ ident_eq j i
ident_eq_sym (a, b) (c, d) = ground arith

-- What is in a set differs from what is not.
pub apart : (used : List Ident) (i j : Ident) → In used i → NotIn used j → ident_eq i j ≡ false
apart used i j h k = elim (Bool-cases (ident_eq i j)) [
  | inl e ↦ let same = ident_eq_sound i j e in let t = subst (λ x. In used x) same h in cc (t, k)
  | inr e ↦ e
]

pub NotIn-All :
    (used : List Ident) (i : Ident) (js : List Ident) → In used i → All (NotIn used) js → NotIn js i
NotIn-All used i [] h k = refl
NotIn-All used i (j ∷ js) h k = rw (apart used i j h k.0) (NotIn-All used i js h k.1)

mem_ident-append :
    (i : Ident) (is js : List Ident) → mem_ident i (is ++ js) ≡ (mem_ident i is || mem_ident i js)
mem_ident-append i [] js = refl
mem_ident-append i (j ∷ is) js = ground (arith, mem_ident-append i is js)

pub Distinct-append :
    (used is js : List Ident)
    → Distinct is
    → Distinct js
    → All (In used) is
    → All (NotIn used) js
    → Distinct (is ++ js)
Distinct-append used [] js di dj hi hj = dj
Distinct-append used (i ∷ is) js di dj hi hj = (
  mem_ident-append i is js ∙ rw (di.0, NotIn-All used i js hi.0 hj) refl,
  Distinct-append used is js di.1 dj hi.1 hj,
)

-- A set with one more element.
pub In-cons : (i j : Ident) (used : List Ident) → In used j → In (i ∷ used) j
In-cons i j used h = ground arith

pub In-head : (i : Ident) (used : List Ident) → In (i ∷ used) i
In-head i used = rw (ident_eq_refl i) refl

pub NotIn-tail : (i j : Ident) (used : List Ident) → NotIn (i ∷ used) j → NotIn used j
NotIn-tail i j used h = ground arith

pub All-map {κ λ'} :
    {P : Ident → Type κ} {Q : Ident → Type λ'} (is : List Ident)
    → ((i : Ident) → P i → Q i)
    → All P is
    → All Q is
All-map [] f h = tt
All-map (i ∷ is) f h = (f i h.0, All-map is f h.1)
