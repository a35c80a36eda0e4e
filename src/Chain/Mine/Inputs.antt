-- ===== src/Chain/Mine/Inputs.antt =====
-- The inputs that step 1 of `processBlock` (src/MCP/MCP02/Mine.cpp) lets pass.
use metachain.Base.{
  Bool-cases, Option-cases, All, ℕ, ◌+◌, ◌%◌, ◌^◌, ◌<◌, ◌≡◌, ap, ◌∙◌, false, Option, none, some,
  List, [], ◌∷◌, arith, inl, inr,
}
use metachain.Chain.Block.{TxIn}
use metachain.Chain.Mine.{
  get_spent, get_value, mem_ident, check_ins, Ident, Database, Incoming, funded, dismissed, raised,
}
use metachain.Chain.Mine.Idents.{
  Distinct, In, NotIn, NotIn-All, In-cons, In-head, NotIn-tail, All-map,
}

-- The outputs that inputs name: the hash of each, and its place among the inputs.
abbrev pub idents : ℕ → List TxIn → List Ident
idents pos [] = []
idents pos (i ∷ is) = (i.prev.hash, pos) ∷ idents (pos + 1) is

abbrev pub or_zero : Option ℕ → ℕ
or_zero none = 0
or_zero (some v) = v

abbrev pub coin : Database → Ident → ℕ
coin db i = or_zero (get_value db i)

abbrev pub total : Database → List Ident → ℕ
total db [] = 0
total db (i ∷ is) = coin db i + total db is

-- Outputs that are unspent, not yet used in the block, distinct, and used from then on.
pub record Taken (db : Database) (used : List Ident) (sum : ℕ) (is : List Ident)
    (used' : List Ident) (sum' : ℕ) : Type 0 where
  pub unspent : All (λ i. get_spent db i ≡ false) is
  pub fresh : All (NotIn used) is
  pub distinct : Distinct is
  pub marked : All (In used') is
  pub kept : (i : Ident) → In used i → In used' i
  pub worth : sum' ≡ (sum + total db is) % 2 ^ 64

-- What step 1 comes to with the inputs that name the outputs `is`.
abbrev pub Passes : Database → List Ident → ℕ → List Ident → Incoming → Type 0
Passes db used sum is (funded used' sum') = Taken db used sum is used' sum'
Passes db used sum is (dismissed used') = (i : Ident) → In used i → In used' i
Passes db used sum is raised = Unit

Taken-cons :
    (db : Database) (used : List Ident) (sum v : ℕ) (i : Ident) (is used' : List Ident) (sum' : ℕ)
    → mem_ident i used ≡ false
    → get_spent db i ≡ false
    → get_value db i ≡ some v
    → Taken db (i ∷ used) ((sum + v) % 2 ^ 64) is used' sum'
    → Taken db used sum (i ∷ is) used' sum'
Taken-cons db used sum v i is used' sum' new unspent worth t = record {
  unspent = (unspent, t.unspent);
  fresh = (new, All-map is (λ j. NotIn-tail i j used) t.fresh);
  distinct = (NotIn-All (i ∷ used) i is (In-head i used) t.fresh, t.distinct);
  marked = (t.kept i (In-head i used), t.marked);
  kept = λ j h. t.kept j (In-cons i j used h);
  worth = t.worth ∙ omega (arith, ap or_zero worth);
}

Passes-cons :
    (db : Database) (used : List Ident) (sum v : ℕ) (i : Ident) (is : List Ident) (r : Incoming)
    → mem_ident i used ≡ false
    → get_spent db i ≡ false
    → get_value db i ≡ some v
    → Passes db (i ∷ used) ((sum + v) % 2 ^ 64) is r
    → Passes db used sum (i ∷ is) r
Passes-cons db used sum v i is (funded used' sum') new unspent worth t =
    Taken-cons db used sum v i is used' sum' new unspent worth t
Passes-cons db used sum v i is (dismissed used') new unspent worth t =
    λ j h. t j (In-cons i j used h)
Passes-cons db used sum v i is raised new unspent worth t = tt

pub check_ins-Passes :
    (db : Database) (used : List Ident) (sum pos : ℕ) (ins : List TxIn)
    → sum < 2 ^ 64
    → Passes db used sum (idents pos ins) (check_ins db used sum pos ins)
unfolding check_ins
check_ins-Passes db used sum pos [] h = record {
  unspent = tt;
  fresh = tt;
  distinct = tt;
  marked = tt;
  kept = λ i k. k;
  worth = omega arith;
}
check_ins-Passes db used sum pos (i ∷ ins) h =
    let ident : Ident = (i.prev.hash, pos) in
    elim (Bool-cases (mem_ident ident used)) [
      | inl old ↦ rw (old, check_ins) (λ j k. k)
      | inr new ↦ elim (Bool-cases (get_spent db ident)) [
        | inl gone ↦ rw (new, gone, check_ins) (λ j k. In-cons ident j used k)
        | inr there ↦ elim (Option-cases (get_value db ident)) [
          | inl no_number ↦ rw (new, there, no_number, check_ins) tt
          | inr (v, worth) ↦
              rw (new, there, worth, check_ins)
                (Passes-cons db used sum v ident (idents (pos + 1) ins)
                  (check_ins db (ident ∷ used) ((sum + v) % 2 ^ 64) (pos + 1) ins) new there worth
                  (check_ins-Passes db (ident ∷ used) ((sum + v) % 2 ^ 64) (pos + 1) ins
                    (omega arith)))
        ]
      ]
    ]
