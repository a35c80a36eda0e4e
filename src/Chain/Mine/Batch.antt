-- ===== src/Chain/Mine/Batch.antt =====
-- The batch that `processBlock` of src/MCP/MCP02/Mine.cpp writes: what it spends and what it creates.
use mathlib.Core.List.{append-nil}
use metachain.Base.{ℕ, ◌+◌, ◌%◌, ◌^◌, ◌<◌, ◌≡◌, refl, ap, ◌∙◌, List, [], ◌∷◌, ◌++◌, arith}
use metachain.Chain.Block.{TxIn, TxOut, Tx, sum_outs}
use metachain.Chain.Mine.{
  delete_ins, add_outs, write_accounts, accounts_of, update_accounts, Ident, Accounts, Database,
  Statement, add_spent, delete_spent, add_value, add_account,
}
use metachain.Chain.Mine.Inputs.{idents, total}

-- The outputs whose entry ".spent" is deleted.
abbrev pub spends : List Statement → List Ident
spends [] = []
spends (add_spent i ∷ ss) = spends ss
spends (delete_spent i ∷ ss) = i ∷ spends ss
spends (add_value i v ∷ ss) = spends ss
spends (add_account k a ∷ ss) = spends ss

-- The sum of the values that are written.
abbrev pub created : List Statement → ℕ
created [] = 0
created (add_spent i ∷ ss) = created ss
created (delete_spent i ∷ ss) = created ss
created (add_value i v ∷ ss) = v + created ss
created (add_account k a ∷ ss) = created ss

-- The sum of the outputs, as a number without bound.
abbrev pub value_out : List TxOut → ℕ
value_out [] = 0
value_out (o ∷ os) = o.value + value_out os

pub spends-append : (a b : List Statement) → spends (a ++ b) ≡ spends a ++ spends b
spends-append [] b = refl
spends-append (add_spent i ∷ a) b = spends-append a b
spends-append (delete_spent i ∷ a) b = ap (λ is. i ∷ is) (spends-append a b)
spends-append (add_value i v ∷ a) b = spends-append a b
spends-append (add_account k m ∷ a) b = spends-append a b

pub created-append : (a b : List Statement) → created (a ++ b) ≡ created a + created b
created-append [] b = omega arith
created-append (add_spent i ∷ a) b = created-append a b
created-append (delete_spent i ∷ a) b = created-append a b
created-append (add_value i v ∷ a) b = omega (arith, created-append a b)
created-append (add_account k m ∷ a) b = created-append a b

pub total-append : (db : Database) (a b : List Ident) → total db (a ++ b) ≡ total db a + total db b
total-append db [] b = omega arith
total-append db (i ∷ a) b = omega (arith, total-append db a b)

-- The parts of a transaction's statements.
spends-delete_ins : (pos : ℕ) (ins : List TxIn) → spends (delete_ins pos ins) ≡ idents pos ins
unfolding delete_ins
spends-delete_ins pos [] = refl
spends-delete_ins pos (i ∷ ins) =
    ap (λ is. (i.prev.hash, pos) ∷ is) (spends-delete_ins (pos + 1) ins)

created-delete_ins : (pos : ℕ) (ins : List TxIn) → created (delete_ins pos ins) ≡ 0
unfolding delete_ins
created-delete_ins pos [] = refl
created-delete_ins pos (i ∷ ins) = created-delete_ins (pos + 1) ins

spends-add_outs : (hash pos : ℕ) (outs : List TxOut) → spends (add_outs hash pos outs) ≡ []
unfolding add_outs
spends-add_outs hash pos [] = refl
spends-add_outs hash pos (o ∷ outs) = spends-add_outs hash (pos + 1) outs

created-add_outs :
    (hash pos : ℕ) (outs : List TxOut) → created (add_outs hash pos outs) ≡ value_out outs
unfolding add_outs
created-add_outs hash pos [] = refl
created-add_outs hash pos (o ∷ outs) = ap (λ n. o.value + n) (created-add_outs hash (pos + 1) outs)

spends-write_accounts : (m : Accounts) → spends (write_accounts m) ≡ []
unfolding write_accounts
spends-write_accounts [] = refl
spends-write_accounts ((k, a) ∷ m) = spends-write_accounts m

created-write_accounts : (m : Accounts) → created (write_accounts m) ≡ 0
unfolding write_accounts
created-write_accounts [] = refl
created-write_accounts ((k, a) ∷ m) = created-write_accounts m

-- Steps 4 and 5 create the outputs, and spend nothing.
abbrev pub out_statements : Database → Tx → List Statement
out_statements db tx = add_outs tx.hash 0 tx.outs ++ update_accounts db tx

pub spends-out_statements : (db : Database) (tx : Tx) → spends (out_statements db tx) ≡ []
unfolding update_accounts
spends-out_statements db tx =
    spends-append (add_outs tx.hash 0 tx.outs) (update_accounts db tx)
    ∙ rw (spends-add_outs tx.hash 0 tx.outs) (spends-write_accounts (accounts_of db tx))

pub created-out_statements :
    (db : Database) (tx : Tx) → created (out_statements db tx) ≡ value_out tx.outs
unfolding update_accounts
created-out_statements db tx = omega (
  arith,
  created-append (add_outs tx.hash 0 tx.outs) (update_accounts db tx),
  created-add_outs tx.hash 0 tx.outs,
  created-write_accounts (accounts_of db tx),
)

-- Step 3 spends the inputs, and creates nothing.
pub spends-spend :
    (db : Database) (tx : Tx)
    → spends (delete_ins 0 tx.ins ++ out_statements db tx) ≡ idents 0 tx.ins
spends-spend db tx =
    spends-append (delete_ins 0 tx.ins) (out_statements db tx)
    ∙ rw (spends-delete_ins 0 tx.ins, spends-out_statements db tx) (append-nil (idents 0 tx.ins))

pub created-spend :
    (db : Database) (tx : Tx)
    → created (delete_ins 0 tx.ins ++ out_statements db tx) ≡ value_out tx.outs
created-spend db tx = omega (
  arith,
  created-append (delete_ins 0 tx.ins) (out_statements db tx),
  created-delete_ins 0 tx.ins,
  created-out_statements db tx,
)

-- What the uint64_t sum is worth.
pub sum_outs-value_out :
    (acc : ℕ) (outs : List TxOut)
    → acc + value_out outs < 2 ^ 64
    → sum_outs acc outs ≡ acc + value_out outs
sum_outs-value_out acc [] h = omega arith
sum_outs-value_out acc (o ∷ outs) h =
    let e : (acc + o.value) % 2 ^ 64 ≡ acc + o.value = omega (arith, h) in
    rw e (sum_outs-value_out (acc + o.value) outs (omega (arith, h)) ∙ omega arith)
