-- ===== src/Chain/Mine/Entries.antt =====
-- The entries ".spent" and ".val" after transactions that `processBlock` (src/MCP/MCP02/Mine.cpp) applies.
use metachain.Base.{
  ◌==◌, if◌then◌else◌, Bool-cases, ℕ, ◌+◌, ◌<◌, ◌≡◌, refl, ap, ◌∙◌, Bool, true, false, ◌||◌, Option,
  none, some, List, [], ◌∷◌, ◌++◌, arith, inl, inr,
}
use metachain.Chain.Block.{TxIn, TxOut, Tx, is_coinbase}
use metachain.Chain.Mine.{
  ident_eq, mem_ident, apply, apply_all, delete_ins, add_outs, write_accounts, accounts_of,
  update_accounts, Ident, Database, Accounts, Statement, add_spent, delete_spent, add_value,
  add_account,
}
use metachain.Chain.Mine.Inputs.{idents}
use metachain.Chain.Mine.Batch.{
  spends, created, value_out, spends-append, created-append, out_statements, spends-out_statements,
  created-out_statements, spends-spend, created-spend,
}

-- The value of the output at place `q`, of outputs that count from `pos` on.
abbrev pub output : ℕ → List TxOut → ℕ → Option ℕ
output pos [] q = none
output pos (o ∷ os) q = let rest = output (pos + 1) os q in if q == pos then some o.value else rest

abbrev pub output_of : Tx → Ident → Option ℕ
output_of tx i = if i.0 == tx.hash then output 0 tx.outs i.1 else none

-- The outputs that a transaction spends: none for a coinbase transaction.
abbrev pub inputs_of : Tx → List Ident
inputs_of tx = if is_coinbase tx then [] else idents 0 tx.ins

abbrev pub put_spent : Option ℕ → Bool → Option Bool → Option Bool
put_spent (some v) used e = some false
put_spent none used e = if used then none else e

abbrev pub put_value : Option ℕ → Option ℕ → Option ℕ
put_value (some v) e = some v
put_value none e = e

-- The entry ".spent" of `i` after transactions: an output of one is unspent, what one spends has no
-- entry.
abbrev pub spent_entry : Option Bool → List Tx → Ident → Option Bool
spent_entry e [] i = e
spent_entry e (tx ∷ txs) i =
    spent_entry (put_spent (output_of tx i) (mem_ident i (inputs_of tx)) e) txs i

-- The entry ".val".
abbrev pub value_entry : Option ℕ → List Tx → Ident → Option ℕ
value_entry e [] i = e
value_entry e (tx ∷ txs) i = value_entry (put_value (output_of tx i) e) txs i

-- What the transactions spend, and the value of their outputs.
abbrev pub spent_by : List Tx → List Ident
spent_by [] = []
spent_by (tx ∷ txs) = inputs_of tx ++ spent_by txs

abbrev pub paid_by : List Tx → ℕ
paid_by [] = 0
paid_by (tx ∷ txs) = value_out tx.outs + paid_by txs

-- The statements of a transaction, and of some.
abbrev pub statements : Database → Tx → List Statement
statements db tx =
    if is_coinbase tx then out_statements db tx else delete_ins 0 tx.ins ++ out_statements db tx

abbrev pub batch_of : Database → List Tx → List Statement
batch_of db [] = []
batch_of db (tx ∷ txs) = statements db tx ++ batch_of db txs

apply_all-append :
    (d : Database) (a b : List Statement) → apply_all d (a ++ b) ≡ apply_all (apply_all d a) b
apply_all-append d [] b = refl
apply_all-append d (s ∷ a) b = apply_all-append (apply d s) a b

delete_ins-spent :
    (d : Database) (pos : ℕ) (ins : List TxIn) (i : Ident)
    → (apply_all d (delete_ins pos ins)).spent i
      ≡ (if mem_ident i (idents pos ins) then none else d.spent i)
unfolding delete_ins
delete_ins-spent d pos [] i = refl
delete_ins-spent d pos (x ∷ ins) i =
    delete_ins-spent (apply d (delete_spent (x.prev.hash, pos))) (pos + 1) ins i
    ∙ choose (ident_eq i (x.prev.hash, pos)) (mem_ident i (idents (pos + 1) ins)) (d.spent i)
  where
    choose :
        (b c : Bool) (e : Option Bool)
        → (if c then none else if b then none else e) ≡ (if b || c then none else e)
    choose true true e = refl
    choose true false e = refl
    choose false true e = refl
    choose false false e = refl

delete_ins-value :
    (d : Database) (pos : ℕ) (ins : List TxIn) → (apply_all d (delete_ins pos ins)).value ≡ d.value
unfolding delete_ins
delete_ins-value d pos [] = refl
delete_ins-value d pos (x ∷ ins) =
    delete_ins-value (apply d (delete_spent (x.prev.hash, pos))) (pos + 1) ins

write_accounts-spent :
    (d : Database) (m : Accounts) → (apply_all d (write_accounts m)).spent ≡ d.spent
unfolding write_accounts
write_accounts-spent d [] = refl
write_accounts-spent d ((k, a) ∷ m) = write_accounts-spent (apply d (add_account k a)) m

write_accounts-value :
    (d : Database) (m : Accounts) → (apply_all d (write_accounts m)).value ≡ d.value
unfolding write_accounts
write_accounts-value d [] = refl
write_accounts-value d ((k, a) ∷ m) = write_accounts-value (apply d (add_account k a)) m

-- Outputs of the transaction `hash`.
abbrev here : ℕ → ℕ → List TxOut → Ident → Option ℕ
here hash pos outs i = if i.0 == hash then output pos outs i.1 else none

output_before : (pos q : ℕ) (outs : List TxOut) → q < pos → output pos outs q ≡ none
output_before pos q [] h = refl
output_before pos q (o ∷ outs) h =
    let e : (q == pos) ≡ false = ground arith in
    rw e (output_before (pos + 1) q outs (omega (arith, h)))

output_at : (pos q : ℕ) (outs : List TxOut) → (q == pos) ≡ true → output (pos + 1) outs q ≡ none
output_at pos q outs h = output_before (pos + 1) q outs (ground arith)

add_outs-spent :
    (d : Database) (hash pos : ℕ) (outs : List TxOut) (i : Ident)
    → (apply_all d (add_outs hash pos outs)).spent i
      ≡ put_spent (here hash pos outs i) false (d.spent i)
unfolding add_outs
add_outs-spent d hash pos [] (h, q) = ground arith
add_outs-spent d hash pos (o ∷ outs) (h, q) =
    add_outs-spent (apply (apply d (add_spent (hash, pos))) (add_value (hash, pos) o.value)) hash
      (pos + 1) outs (h, q)
    ∙ ground (arith, output_at pos q outs)

add_outs-value :
    (d : Database) (hash pos : ℕ) (outs : List TxOut) (i : Ident)
    → (apply_all d (add_outs hash pos outs)).value i ≡ put_value (here hash pos outs i) (d.value i)
unfolding add_outs
add_outs-value d hash pos [] (h, q) = ground arith
add_outs-value d hash pos (o ∷ outs) (h, q) =
    add_outs-value (apply (apply d (add_spent (hash, pos))) (add_value (hash, pos) o.value)) hash
      (pos + 1) outs (h, q)
    ∙ ground (arith, output_at pos q outs)

out_statements-spent :
    (db d : Database) (tx : Tx) (i : Ident)
    → (apply_all d (out_statements db tx)).spent i ≡ put_spent (output_of tx i) false (d.spent i)
unfolding update_accounts
out_statements-spent db d tx i =
    ap (λ d'. d'.spent i) (apply_all-append d (add_outs tx.hash 0 tx.outs) (update_accounts db tx))
    ∙ (ap (λ f. f i)
          (write_accounts-spent (apply_all d (add_outs tx.hash 0 tx.outs)) (accounts_of db tx))
        ∙ add_outs-spent d tx.hash 0 tx.outs i)

out_statements-value :
    (db d : Database) (tx : Tx) (i : Ident)
    → (apply_all d (out_statements db tx)).value i ≡ put_value (output_of tx i) (d.value i)
unfolding update_accounts
out_statements-value db d tx i =
    ap (λ d'. d'.value i) (apply_all-append d (add_outs tx.hash 0 tx.outs) (update_accounts db tx))
    ∙ (ap (λ f. f i)
          (write_accounts-value (apply_all d (add_outs tx.hash 0 tx.outs)) (accounts_of db tx))
        ∙ add_outs-value d tx.hash 0 tx.outs i)

put_spent-if :
    (o : Option ℕ) (b : Bool) (e : Option Bool)
    → put_spent o false (if b then none else e) ≡ put_spent o b e
put_spent-if (some v) b e = refl
put_spent-if none b e = refl

statements-spent :
    (db d : Database) (tx : Tx) (i : Ident)
    → (apply_all d (statements db tx)).spent i
      ≡ put_spent (output_of tx i) (mem_ident i (inputs_of tx)) (d.spent i)
statements-spent db d tx i = elim (Bool-cases (is_coinbase tx)) [
  | inl e ↦ rw e (out_statements-spent db d tx i)
  | inr e ↦ rw e (
      ap (λ d'. d'.spent i) (apply_all-append d (delete_ins 0 tx.ins) (out_statements db tx))
      ∙ (out_statements-spent db (apply_all d (delete_ins 0 tx.ins)) tx i
          ∙ (ap (put_spent (output_of tx i) false) (delete_ins-spent d 0 tx.ins i)
              ∙ put_spent-if (output_of tx i) (mem_ident i (idents 0 tx.ins)) (d.spent i))))
]

statements-value :
    (db d : Database) (tx : Tx) (i : Ident)
    → (apply_all d (statements db tx)).value i ≡ put_value (output_of tx i) (d.value i)
statements-value db d tx i = elim (Bool-cases (is_coinbase tx)) [
  | inl e ↦ rw e (out_statements-value db d tx i)
  | inr e ↦ rw e (
      ap (λ d'. d'.value i) (apply_all-append d (delete_ins 0 tx.ins) (out_statements db tx))
      ∙ (out_statements-value db (apply_all d (delete_ins 0 tx.ins)) tx i
          ∙ ap (λ f. put_value (output_of tx i) (f i)) (delete_ins-value d 0 tx.ins)))
]

pub batch_of-spent :
    (db d : Database) (txs : List Tx) (i : Ident)
    → (apply_all d (batch_of db txs)).spent i ≡ spent_entry (d.spent i) txs i
batch_of-spent db d [] i = refl
batch_of-spent db d (tx ∷ txs) i =
    ap (λ d'. d'.spent i) (apply_all-append d (statements db tx) (batch_of db txs))
    ∙ (batch_of-spent db (apply_all d (statements db tx)) txs i
        ∙ ap (λ e. spent_entry e txs i) (statements-spent db d tx i))

pub batch_of-value :
    (db d : Database) (txs : List Tx) (i : Ident)
    → (apply_all d (batch_of db txs)).value i ≡ value_entry (d.value i) txs i
batch_of-value db d [] i = refl
batch_of-value db d (tx ∷ txs) i =
    ap (λ d'. d'.value i) (apply_all-append d (statements db tx) (batch_of db txs))
    ∙ (batch_of-value db (apply_all d (statements db tx)) txs i
        ∙ ap (λ e. value_entry e txs i) (statements-value db d tx i))

statements-spends : (db : Database) (tx : Tx) → spends (statements db tx) ≡ inputs_of tx
statements-spends db tx = elim (Bool-cases (is_coinbase tx)) [
  | inl e ↦ rw e (spends-out_statements db tx)
  | inr e ↦ rw e (spends-spend db tx)
]

statements-created : (db : Database) (tx : Tx) → created (statements db tx) ≡ value_out tx.outs
statements-created db tx = elim (Bool-cases (is_coinbase tx)) [
  | inl e ↦ rw e (created-out_statements db tx)
  | inr e ↦ rw e (created-spend db tx)
]

pub spends-batch_of : (db : Database) (txs : List Tx) → spends (batch_of db txs) ≡ spent_by txs
spends-batch_of db [] = refl
spends-batch_of db (tx ∷ txs) =
    spends-append (statements db tx) (batch_of db txs)
    ∙ (ap (λ is. is ++ spends (batch_of db txs)) (statements-spends db tx)
        ∙ ap (λ is. inputs_of tx ++ is) (spends-batch_of db txs))

pub created-batch_of : (db : Database) (txs : List Tx) → created (batch_of db txs) ≡ paid_by txs
created-batch_of db [] = refl
created-batch_of db (tx ∷ txs) = omega (
  arith,
  created-append (statements db tx) (batch_of db txs),
  statements-created db tx,
  created-batch_of db txs,
)
