-- ===== src/Chain/Mine/Spends.antt =====
-- Blocks of one transaction that `processBlock` (src/MCP/MCP02/Mine.cpp) applies.
use mathlib.Core.List.{append-nil}
use metachain.Base.{==_iff, ℕ, ◌≡◌, refl, ap, sym, ◌∙◌, true, false, some, List, [], ◌∷◌, ◌++◌}
use metachain.Chain.Block.{Tx, is_coinbase}
use metachain.Chain.Mine.{
  get_spent, get_value, delete_ins, apply_all, process_spend, process_tx, process_txs, then_next,
  process_block, Ident, Database, next, accepted, start, finish, Processed,
}
use metachain.Chain.Mine.Batch.{out_statements}
use metachain.Chain.Mine.Entries.{
  spent_entry, value_entry, statements, batch_of, batch_of-spent, batch_of-value,
}

-- The entries that transactions leave in an accepted block.
abbrev pub Leaves : Database → List Tx → Processed → Type 0
Leaves db txs p =
    (db' : Database) × (p ≡ accepted db')
    × ((i : Ident) → db'.spent i ≡ spent_entry (db.spent i) txs i)
    × ((i : Ident) → db'.value i ≡ value_entry (db.value i) txs i)

pub process_block_one :
    (db : Database) (tx : Tx) (calc_hash : Tx → ℕ)
    → is_coinbase tx ≡ false
    → tx.hash ≡ calc_hash tx
    → process_block calc_hash db true (tx ∷ [])
      ≡ finish db (then_next (process_spend db start tx) next)
unfolding process_block process_txs process_tx
process_block_one db tx calc_hash spend match =
    rw ((==_iff tx.hash (calc_hash tx)).1 match, spend, process_block) refl

one-batch_of :
    (db : Database) (tx : Tx)
    → is_coinbase tx ≡ false
    → batch_of db (tx ∷ []) ≡ delete_ins 0 tx.ins ++ out_statements db tx
one-batch_of db tx spend = append-nil (statements db tx) ∙ rw spend refl

-- What the statements of one transaction leave.
pub one-Leaves :
    (db : Database) (tx : Tx) (p : Processed)
    → is_coinbase tx ≡ false
    → p ≡ accepted (apply_all db (delete_ins 0 tx.ins ++ out_statements db tx))
    → Leaves db (tx ∷ []) p
one-Leaves db tx p spend e = (
  apply_all db (batch_of db (tx ∷ [])),
  e ∙ ap (λ b. accepted (apply_all db b)) (sym (one-batch_of db tx spend)),
  λ i. batch_of-spent db db (tx ∷ []) i,
  λ i. batch_of-value db db (tx ∷ []) i,
)

-- An output that can be spent: it is unspent, and its value is an unsigned int.
abbrev pub IsSpendable : Database → Ident → Type 0
IsSpendable db i = (get_spent db i ≡ false) × ((v : ℕ) × (get_value db i ≡ some v))
