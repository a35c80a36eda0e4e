-- ===== src/Chain/Mine/Limits.antt =====
-- Values that `processBlock` of src/MCP/MCP02/Mine.cpp does not cope with.
use metachain.Base.{ℕ, ◌^◌, ◌≤◌, ◌≡◌, ap, true, false, some, List, [], ◌∷◌, ◌++◌, arith}
use metachain.Chain.Block.{TxIn, Tx, is_coinbase}
use metachain.Chain.Mine.{
  get_spent, get_value, check_ins, delete_ins, process_spend, spend_incoming, process_tx,
  process_txs, then_next, hashes_match, process_block, Database, Progress, thrown, start, finish,
  raised,
}
use metachain.Chain.Mine.Batch.{out_statements}

-- A transaction whose one input is an unspent coin.
module _ (db : Database) (tx : Tx) (i : TxIn) (one : tx.ins ≡ i ∷ [])
    (spend : is_coinbase tx ≡ false) (there : get_spent db (i.prev.hash, 0) ≡ false) where
  check_ins-raised :
      (v : ℕ)
      → db.value (i.prev.hash, 0) ≡ some v
      → 2 ^ 32 ≤ v
      → check_ins db [] 0 0 tx.ins ≡ raised
  unfolding check_ins
  check_ins-raised v e big = rw (one, check_ins, there, get_value, e) (ground arith)

  -- A coin of 2^32 or more cannot be spent: a block whose first transaction has it as its one input, as an
  -- unspent output, and that passes the checks of hashes and size, ends in an exception.
  pub process_block_throws :
      (calc_hash : Tx → ℕ) (txs : List Tx) (v : ℕ)
      → hashes_match calc_hash (tx ∷ txs) ≡ true
      → db.value (i.prev.hash, 0) ≡ some v
      → 2 ^ 32 ≤ v
      → process_block calc_hash db true (tx ∷ txs) ≡ thrown
  unfolding process_block process_txs process_tx process_spend spend_incoming finish
  process_block_throws calc_hash txs v match e big =
      rw (match, spend, process_block)
        (ap (λ r. finish db (then_next (spend_incoming db start tx r) (λ p. process_txs db p txs)))
          (check_ins-raised v e big))

  abbrev applied : Progress
  applied = record {
    used = (i.prev.hash, 0) ∷ [];
    coinbase = false;
    batch = delete_ins 0 tx.ins ++ out_statements db tx;
  }
