-- ===== src/Chain/Mine/Ledger.antt =====
-- What `processBlock` of src/MCP/MCP02/Mine.cpp does to the outputs: nothing is spent twice, and no
-- value comes from nowhere.
use mathlib.Core.List.{append-nil}
use metachain.Base.{
  ltb, if◌then◌else◌, Bool-cases, All, All-append, ℕ, ◌+◌, ◌^◌, ◌≤◌, ◌<◌, ◌≡◌, ap, sym, ◌∙◌, subst,
  Bool, true, false, ◌&&◌, List, [], ◌∷◌, ◌++◌, arith, inl, inr,
}
use metachain.Chain.Block.{Tx, is_coinbase, sum_outs}
use metachain.Chain.Mine.{
  get_spent, check_ins, delete_ins, apply_all, process_coinbase, process_spend, spend_incoming,
  process_tx, process_txs, hashes_match, process_block, Ident, Database, Progress, Round, next,
  refuse, throw, Processed, accepted, rejected, thrown, start, finish, funded, dismissed, raised,
  Incoming,
}
use metachain.Chain.Mine.Idents.{Distinct, In, Distinct-append, All-map}
use metachain.Chain.Mine.Inputs.{idents, total, Taken, Passes, check_ins-Passes}
use metachain.Chain.Mine.Batch.{
  spends, created, value_out, spends-append, created-append, total-append, out_statements,
  spends-out_statements, created-out_statements, spends-spend, created-spend, sum_outs-value_out,
}
use metachain.Chain.Mine.Applied.{OnNext, then_next-OnNext, Chosen, Grown, process_txs-Grown}
use metachain.Chain.Mine.Entries.{
  spent_entry, value_entry, spent_by, paid_by, batch_of-spent, batch_of-value, spends-batch_of,
  created-batch_of,
}

-- The outgoing sum of a transaction stays below 2^64.
abbrev pub HasSum : Tx → Type 0
HasSum tx = value_out tx.outs < 2 ^ 64

-- The value of the coinbase transactions.
abbrev pub minted : List Tx → ℕ
minted [] = 0
minted (tx ∷ txs) = (if is_coinbase tx then value_out tx.outs else 0) + minted txs

-- The batch after some transactions that mint `m`.
pub record IsSound (db : Database) (m : ℕ) (p : Progress) : Type 0 where
  pub distinct : Distinct (spends p.batch)
  pub unspent : All (λ i. get_spent db i ≡ false) (spends p.batch)
  pub used : All (In p.used) (spends p.batch)
  pub balanced : created p.batch ≤ total db (spends p.batch) + m

coinbase-IsSound :
    (db : Database) (m : ℕ) (p : Progress) (tx : Tx)
    → IsSound db m p
    → OnNext (IsSound db (value_out tx.outs + m)) (process_coinbase db p tx)
unfolding process_coinbase
coinbase-IsSound db m p tx s = elim (Bool-cases p.coinbase) [
  | inl second ↦ rw (second, process_coinbase) tt
  | inr first ↦
      let e =
        spends-append p.batch (out_statements db tx)
        ∙ ap (λ is. spends p.batch ++ is) (spends-out_statements db tx)
        ∙ append-nil (spends p.batch) in
      rw (first, process_coinbase)
        (let r : IsSound db (value_out tx.outs + m)
              (record p { coinbase = true; batch = p.batch ++ out_statements db tx }) =
            record {
              distinct = subst Distinct (sym e) s.distinct;
              unspent = subst (All (λ i. get_spent db i ≡ false)) (sym e) s.unspent;
              used = subst (All (In p.used)) (sym e) s.used;
              balanced = omega (
                arith,
                created-append p.batch (out_statements db tx),
                created-out_statements db tx,
                ap (total db) e,
                s.balanced,
              );
            } in
          r)
]

more_used :
    (db : Database) (m : ℕ) (p : Progress) (used : List Ident)
    → IsSound db m p
    → ((i : Ident) → In p.used i → In used i)
    → IsSound db m (record p { used = used })
more_used db m p used s more = record {
  distinct = s.distinct;
  unspent = s.unspent;
  used = All-map (spends p.batch) more s.used;
  balanced = s.balanced;
}

-- A transaction that is applied.
spend-IsSound :
    (db : Database) (m : ℕ) (p : Progress) (tx : Tx) (used : List Ident) (incoming : ℕ)
    → IsSound db m p
    → HasSum tx
    → Taken db p.used 0 (idents 0 tx.ins) used incoming
    → sum_outs 0 tx.outs ≤ incoming
    → IsSound db m
        (record p { used = used; batch = p.batch ++ (delete_ins 0 tx.ins ++ out_statements db tx) })
spend-IsSound db m p tx used incoming s sums t covered =
    let e =
      spends-append p.batch (delete_ins 0 tx.ins ++ out_statements db tx)
      ∙ ap (λ is. spends p.batch ++ is) (spends-spend db tx) in
    record {
      distinct = subst Distinct (sym e) (
          Distinct-append p.used (spends p.batch) (idents 0 tx.ins) s.distinct t.distinct s.used
            t.fresh);
      unspent =
          subst (All (λ i. get_spent db i ≡ false)) (sym e)
            (All-append _ (spends p.batch) (idents 0 tx.ins) s.unspent t.unspent);
      used = subst (All (In used)) (sym e) (
          All-append _ (spends p.batch) (idents 0 tx.ins) (All-map (spends p.batch) t.kept s.used)
            t.marked);
      balanced = omega (
        arith,
        s.balanced,
        covered,
        sums,
        t.worth,
        ap (total db) e,
        total-append db (spends p.batch) (idents 0 tx.ins),
        created-append p.batch (delete_ins 0 tx.ins ++ out_statements db tx),
        created-spend db tx,
        sum_outs-value_out 0 tx.outs (omega (arith, sums)),
      );
    }

spend_incoming-IsSound :
    (db : Database) (m : ℕ) (p : Progress) (tx : Tx) (r : Incoming)
    → IsSound db m p
    → HasSum tx
    → Passes db p.used 0 (idents 0 tx.ins) r
    → OnNext (IsSound db m) (spend_incoming db p tx r)
unfolding spend_incoming
spend_incoming-IsSound db m p tx raised s sum t = tt
spend_incoming-IsSound db m p tx (dismissed used) s sum t = more_used db m p used s t
spend_incoming-IsSound db m p tx (funded used incoming) s sum t =
    elim (Bool-cases (ltb incoming (sum_outs 0 tx.outs))) [
      | inl short ↦ rw short (more_used db m p used s t.kept)
      | inr enough ↦ rw enough (spend-IsSound db m p tx used incoming s sum t (ground arith))
    ]

-- The two kinds of transaction.
by_kind :
    (db : Database) (m v : ℕ) (b : Bool) (x y : Round)
    → OnNext (IsSound db (v + m)) x
    → OnNext (IsSound db m) y
    → OnNext (IsSound db ((if b then v else 0) + m)) (if b then x else y)
by_kind db m v true x y hx hy = hx
by_kind db m v false x y hx hy =
    subst (λ k. OnNext (IsSound db k) y) (let z : m ≡ 0 + m = omega arith in z) hy

process_tx-IsSound :
    (db : Database) (m : ℕ) (p : Progress) (tx : Tx)
    → IsSound db m p
    → HasSum tx
    → OnNext
        (IsSound db ((if is_coinbase tx then value_out tx.outs else 0) + m))
        (process_tx db p tx)
unfolding process_tx process_spend
process_tx-IsSound db m p tx s sum =
    by_kind db m (value_out tx.outs) (is_coinbase tx) (process_coinbase db p tx)
      (process_spend db p tx) (coinbase-IsSound db m p tx s)
      (spend_incoming-IsSound db m p tx (check_ins db p.used 0 0 tx.ins) s sum
        (check_ins-Passes db p.used 0 0 tx.ins (omega arith)))

process_txs-IsSound :
    (db : Database) (m : ℕ) (p : Progress) (txs : List Tx)
    → IsSound db m p
    → All HasSum txs
    → OnNext (IsSound db (minted txs + m)) (process_txs db p txs)
unfolding process_txs
process_txs-IsSound db m p [] s sums =
    subst (λ k. IsSound db k p) (let z : m ≡ 0 + m = omega arith in z) s
process_txs-IsSound db m p (tx ∷ txs) s sums =
    let v : ℕ = if is_coinbase tx then value_out tx.outs else 0 in
    subst (λ k. OnNext (IsSound db k) (process_txs db p (tx ∷ txs)))
      (let z : minted txs + (v + m) ≡ v + minted txs + m = omega arith in z)
      (then_next-OnNext (IsSound db (v + m)) (IsSound db (minted txs + (v + m)))
        (process_tx db p tx) (λ p'. process_txs db p' txs) (process_tx-IsSound db m p tx s sums.0)
        (λ p' s'. process_txs-IsSound db (v + m) p' txs s' sums.1))

-- The database is `db` after some transactions of the block, all its coinbase transactions among them: they
-- spend no output twice, and unspent outputs only; the value of their outputs is at most that of
-- what they spend and of the outputs of the coinbase transactions; and each entry ".spent" and
-- ".val" is what they leave, in their order: spent outputs without ".spent", their own outputs
-- unspent, with their value.
abbrev pub Balanced : Database → List Tx → Processed → Type 0
Balanced db txs (accepted db') =
    (applied : List Tx) × Chosen applied txs
    × Distinct (spent_by applied)
    × All (λ i. get_spent db i ≡ false) (spent_by applied)
    × (paid_by applied ≤ total db (spent_by applied) + minted txs)
    × ((i : Ident) → db'.spent i ≡ spent_entry (db.spent i) applied i)
    × ((i : Ident) → db'.value i ≡ value_entry (db.value i) applied i)
Balanced db txs rejected = Unit
Balanced db txs thrown = Unit

finish-Balanced :
    (db : Database) (txs : List Tx) (r : Round)
    → OnNext (IsSound db (minted txs + 0)) r
    → OnNext (Grown db start txs) r
    → Balanced db txs (finish db r)
unfolding finish
finish-Balanced db txs (next p) s (applied, chosen, e) =
    let e' = ap spends e ∙ spends-batch_of db applied in
    (
      applied,
      chosen,
      subst Distinct e' s.distinct,
      subst (All (λ i. get_spent db i ≡ false)) e' s.unspent,
      omega (arith, s.balanced, ap created e, created-batch_of db applied, ap (total db) e'),
      λ i. ap (λ b. (apply_all db b).spent i) e ∙ batch_of-spent db db applied i,
      λ i. ap (λ b. (apply_all db b).value i) e ∙ batch_of-value db db applied i,
    )
finish-Balanced db txs refuse s g = tt
finish-Balanced db txs throw s g = tt

start-IsSound : {db : Database} → IsSound db 0 start
start-IsSound = record { distinct = tt; unspent = tt; used = tt; balanced = omega arith }

-- When `processBlock` accepts a block, the database is what it was after some transactions of the block, in
-- their order, all its coinbase transactions among them: these transactions spend no output twice,
-- and only outputs that were unspent before the block; the value of their outputs is at most the
-- value of the outputs that they spend and that the coinbase transactions have; and the entries
-- ".spent" and ".val" of each output are what they leave: a spent output has lost ".spent", an
-- output of theirs is unspent and has its value, and the rest is as before. The outputs of each
-- transaction of the block come to less than 2^64 together.
pub process_block-Balanced :
    (calc_hash : Tx → ℕ) (db : Database) (check_block : Bool) (txs : List Tx)
    → All HasSum txs
    → Balanced db txs (process_block calc_hash db check_block txs)
unfolding process_block
process_block-Balanced calc_hash db check_block txs sums =
    elim (Bool-cases (check_block && hashes_match calc_hash txs)) [
      | inl fine ↦
          rw (fine, process_block)
            (finish-Balanced db txs (process_txs db start txs)
              (process_txs-IsSound db 0 start txs start-IsSound sums)
              (process_txs-Grown db start txs))
      | inr bad ↦ rw (bad, process_block) tt
    ]
