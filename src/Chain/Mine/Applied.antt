-- ===== src/Chain/Mine/Applied.antt =====
-- The transactions that `processBlock` of src/MCP/MCP02/Mine.cpp applies: what they add to the batch.
use mathlib.Core.List.{append-nil, append_assoc}
use metachain.Base.{
  ltb, if◌then◌else◌, Bool-cases, ◌≡◌, refl, ap, sym, ◌∙◌, Bool, true, false, List, [], ◌∷◌, ◌++◌,
  inl, inr,
}
use metachain.Chain.Block.{Tx, is_coinbase, sum_outs}
use metachain.Chain.Mine.{
  check_ins, delete_ins, process_coinbase, process_spend, spend_incoming, then_next, process_tx,
  process_txs, Database, Progress, Round, next, refuse, throw, funded, dismissed, raised, Incoming,
}
use metachain.Chain.Mine.Batch.{out_statements}
use metachain.Chain.Mine.Entries.{statements, batch_of}

abbrev pub OnNext : (Progress → Type 0) → Round → Type 0
OnNext P (next p) = P p
OnNext P refuse = Unit
OnNext P throw = Unit

pub then_next-OnNext :
    (P Q : Progress → Type 0) (r : Round) (k : Progress → Round)
    → OnNext P r
    → ((p : Progress) → P p → OnNext Q (k p))
    → OnNext Q (then_next r k)
then_next-OnNext P Q (next p) k h f = f p h
then_next-OnNext P Q refuse k h f = tt
then_next-OnNext P Q throw k h f = tt

OnNext-map :
    (P Q : Progress → Type 0) (r : Round) → ((p : Progress) → P p → Q p) → OnNext P r → OnNext Q r
OnNext-map P Q (next p) f h = f p h
OnNext-map P Q refuse f h = tt
OnNext-map P Q throw f h = tt

-- Some transactions of a block, in their order: all its coinbase transactions are among them.
pub data Chosen : List Tx → List Tx → Type 0 where
  no_more : Chosen [] []
  taken : {tx : Tx} {some_of txs : List Tx} → Chosen some_of txs → Chosen (tx ∷ some_of) (tx ∷ txs)
  passed_by :
      {tx : Tx} {some_of txs : List Tx}
      → is_coinbase tx ≡ false
      → Chosen some_of txs
      → Chosen some_of (tx ∷ txs)

-- The batch grew by the statements of some of the transactions.
abbrev pub Grown : Database → Progress → List Tx → Progress → Type 0
Grown db p txs p' =
    (applied : List Tx) × Chosen applied txs × (p'.batch ≡ p.batch ++ batch_of db applied)

abbrev one_more :
    (db : Database) (p : Progress) (tx : Tx) (p' : Progress)
    → p'.batch ≡ p.batch ++ statements db tx
    → Grown db p (tx ∷ []) p'
one_more db p tx p' e =
    (tx ∷ [], taken no_more, e ∙ ap (λ b. p.batch ++ b) (sym (append-nil (statements db tx))))

abbrev no_more_of :
    (db : Database) (p : Progress) (tx : Tx) (p' : Progress)
    → is_coinbase tx ≡ false
    → p'.batch ≡ p.batch
    → Grown db p (tx ∷ []) p'
no_more_of db p tx p' k e = ([], passed_by k no_more, e ∙ sym (append-nil p.batch))

coinbase-Grown :
    (db : Database) (p : Progress) (tx : Tx)
    → is_coinbase tx ≡ true
    → OnNext (Grown db p (tx ∷ [])) (process_coinbase db p tx)
unfolding process_coinbase
coinbase-Grown db p tx k = elim (Bool-cases p.coinbase) [
  | inl second ↦ rw (second, process_coinbase) tt
  | inr first ↦
      rw (first, process_coinbase)
        (one_more db p tx (record p { coinbase = true; batch = p.batch ++ out_statements db tx })
          (rw k refl))
]

spend_incoming-Grown :
    (db : Database) (p : Progress) (tx : Tx) (r : Incoming)
    → is_coinbase tx ≡ false
    → OnNext (Grown db p (tx ∷ [])) (spend_incoming db p tx r)
unfolding spend_incoming
spend_incoming-Grown db p tx raised k = tt
spend_incoming-Grown db p tx (dismissed used) k =
    no_more_of db p tx (record p { used = used }) k refl
spend_incoming-Grown db p tx (funded used incoming) k =
    elim (Bool-cases (ltb incoming (sum_outs 0 tx.outs))) [
      | inl short ↦ rw short (no_more_of db p tx (record p { used = used }) k refl)
      | inr enough ↦ rw enough (
          one_more db p tx
            (record p {
              used = used;
              batch = p.batch ++ (delete_ins 0 tx.ins ++ out_statements db tx);
            })
            (rw k refl))
    ]

either_round :
    (P : Progress → Type 0) (b : Bool) (x y : Round)
    → (b ≡ true → OnNext P x)
    → (b ≡ false → OnNext P y)
    → OnNext P (if b then x else y)
either_round P true x y hx hy = hx refl
either_round P false x y hx hy = hy refl

process_tx-Grown :
    (db : Database) (p : Progress) (tx : Tx) → OnNext (Grown db p (tx ∷ [])) (process_tx db p tx)
unfolding process_tx process_spend
process_tx-Grown db p tx =
    either_round (Grown db p (tx ∷ [])) (is_coinbase tx) (process_coinbase db p tx)
      (process_spend db p tx) (coinbase-Grown db p tx)
      (spend_incoming-Grown db p tx (check_ins db p.used 0 0 tx.ins))

Chosen-append : {a b txs us : List Tx} → Chosen a txs → Chosen b us → Chosen (a ++ b) (txs ++ us)
Chosen-append no_more d = d
Chosen-append (taken c) d = taken (Chosen-append c d)
Chosen-append (passed_by e c) d = passed_by e (Chosen-append c d)

batch_of-append :
    (db : Database) (a b : List Tx) → batch_of db (a ++ b) ≡ batch_of db a ++ batch_of db b
batch_of-append db [] b = refl
batch_of-append db (tx ∷ a) b =
    ap (λ ss. statements db tx ++ ss) (batch_of-append db a b)
    ∙ sym (append_assoc (statements db tx) (batch_of db a) (batch_of db b))

Grown-then :
    (db : Database) (p p' p'' : Progress) (txs us : List Tx)
    → Grown db p txs p'
    → Grown db p' us p''
    → Grown db p (txs ++ us) p''
Grown-then db p p' p'' txs us (a, c, e) (b, d, f) = (
  a ++ b,
  Chosen-append c d,
  f
      ∙ (ap (λ ss. ss ++ batch_of db b) e
          ∙ (append_assoc p.batch (batch_of db a) (batch_of db b)
              ∙ ap (λ ss. p.batch ++ ss) (sym (batch_of-append db a b)))),
)

pub process_txs-Grown :
    (db : Database) (p : Progress) (txs : List Tx) → OnNext (Grown db p txs) (process_txs db p txs)
unfolding process_txs
process_txs-Grown db p [] = ([], no_more, sym (append-nil p.batch))
process_txs-Grown db p (tx ∷ txs) =
    then_next-OnNext (Grown db p (tx ∷ [])) (Grown db p (tx ∷ txs)) (process_tx db p tx)
      (λ p'. process_txs db p' txs) (process_tx-Grown db p tx)
      (λ p' g.
        OnNext-map (Grown db p' txs) (Grown db p (tx ∷ txs)) (process_txs db p' txs)
          (λ p'' g'. Grown-then db p p' p'' (tx ∷ []) txs g g') (process_txs-Grown db p' txs))
