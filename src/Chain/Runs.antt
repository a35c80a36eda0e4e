-- ===== src/Chain/Runs.antt =====
-- Blocks on concrete inputs.
use metachain.Base.{
  if◌then◌else◌, ◌^◌, ℕ, ◌≡◌, refl, Bool, true, false, Option, none, some, List, [], ◌∷◌, arith,
}
use metachain.Text.Base58.{encode}
use metachain.Chain.Block.{Tx, TxOut}
use metachain.Chain.Merkle.{calc_merkle_root, undefined, root, combine}
use metachain.Chain.Merkle
use metachain.Chain.Mine.{
  process_block, get_spent, get_value, ident_eq, Database, Ident, Account, Processed, accepted,
  rejected, thrown,
}
use metachain.Chain.Mine.Ledger.{Balanced, process_block-Balanced}
use metachain.Chain.Mine.Limits.{process_block_throws}

-- The outputs (7, 0), of 10 coins, and (8, 0), of 2^33, are unspent.
abbrev two_coins : Database
two_coins = record {
  spent =
      λ i. if ident_eq i (7, 0) then some false else if ident_eq i (8, 0) then some false else none;
  value =
      λ i. if ident_eq i (7, 0) then some 10 else if ident_eq i (8, 0) then some (2 ^ 33) else none;
  account = λ k. none;
}

abbrev spending : ℕ → ℕ → List TxOut → Tx
spending hash prev outs = record {
  hash = hash;
  ins = record { prev = record { hash = prev; pos = 0 }; signature = [] } ∷ [];
  outs = outs;
}

abbrev paying : ℕ → ℕ → TxOut
paying v key = record { value = v; pub_key = key ∷ [] }

abbrev given_hash : Tx → ℕ
given_hash tx = tx.hash

abbrev spent_after : Processed → Ident → Option Bool
spent_after (accepted db) i = db.spent i
spent_after rejected i = none
spent_after thrown i = none

abbrev account_after : Processed → List ℕ → Option Account
account_after (accepted db) k = db.account k
account_after rejected k = none
account_after thrown k = none

-- The coin is spent, and its second use is dismissed.
abbrev twice : List Tx
twice = spending 5 7 (paying 9 1 ∷ []) ∷ spending 6 7 (paying 8 1 ∷ []) ∷ []

spends_once :
    (spent_after (process_block given_hash two_coins true twice) (7, 0) ≡ none)
    × (spent_after (process_block given_hash two_coins true twice) (5, 0) ≡ some false)
    × (spent_after (process_block given_hash two_coins true twice) (6, 0) ≡ none)
unfolding process_block get_spent get_value
spends_once = (refl, refl, refl)

-- A coinbase transaction and a spend that pay the same key: the account has the later one only.
abbrev coinbase : ℕ → List TxOut → Tx
coinbase hash outs = record {
  hash = hash;
  ins = record { prev = record { hash = 0; pos = 65535 }; signature = [] } ∷ [];
  outs = outs;
}

forgets_coinbase :
    account_after
      (process_block given_hash two_coins true
        (coinbase 4 (paying 50 1 ∷ []) ∷ spending 5 7 (paying 9 1 ∷ []) ∷ []))
      (encode (1 ∷ []))
    ≡ some ((5, 0) ∷ [])
unfolding process_block encode get_spent get_value
forgets_coinbase = refl

process_block-Balanced_example :
    Balanced two_coins twice (process_block given_hash two_coins true twice)
process_block-Balanced_example =
    process_block-Balanced given_hash two_coins true twice (omega arith)

process_block_throws_example :
    process_block given_hash two_coins true (spending 5 8 [] ∷ []) ≡ thrown
process_block_throws_example =
    process_block_throws two_coins (spending 5 8 [])
      (record { prev = record { hash = 8; pos = 0 }; signature = [] }) refl refl
      (unfold get_spent in refl) given_hash [] (2 ^ 33) refl refl (omega arith)

abbrev huge : Tx
huge = spending 5 7 (paying (2 ^ 63) 1 ∷ paying (2 ^ 63) 2 ∷ [])

calc_merkle_root_defined_example :
    calc_merkle_root (λ bytes. bytes) 0 ((1 ∷ []) ∷ (2 ∷ []) ∷ []) ≡ undefined
calc_merkle_root_defined_example =
    Merkle.calc_merkle_root_defined (λ bytes. bytes) 0 (1 ∷ []) ((2 ∷ []) ∷ [])
