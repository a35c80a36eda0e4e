-- ===== src/Chain/Mine.antt =====
-- `Mine::processBlock` of src/MCP/MCP02/Mine.cpp, over the key-value store of src/io/db/rdb.cpp.
pub mod Idents
pub mod Inputs
pub mod Batch
pub mod Entries
pub mod Applied
pub mod Spends
pub mod Ledger
pub mod Limits
use metachain.Base.{
  ltb, ◌==◌, if◌then◌else◌, list_eq, ℕ, zero, suc, ◌+◌, ◌%◌, ◌^◌, Bool, true, false, ◌&&◌, ◌||◌,
  Option, none, some, List, [], ◌∷◌, ◌++◌,
}
use metachain.Text.Base58.{encode}
use metachain.Chain.Block.{TxIn, TxOut, Tx, is_coinbase, sum_outs}

-- `strIdent`, "txO.<hash>.<position>".
abbrev pub Ident : Type 0
Ident = ℕ × ℕ

abbrev pub ident_eq : Ident → Ident → Bool
ident_eq i j = i.0 == j.0 && i.1 == j.1

-- `umapUnspentTX` of an account: positions by the hash of their transaction.
abbrev pub Account : Type 0
Account = List (ℕ × ℕ)

abbrev pub erase : ℕ → Account → Account
erase h [] = []
erase h (e ∷ a) = let rest = erase h a in if h == e.0 then a else e ∷ rest

abbrev pub contains : ℕ → Account → Bool
contains h [] = false
contains h (e ∷ a) = h == e.0 || contains h a

-- Nothing is put over a position that is there.
abbrev pub emplace : ℕ → ℕ → Account → Account
emplace h pos a = if contains h a then a else (h, pos) ∷ a

-- The entries ".spent" and ".val" of an output, and "txU." of an account. Only "0", which is `false`,
-- is written to ".spent".
pub record Database : Type 0 where
  pub spent : Ident → Option Bool
  pub value : Ident → Option ℕ
  pub account : List ℕ → Option Account

-- `m_pDB->get(strIdent + ".spent", true)`.
unfoldable pub get_spent : Database → Ident → Bool
get_spent db i = elim (db.spent i) [ none ↦ true | some b ↦ b ]

-- `m_pDB->get(strIdent + ".val", (unsigned int)0)`: `none` is the exception of `lexical_cast` for a text
-- that is no `unsigned int`.
unfoldable pub get_value : Database → Ident → Option ℕ
get_value db i = elim (db.value i) [
  | none ↦ some 0
  | some v ↦ if ltb v (2 ^ 32) then some v else none
]

pub data Statement : Type 0 where
  add_spent delete_spent : Ident → Statement
  add_value : Ident → ℕ → Statement
  add_account : List ℕ → Account → Statement

abbrev pub apply : Database → Statement → Database
apply db (add_spent i) = record db { spent = λ j. if ident_eq j i then some false else db.spent j }
apply db (delete_spent i) = record db { spent = λ j. if ident_eq j i then none else db.spent j }
apply db (add_value i v) = record db { value = λ j. if ident_eq j i then some v else db.value j }
apply db (add_account k a) = record db {
  account = λ j. if list_eq j k then some a else db.account j;
}

-- `batchFinalize`: the statements take effect in their order.
abbrev pub apply_all : Database → List Statement → Database
apply_all db [] = db
apply_all db (s ∷ ss) = apply_all (apply db s) ss

abbrev pub mem_ident : Ident → List Ident → Bool
mem_ident i [] = false
mem_ident i (j ∷ js) = ident_eq i j || mem_ident i js

-- Step 1 comes to the set `usetSpendings` and the incoming sum, to `goto next`, or to an exception.
pub data Incoming : Type 0 where
  funded : List Ident → ℕ → Incoming
  dismissed : List Ident → Incoming
  raised : Incoming

unfoldable pub check_ins : Database → List Ident → ℕ → ℕ → List TxIn → Incoming
unfolding get_spent get_value
check_ins db used sum pos [] = funded used sum
check_ins db used sum pos (i ∷ is) =
    let ident : Ident = (i.prev.hash, pos) in
    elim (mem_ident ident used) [
      | true ↦ dismissed used
      | false ↦ elim (get_spent db ident) [
        | true ↦ dismissed (ident ∷ used)
        | false ↦ elim (get_value db ident) [
          | none ↦ raised
          | some v ↦ check_ins db (ident ∷ used) ((sum + v) % 2 ^ 64) (pos + 1) is
        ]
      ]
    ]

-- Step 3.
unfoldable pub delete_ins : ℕ → List TxIn → List Statement
delete_ins pos [] = []
delete_ins pos (i ∷ is) = delete_spent (i.prev.hash, pos) ∷ delete_ins (pos + 1) is

-- Step 4.
unfoldable pub add_outs : ℕ → ℕ → List TxOut → List Statement
add_outs hash pos [] = []
add_outs hash pos (o ∷ os) =
    add_spent (hash, pos) ∷ add_value (hash, pos) o.value ∷ add_outs hash (pos + 1) os

-- `umapAccounts`.
abbrev pub Accounts : Type 0
Accounts = List (List ℕ × Account)

abbrev pub find : List ℕ → Accounts → Option Account
find k [] = none
find k ((j, a) ∷ m) = if list_eq k j then some a else find k m

abbrev pub store : List ℕ → Account → Accounts → Accounts
store k a [] = (k, a) ∷ []
store k a ((j, b) ∷ m) = if list_eq k j then (k, a) ∷ m else (j, b) ∷ store k a m

-- The account of the list, or else of the database, or else a new one.
abbrev pub load : Database → List ℕ → Accounts → Account
load db k m = elim (find k m) [ some a ↦ a | none ↦ elim (db.account k) [ none ↦ [] | some a ↦ a ] ]

unfoldable pub spend_ins : Database → List TxIn → Accounts → Accounts
spend_ins db [] m = m
spend_ins db (i ∷ is) m =
    spend_ins db is (store i.signature (erase i.prev.hash (load db i.signature m)) m)

unfoldable pub credit_outs : Database → ℕ → ℕ → List TxOut → Accounts → Accounts
unfolding encode
credit_outs db hash pos [] m = m
credit_outs db hash pos (o ∷ os) m =
    let key = encode o.pub_key in
    credit_outs db hash (pos + 1) os (store key (emplace hash pos (load db key m)) m)

unfoldable pub write_accounts : Accounts → List Statement
write_accounts [] = []
write_accounts ((k, a) ∷ m) = add_account k a ∷ write_accounts m

-- Step 5.
unfoldable pub accounts_of : Database → Tx → Accounts
unfolding spend_ins credit_outs
accounts_of db tx =
    credit_outs db tx.hash 0 tx.outs (if is_coinbase tx then [] else spend_ins db tx.ins [])

unfoldable pub update_accounts : Database → Tx → List Statement
unfolding accounts_of write_accounts
update_accounts db tx = write_accounts (accounts_of db tx)

-- What the loop over the transactions keeps: `usetSpendings`, `bCoinbase` and the batch.
pub record Progress : Type 0 where
  pub used : List Ident
  pub coinbase : Bool
  pub batch : List Statement

-- A transaction comes to the next one, to `return false`, or to an exception.
pub data Round : Type 0 where
  next : Progress → Round
  refuse throw : Round

unfoldable pub process_coinbase : Database → Progress → Tx → Round
unfolding add_outs update_accounts
process_coinbase db p tx =
    if p.coinbase
    then refuse
    else next (record p {
      coinbase = true;
      batch = p.batch ++ (add_outs tx.hash 0 tx.outs ++ update_accounts db tx);
    })

-- What step 1 has come to decides.
unfoldable pub spend_incoming : Database → Progress → Tx → Incoming → Round
unfolding delete_ins add_outs update_accounts
spend_incoming db p tx raised = throw
spend_incoming db p tx (dismissed used) = next (record p { used = used })
spend_incoming db p tx (funded used incoming) =
    if ltb incoming (sum_outs 0 tx.outs)
    then next (record p { used = used })
    else next (record p {
      used = used;
      batch =
          p.batch ++ (delete_ins 0 tx.ins ++ (add_outs tx.hash 0 tx.outs ++ update_accounts db tx));
    })

unfoldable pub process_spend : Database → Progress → Tx → Round
unfolding check_ins spend_incoming
process_spend db p tx = spend_incoming db p tx (check_ins db p.used 0 0 tx.ins)

unfoldable pub process_tx : Database → Progress → Tx → Round
unfolding process_coinbase process_spend
process_tx db p tx = if is_coinbase tx then process_coinbase db p tx else process_spend db p tx

abbrev pub then_next : Round → (Progress → Round) → Round
then_next (next p) k = k p
then_next refuse k = refuse
then_next throw k = throw

unfoldable pub process_txs : Database → Progress → List Tx → Round
unfolding process_tx
process_txs db p [] = next p
process_txs db p (tx ∷ txs) = then_next (process_tx db p tx) (λ p'. process_txs db p' txs)

-- `true` with the database that results, `false`, or an exception; the latter two leave the database.
pub data Processed : Type 0 where
  accepted : Database → Processed
  rejected thrown : Processed

abbrev pub start : Progress
start = record { used = []; coinbase = false; batch = [] }

-- An exception, and a refusal, leave the batch unwritten.
unfoldable pub finish : Database → Round → Processed
finish db (next p) = accepted (apply_all db p.batch)
finish db refuse = rejected
finish db throw = thrown

-- `calcHash` of a transaction, and the outcome of `checkBlock`, are parameters.
module _ (calc_hash : Tx → ℕ) where
  abbrev pub hashes_match : List Tx → Bool
  hashes_match [] = true
  hashes_match (tx ∷ txs) = tx.hash == calc_hash tx && hashes_match txs

  unfoldable pub process_block : Database → Bool → List Tx → Processed
  unfolding process_txs finish
  process_block db check_block txs =
      if check_block && hashes_match txs then finish db (process_txs db start txs) else rejected
