-- ===== src/Chain/Block.antt =====
-- Transactions of src/MCP/MCP03: `txOutRef`, `txIn`, `txOut` and `crTransaction`. A uint256 is a number.
use metachain.Base.{◌==◌, ◌+◌, ◌%◌, ◌^◌, ℕ, Bool, false, ◌&&◌, List, [], ◌∷◌}

pub record TxOutRef : Type 0 where
  pub hash : ℕ
  pub pos : ℕ

-- The signature script is left out: nothing reads it.
pub record TxIn : Type 0 where
  pub prev : TxOutRef
  pub signature : List ℕ

pub record TxOut : Type 0 where
  pub value : ℕ
  pub pub_key : List ℕ

pub record Tx : Type 0 where
  pub hash : ℕ
  pub ins : List TxIn
  pub outs : List TxOut

-- The null hash at position 65535.
abbrev pub is_empty : TxOutRef → Bool
is_empty r = r.hash == 0 && r.pos == 65535

abbrev pub first_is_empty : List TxIn → Bool
first_is_empty [] = false
first_is_empty (i ∷ []) = is_empty i.prev
first_is_empty (i ∷ j ∷ is) = false

abbrev pub is_coinbase : Tx → Bool
is_coinbase tx = first_is_empty tx.ins

-- `getValueOut`, and the sum of step 2 of `processBlock`: a uint64_t.
abbrev pub sum_outs : ℕ → List TxOut → ℕ
sum_outs acc [] = acc
sum_outs acc (o ∷ os) = sum_outs ((acc + o.value) % 2 ^ 64) os

abbrev pub get_value_out : Tx → ℕ
get_value_out tx = sum_outs 0 tx.outs
