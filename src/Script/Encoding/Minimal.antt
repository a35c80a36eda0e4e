-- ===== src/Script/Encoding/Minimal.antt =====
-- `CheckMinimalPush` (src/MCP/MCP06/scriptFunctions.cpp) and what `operator<<` writes.
use metachain.Base.{
  leb, ◌==◌, length, ℕ, ◌≤◌, ◌≡◌, ◌↔◌, Bool, true, false, ◌&&◌, ◌||◌, List, [], ◌∷◌, arith,
}
use metachain.Base.Bytes.{IsBytes}
use metachain.Script.Opcode.{code}
use metachain.Script.Encoding.{check_minimal_push}
use metachain.Script.Code.Reads.{push_opcode}

-- Bytes that an opcode without an operand pushes: none, or a number from 1 to 16, or -1.
unfoldable pub is_small : List ℕ → Bool
is_small (b ∷ []) = (leb 1 b && leb b 16) || b == 0x81
is_small _ = false

-- Where no opcode of its own pushes the bytes, and there are at most 65535 of them, the opcode that
-- `operator<<` chooses is the one that `CheckMinimalPush` accepts, and no other.
pub check_minimal_push_iff :
    (vch : List ℕ) (o : ℕ)
    → is_small vch ≡ false
    → length vch ≤ 65535
    → (check_minimal_push vch o ≡ true) ↔ (o ≡ push_opcode vch)
unfolding check_minimal_push push_opcode is_small code
check_minimal_push_iff vch o h l = ground arith

-- The push that `operator<<` writes of a small number is not minimal.
pub check_minimal_push_small :
    (vch : List ℕ)
    → IsBytes vch
    → is_small vch ≡ true
    → check_minimal_push vch (push_opcode vch) ≡ false
unfolding check_minimal_push push_opcode is_small code
check_minimal_push_small vch hb h = ground arith
