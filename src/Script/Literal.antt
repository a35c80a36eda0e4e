-- ===== src/Script/Literal.antt =====
-- Small integers in a script: `push_int64`, `DecodeOP_N` and `EncodeOP_N` of src/MCP/MCP06/script.h.
pub mod Runs
use metachain.Base.{ℕ, ◌+◌, ◌-◌, not, ◌&&◌, List, [], ◌∷◌, leb, ◌==◌, if◌then◌else◌}
use metachain.Base.Int.{ℤ, pos, negsuc, leb_ℤ, magnitude}
use metachain.Script.Opcode.{code, op_0, op_1, op_16, op_1negate}
use metachain.Script.Outcome.{Outcome, ok, aborted}
use metachain.Script.Num.{serialize, eq}
use metachain.Script.Code.{push_data}

-- What `operator<<(int64_t)` appends.
unfoldable pub push_int64 : ℤ → List ℕ
unfolding code
push_int64 n =
    if eq n (negsuc 0)
    then code op_1negate ∷ []
    else if leb_ℤ (pos 1) n && leb_ℤ n (pos 16)
    then (code op_1 - 1 + magnitude n) ∷ []
    else if eq n (pos 0)
    then code op_0 ∷ []
    else push_data (serialize n)

-- Anything but OP_0 and OP_1 to OP_16 is a failed assertion.
unfoldable pub decode_op_n : ℕ → Outcome ℕ
unfolding code
decode_op_n opcode =
    if opcode == code op_0
    then ok 0
    else if leb (code op_1) opcode && leb opcode (code op_16)
    then ok (opcode - (code op_1 - 1))
    else aborted

unfoldable pub encode_op_n : ℕ → Outcome ℕ
unfolding code
encode_op_n n =
    if not (leb n 16) then aborted else if n == 0 then ok (code op_0) else ok (code op_1 + n - 1)
