-- ===== src/Script/Numeric.antt =====
-- The numeric operations of `evalScript` (src/MCP/MCP06/scriptInterpreter.cpp).
pub mod Range
use metachain.Base.{ℕ, Bool, true, false, not, ◌&&◌, ◌||◌, List, [], ◌∷◌, if◌then◌else◌}
use metachain.Base.Int.{ℤ, pos, ltb_ℤ, leb_ℤ}
use metachain.Script.Opcode.{
  Opcode, op_1add, op_1sub, op_negate, op_abs, op_not, op_0notequal, op_add, op_sub, op_booland,
  op_boolor, op_numequal, op_numequalverify, op_numnotequal, op_lessthan, op_greaterthan,
  op_lessthanorequal, op_greaterthanorequal, op_min, op_max,
}
use metachain.Script.Outcome.{
  Outcome, ok, err, aborted, ◌>>=◌, invalid_stack_operation, numequalverify,
}
use metachain.Script.Num.{serialize, script_num, add, sub, neg, eq}
use metachain.Script.Encoding.{cast_to_bool}
use metachain.Script.Stack.{Stack, bool_vch}

-- A comparison as a number.
abbrev pub bool_num : Bool → ℤ
bool_num b = if b then pos 1 else pos 0

-- The inner `switch` on one operand; its default case is a failed assertion.
unfoldable pub unary : Opcode → ℤ → Outcome ℤ
unary op_1add bn = add bn (pos 1)
unary op_1sub bn = sub bn (pos 1)
unary op_negate bn = neg bn
unary op_abs bn = if ltb_ℤ bn (pos 0) then neg bn else ok bn
unary op_not bn = ok (bool_num (eq bn (pos 0)))
unary op_0notequal bn = ok (bool_num (not (eq bn (pos 0))))
unary _ bn = aborted

unfoldable pub binary : Opcode → ℤ → ℤ → Outcome ℤ
binary op_add a b = add a b
binary op_sub a b = sub a b
binary op_booland a b = ok (bool_num (not (eq a (pos 0)) && not (eq b (pos 0))))
binary op_boolor a b = ok (bool_num (not (eq a (pos 0)) || not (eq b (pos 0))))
binary op_numequal a b = ok (bool_num (eq a b))
binary op_numequalverify a b = ok (bool_num (eq a b))
binary op_numnotequal a b = ok (bool_num (not (eq a b)))
binary op_lessthan a b = ok (bool_num (ltb_ℤ a b))
binary op_greaterthan a b = ok (bool_num (ltb_ℤ b a))
binary op_lessthanorequal a b = ok (bool_num (leb_ℤ a b))
binary op_greaterthanorequal a b = ok (bool_num (leb_ℤ b a))
binary op_min a b = ok (if ltb_ℤ a b then a else b)
binary op_max a b = ok (if ltb_ℤ b a then a else b)
binary _ a b = aborted

unfoldable pub unary_num : Bool → Opcode → Stack → Outcome Stack
unary_num minimal op (x ∷ s) = do
  bn ← script_num minimal x
  result ← unary op bn
  ok (serialize result ∷ s)
unary_num minimal op [] = err invalid_stack_operation

unfoldable pub binary_num : Bool → Opcode → Stack → Outcome Stack
binary_num minimal op (x2 ∷ x1 ∷ s) = do
  bn1 ← script_num minimal x1
  bn2 ← script_num minimal x2
  result ← binary op bn1 bn2
  ok (serialize result ∷ s)
binary_num minimal op _ = err invalid_stack_operation

-- What OP_NUMEQUALVERIFY does behind that.
unfoldable pub num_equal_verify : Stack → Outcome Stack
num_equal_verify (x ∷ s) = if cast_to_bool x then ok s else err numequalverify
num_equal_verify [] = err invalid_stack_operation

unfoldable pub within : Bool → Stack → Outcome Stack
within minimal (x3 ∷ x2 ∷ x1 ∷ s) = do
  bn1 ← script_num minimal x1
  bn2 ← script_num minimal x2
  bn3 ← script_num minimal x3
  ok (bool_vch (leb_ℤ bn2 bn1 && ltb_ℤ bn1 bn3) ∷ s)
within minimal _ = err invalid_stack_operation
