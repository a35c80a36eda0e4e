-- ===== src/Script/Interp.antt =====
-- `evalScript` of src/MCP/MCP06/scriptInterpreter.cpp: one instruction, the loop over the script, and
-- the function.
pub mod Limits
pub mod Safety
pub mod Total
pub mod Nesting
pub mod Syntax
use metachain.Base.{
  ℕ, zero, suc, ◌+◌, ◌-◌, Bool, true, false, not, ◌&&◌, ◌||◌, Option, none, some, List, [], ◌∷◌,
  ltb, leb, ◌==◌, if◌then◌else◌, length,
}
use metachain.Base.Int.{sub_ℕ}
use metachain.Script.Opcode.{
  Opcode, code, of_code, op_16, op_pushdata4, op_1negate, op_1, op_2, op_3, op_4, op_5, op_6, op_7,
  op_8, op_9, op_10, op_11, op_12, op_13, op_14, op_15, op_16, op_nop, op_nop1, op_nop4, op_nop5,
  op_nop6, op_nop7, op_nop8, op_nop9, op_nop10, op_if, op_notif, op_else, op_endif, op_verify,
  op_return, op_toaltstack, op_fromaltstack, op_2drop, op_2dup, op_3dup, op_2over, op_2rot,
  op_2swap, op_ifdup, op_depth, op_drop, op_dup, op_nip, op_over, op_pick, op_roll, op_rot, op_swap,
  op_tuck, op_size, op_equal, op_equalverify, op_1add, op_1sub, op_negate, op_abs, op_not,
  op_0notequal, op_add, op_sub, op_booland, op_boolor, op_numequal, op_numnotequal, op_lessthan,
  op_greaterthan, op_lessthanorequal, op_greaterthanorequal, op_min, op_max, op_numequalverify,
  op_within, op_ripemd160, op_sha1, op_sha256, op_hash256, op_sha3_256, op_sha3_512, op_sha3_cshake,
  op_codeseparator, op_checksig, op_checksigverify, op_checkmultisig, op_checkmultisigverify,
  op_cat, op_substr, op_left, op_right, op_invert, op_and, op_or, op_xor, op_2mul, op_2div, op_mul,
  op_div, op_mod, op_lshift, op_rshift,
}
use metachain.Script.Outcome.{
  ScriptError, Outcome, ok, err, stuck, ◌>>=◌, ◌>>◌, require, or_fail, bad_opcode, push_size,
  op_count, disabled_opcode, err_minimaldata, stack_size, script_size, unbalanced_conditional,
  return, err_discourage_upgradable_nops,
}
use metachain.Script.Num.{serialize}
use metachain.Script.Code.{
  get_op, max_script_element_size, max_ops_per_script, max_script_size, max_stack_size,
}
use metachain.Script.Flags
use metachain.Script.Encoding.{check_minimal_push}
use metachain.Script.Checker.{Checker}
use metachain.Script.Stack.{
  Stack, two_drop, two_dup, three_dup, two_over, two_rot, two_swap, if_dup, depth, drop_top, dup,
  nip, over, rot, swap, tuck, size, pick, equal, equal_verify, verify_top,
}
use metachain.Script.Numeric.{unary_num, binary_num, num_equal_verify, within}
use metachain.Script.Machine.{
  State, on_stack, exec_if, flip_branch, end_branch, on_branches, to_alt_stack, from_alt_stack,
  hash_top, check_sig, check_multisig,
}

unfoldable pub is_disabled : Opcode → Bool
is_disabled op_cat = true
is_disabled op_substr = true
is_disabled op_left = true
is_disabled op_right = true
is_disabled op_invert = true
is_disabled op_and = true
is_disabled op_or = true
is_disabled op_xor = true
is_disabled op_2mul = true
is_disabled op_2div = true
is_disabled op_mul = true
is_disabled op_div = true
is_disabled op_mod = true
is_disabled op_lshift = true
is_disabled op_rshift = true
is_disabled _ = false

-- OP_1NEGATE and OP_1 to OP_16: the number `opcode - (OP_1 - 1)`.
unfoldable pub push_number : Opcode → Stack → Outcome Stack
unfolding code
push_number opcode s = ok (serialize (sub_ℕ (code opcode) 0x50) ∷ s)

-- `!count(vfExec.begin(), vfExec.end(), false)`
unfoldable pub all_true : List Bool → Bool
all_true [] = true
all_true (b ∷ bs) = b && all_true bs

-- The state in front of the loop.
abbrev pub start : List ℕ → Stack → Stack → State
start script stack alt_stack = record {
  stack = stack;
  alt_stack = alt_stack;
  exec_stack = [];
  op_count = 0;
  code_hash = script;
}

module _ (c : Checker) (flags : ℕ) where
  abbrev minimal : Bool
  minimal = Flags.has flags Flags.minimaldata

  unfoldable pub nop : State → Outcome State
  nop s = do
    require (not (Flags.has flags Flags.discourage_upgradable_nops)) err_discourage_upgradable_nops
    ok s

  unfoldable pub exec_multisig : Bool → State → Outcome State
  exec_multisig verify s = do
    (count, stack) ← check_multisig c flags verify s.code_hash s.op_count s.stack
    ok (record s { stack = stack; op_count = count })

  -- The `switch`, with `f_exec` and the iterator behind the instruction.
  unfoldable pub exec : Opcode → Bool → List ℕ → State → Outcome State
  exec op_1negate f_exec pc s = on_stack (push_number op_1negate) s
  exec op_1 f_exec pc s = on_stack (push_number op_1) s
  exec op_2 f_exec pc s = on_stack (push_number op_2) s
  exec op_3 f_exec pc s = on_stack (push_number op_3) s
  exec op_4 f_exec pc s = on_stack (push_number op_4) s
  exec op_5 f_exec pc s = on_stack (push_number op_5) s
  exec op_6 f_exec pc s = on_stack (push_number op_6) s
  exec op_7 f_exec pc s = on_stack (push_number op_7) s
  exec op_8 f_exec pc s = on_stack (push_number op_8) s
  exec op_9 f_exec pc s = on_stack (push_number op_9) s
  exec op_10 f_exec pc s = on_stack (push_number op_10) s
  exec op_11 f_exec pc s = on_stack (push_number op_11) s
  exec op_12 f_exec pc s = on_stack (push_number op_12) s
  exec op_13 f_exec pc s = on_stack (push_number op_13) s
  exec op_14 f_exec pc s = on_stack (push_number op_14) s
  exec op_15 f_exec pc s = on_stack (push_number op_15) s
  exec op_16 f_exec pc s = on_stack (push_number op_16) s
  exec op_nop f_exec pc s = ok s
  exec op_nop1 f_exec pc s = nop s
  exec op_nop4 f_exec pc s = nop s
  exec op_nop5 f_exec pc s = nop s
  exec op_nop6 f_exec pc s = nop s
  exec op_nop7 f_exec pc s = nop s
  exec op_nop8 f_exec pc s = nop s
  exec op_nop9 f_exec pc s = nop s
  exec op_nop10 f_exec pc s = nop s
  exec op_if f_exec pc s = exec_if false f_exec s
  exec op_notif f_exec pc s = exec_if true f_exec s
  exec op_else f_exec pc s = on_branches flip_branch s
  exec op_endif f_exec pc s = on_branches end_branch s
  exec op_verify f_exec pc s = on_stack verify_top s
  exec op_return f_exec pc s = err return
  exec op_toaltstack f_exec pc s = to_alt_stack s
  exec op_fromaltstack f_exec pc s = from_alt_stack s
  exec op_2drop f_exec pc s = on_stack two_drop s
  exec op_2dup f_exec pc s = on_stack two_dup s
  exec op_3dup f_exec pc s = on_stack three_dup s
  exec op_2over f_exec pc s = on_stack two_over s
  exec op_2rot f_exec pc s = on_stack two_rot s
  exec op_2swap f_exec pc s = on_stack two_swap s
  exec op_ifdup f_exec pc s = on_stack if_dup s
  exec op_depth f_exec pc s = on_stack depth s
  exec op_drop f_exec pc s = on_stack drop_top s
  exec op_dup f_exec pc s = on_stack dup s
  exec op_nip f_exec pc s = on_stack nip s
  exec op_over f_exec pc s = on_stack over s
  exec op_pick f_exec pc s = on_stack (pick minimal false) s
  exec op_roll f_exec pc s = on_stack (pick minimal true) s
  exec op_rot f_exec pc s = on_stack rot s
  exec op_swap f_exec pc s = on_stack swap s
  exec op_tuck f_exec pc s = on_stack tuck s
  exec op_size f_exec pc s = on_stack size s
  exec op_equal f_exec pc s = on_stack equal s
  exec op_equalverify f_exec pc s = on_stack equal_verify s
  exec op_1add f_exec pc s = on_stack (unary_num minimal op_1add) s
  exec op_1sub f_exec pc s = on_stack (unary_num minimal op_1sub) s
  exec op_negate f_exec pc s = on_stack (unary_num minimal op_negate) s
  exec op_abs f_exec pc s = on_stack (unary_num minimal op_abs) s
  exec op_not f_exec pc s = on_stack (unary_num minimal op_not) s
  exec op_0notequal f_exec pc s = on_stack (unary_num minimal op_0notequal) s
  exec op_add f_exec pc s = on_stack (binary_num minimal op_add) s
  exec op_sub f_exec pc s = on_stack (binary_num minimal op_sub) s
  exec op_booland f_exec pc s = on_stack (binary_num minimal op_booland) s
  exec op_boolor f_exec pc s = on_stack (binary_num minimal op_boolor) s
  exec op_numequal f_exec pc s = on_stack (binary_num minimal op_numequal) s
  exec op_numnotequal f_exec pc s = on_stack (binary_num minimal op_numnotequal) s
  exec op_lessthan f_exec pc s = on_stack (binary_num minimal op_lessthan) s
  exec op_greaterthan f_exec pc s = on_stack (binary_num minimal op_greaterthan) s
  exec op_lessthanorequal f_exec pc s = on_stack (binary_num minimal op_lessthanorequal) s
  exec op_greaterthanorequal f_exec pc s = on_stack (binary_num minimal op_greaterthanorequal) s
  exec op_min f_exec pc s = on_stack (binary_num minimal op_min) s
  exec op_max f_exec pc s = on_stack (binary_num minimal op_max) s
  exec op_numequalverify f_exec pc s =
      on_stack (λ stack. binary_num minimal op_numequalverify stack >>= num_equal_verify) s
  exec op_within f_exec pc s = on_stack (within minimal) s
  exec op_ripemd160 f_exec pc s = on_stack (hash_top c flags op_ripemd160) s
  exec op_sha1 f_exec pc s = on_stack (hash_top c flags op_sha1) s
  exec op_sha256 f_exec pc s = on_stack (hash_top c flags op_sha256) s
  exec op_hash256 f_exec pc s = on_stack (hash_top c flags op_hash256) s
  exec op_sha3_256 f_exec pc s = on_stack (hash_top c flags op_sha3_256) s
  exec op_sha3_512 f_exec pc s = on_stack (hash_top c flags op_sha3_512) s
  exec op_sha3_cshake f_exec pc s = on_stack (hash_top c flags op_sha3_cshake) s
  exec op_codeseparator f_exec pc s = ok (record s { code_hash = pc })
  exec op_checksig f_exec pc s = on_stack (check_sig c flags false s.code_hash) s
  exec op_checksigverify f_exec pc s = on_stack (check_sig c flags true s.code_hash) s
  exec op_checkmultisig f_exec pc s = exec_multisig false s
  exec op_checkmultisigverify f_exec pc s = exec_multisig true s
  exec _ f_exec pc s = err bad_opcode

  -- The instruction `opcode`, of which `vch` is the operand, or nothing in a branch that is not
  -- executed.
  unfoldable pub perform : ℕ → List ℕ → Bool → List ℕ → State → Outcome State
  unfolding code
  perform opcode vch f_exec pc s =
      if f_exec && leb opcode (code op_pushdata4)
      then (require (not (minimal && not (check_minimal_push vch opcode))) err_minimaldata
          >> ok (record s { stack = vch ∷ s.stack }))
      else if f_exec || (leb (code op_if) opcode && leb opcode (code op_endif))
      then exec (of_code opcode) f_exec pc s
      else ok s

  -- The opcodes up to OP_16 are not counted.
  unfoldable pub count_ops : ℕ → State → Outcome State
  unfolding code
  count_ops opcode s =
      if ltb (code op_16) opcode
      then (require (leb (s.op_count + 1) max_ops_per_script) op_count
          >> ok (record s { op_count = s.op_count + 1 }))
      else ok s

  -- The body of the loop, behind `GetOp`.
  unfoldable pub step : ℕ → List ℕ → List ℕ → State → Outcome State
  step opcode vch pc s = do
    require (leb (length vch) max_script_element_size) push_size
    s' ← count_ops opcode s
    require (not (is_disabled (of_code opcode))) disabled_opcode
    s'' ← perform opcode vch (all_true s.exec_stack) pc s'
    require (leb (length s''.stack + length s''.alt_stack) max_stack_size) stack_size
    ok s''

  -- The loop. An instruction takes a byte at least, so as many rounds as there are bytes are enough.
  unfoldable pub eval_loop : ℕ → List ℕ → State → Outcome State
  eval_loop f [] s = ok s
  eval_loop zero (b ∷ pc) s = stuck
  eval_loop (suc f) (b ∷ pc) s = do
    (opcode, vch, rest) ← or_fail (get_op (b ∷ pc)) bad_opcode
    s' ← step opcode vch rest s
    eval_loop f rest s'

  -- The stacks are what an earlier call left. The result is the state at the end of the script.
  unfoldable pub eval_script : List ℕ → Stack → Stack → Outcome State
  eval_script script stack alt_stack = do
    require (leb (length script) max_script_size) script_size
    s ← eval_loop (length script) script (start script stack alt_stack)
    require (length s.exec_stack == 0) unbalanced_conditional
    ok s
