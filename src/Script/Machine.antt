-- ===== src/Script/Machine.antt =====
-- The state of `evalScript` (src/MCP/MCP06/scriptInterpreter.cpp) and the operations that use more of
-- it than the stack: conditionals, the alternative stack, hashes and signatures.
pub mod Elements
pub mod Signatures
use metachain.Base.{
  ℕ, zero, suc, ◌+◌, ◌-◌, Bool, true, false, not, ◌&&◌, ◌||◌, List, [], ◌∷◌, ltb, leb, ◌==◌,
  if◌then◌else◌, length, get_elem?, replicate, drop,
}
use metachain.Base.Int.{ℤ, pos, ltb_ℤ, magnitude}
use metachain.Script.Opcode.{Opcode, op_ripemd160, op_sha1, op_sha256, op_hash256}
use metachain.Script.Outcome.{
  ScriptError, Outcome, ok, err, stuck, ◌>>=◌, ◌>>◌, require, or_fail, unknown_error, op_count,
  pubkey_count, sig_count, invalid_stack_operation, invalid_altstack_operation,
  unbalanced_conditional, sig_nullfail, sig_nulldummy, checksigverify, checkmultisigverify,
}
use metachain.Script.Num.{script_num, getint}
use metachain.Script.Code.{find_and_delete, push_data, max_ops_per_script, max_pubkeys_per_multisig}
use metachain.Script.Flags
use metachain.Script.Encoding.{cast_to_bool, check_signature_encoding, check_pub_key_encoding}
use metachain.Script.Checker.{Checker, check_signature}
use metachain.Script.Stack.{Stack, bool_vch}

-- The members `m_vecStack` and `m_vecAltStack`, and the locals `vfExec`, `nOpCount` and
-- `pbegincodehash`. The head of each list is the back of the vector.
pub record State : Type 0 where
  pub stack : Stack
  pub alt_stack : Stack
  pub exec_stack : List Bool
  pub op_count : ℕ
  pub code_hash : List ℕ

unfoldable pub on_stack : (Stack → Outcome Stack) → State → Outcome State
on_stack f s = do stack ← f s.stack; ok (record s { stack = stack })

-- OP_IF and OP_NOTIF; in a branch that is not executed the condition counts as false.
unfoldable pub take_condition : Bool → Bool → Stack → Outcome (Bool × Stack)
take_condition notif false stack = ok (false, stack)
take_condition notif true [] = err unbalanced_conditional
take_condition notif true (vch ∷ stack) =
    ok (if notif then not (cast_to_bool vch) else cast_to_bool vch, stack)

unfoldable pub exec_if : Bool → Bool → State → Outcome State
exec_if notif f_exec s = do
  (value, stack) ← take_condition notif f_exec s.stack
  ok (record s { stack = stack; exec_stack = value ∷ s.exec_stack })

unfoldable pub flip_branch : List Bool → Outcome (List Bool)
flip_branch [] = err unbalanced_conditional
flip_branch (b ∷ bs) = ok (not b ∷ bs)

unfoldable pub end_branch : List Bool → Outcome (List Bool)
end_branch [] = err unbalanced_conditional
end_branch (b ∷ bs) = ok bs

unfoldable pub on_branches : (List Bool → Outcome (List Bool)) → State → Outcome State
on_branches f s = do branches ← f s.exec_stack; ok (record s { exec_stack = branches })

-- An element from one stack to the other: from the first to the second.
unfoldable pub move_top : ScriptError → Stack → Stack → Outcome (Stack × Stack)
move_top e [] to = err e
move_top e (vch ∷ from) to = ok (from, vch ∷ to)

unfoldable pub to_alt_stack : State → Outcome State
to_alt_stack s = do
  (stack, alt) ← move_top invalid_stack_operation s.stack s.alt_stack
  ok (record s { stack = stack; alt_stack = alt })

unfoldable pub from_alt_stack : State → Outcome State
from_alt_stack s = do
  (alt, stack) ← move_top invalid_altstack_operation s.alt_stack s.stack
  ok (record s { stack = stack; alt_stack = alt })

-- A VERIFY operation behind one that pushed `success`.
unfoldable pub push_result : Bool → ScriptError → Bool → Stack → Outcome Stack
push_result false e success stack = ok (bool_vch success ∷ stack)
push_result true e success stack = if success then ok stack else err e

module _ (c : Checker) (flags : ℕ) where
  -- The vector of 20 or 32 zero bytes stays as it is for the SHA3 operations.
  unfoldable pub hash_of : Opcode → List ℕ → List ℕ
  hash_of op_ripemd160 vch = c.crypto.ripemd160 vch
  hash_of op_sha1 vch = c.crypto.sha1 vch
  hash_of op_sha256 vch = c.crypto.sha256 vch
  hash_of op_hash256 vch = c.crypto.hash256 vch
  hash_of _ vch = replicate 32 0

  unfoldable pub hash_top : Opcode → Stack → Outcome Stack
  hash_top op [] = err invalid_stack_operation
  hash_top op (vch ∷ stack) = ok (hash_of op vch ∷ stack)

  -- OP_CHECKSIG and OP_CHECKSIGVERIFY, over the script from the last code separator on.
  unfoldable pub check_sig : Bool → List ℕ → Stack → Outcome Stack
  check_sig verify code_hash (key ∷ sig ∷ stack) = do
    let script_code = (find_and_delete (push_data sig) code_hash).1
    check_signature_encoding sig flags
    check_pub_key_encoding key flags
    success ← check_signature c sig key script_code
    require (not (not success && (Flags.has flags Flags.nullfail && ltb 0 (length sig))))
        sig_nullfail
    push_result verify checksigverify success stack
  check_sig verify code_hash _ = err invalid_stack_operation

  -- The script without the signatures, of which `n` stand from index `i` on.
  unfoldable pub delete_signatures : ℕ → ℕ → Stack → List ℕ → Outcome (List ℕ)
  delete_signatures zero i stack code = ok code
  delete_signatures (suc n) i stack code = do
    sig ← or_fail (get_elem? stack i) unknown_error
    delete_signatures n (i + 1) stack (find_and_delete (push_data sig) code).1

  -- The loop over keys and signatures; indices count from 0. Each round uses a key up, so one round
  -- more than there are keys is enough.
  unfoldable pub multisig_loop : ℕ → List ℕ → Stack → ℕ → ℕ → ℕ → ℕ → Outcome Bool
  multisig_loop zero code stack i_sig i_key n_sigs n_keys = stuck
  multisig_loop (suc f) code stack i_sig i_key n_sigs n_keys = elim (n_sigs == 0) [
    | true ↦ ok true
    | false ↦ do
      sig ← or_fail (get_elem? stack i_sig) unknown_error
      key ← or_fail (get_elem? stack i_key) unknown_error
      check_signature_encoding sig flags
      check_pub_key_encoding key flags
      fok ← check_signature c sig key code
      let i_sig' = (if fok then i_sig + 1 else i_sig)
      let n_sigs' = (if fok then n_sigs - 1 else n_sigs)
      elim (ltb (n_keys - 1) n_sigs') [
        | true ↦ ok false
        | false ↦ multisig_loop f code stack i_sig' (i_key + 1) n_sigs' (n_keys - 1)
      ]
  ]

  -- The loop that pops the arguments: `n` elements, of which the first `i_key2` are no signatures.
  unfoldable pub clean_up : Bool → ℕ → ℕ → Stack → Outcome Stack
  clean_up success zero i_key2 stack = ok stack
  clean_up success (suc n) i_key2 [] = err unknown_error
  clean_up success (suc n) i_key2 (vch ∷ stack) = do
    require
        (not
          (not success && (Flags.has flags Flags.nullfail && (i_key2 == 0 && ltb 0 (length vch)))))
        sig_nullfail
    clean_up success n (i_key2 - 1) stack

  -- The element that OP_CHECKMULTISIG consumes besides.
  unfoldable pub pop_dummy : Stack → Outcome Stack
  pop_dummy [] = err invalid_stack_operation
  pop_dummy (vch ∷ stack) = do
    require (not (Flags.has flags Flags.nulldummy && ltb 0 (length vch))) sig_nulldummy
    ok stack

  -- A count on the stack: an integer from 0 to `most`.
  unfoldable pub count_at : ℕ → ℕ → ScriptError → Stack → Outcome ℕ
  count_at i most e stack = do
    vch ← or_fail (get_elem? stack i) unknown_error
    bn ← script_num (Flags.has flags Flags.minimaldata) vch
    let n = getint bn
    if ltb_ℤ n (pos 0) || ltb_ℤ (pos most) n then err e else ok (magnitude n)

  -- The result is the operation count and the stack.
  unfoldable pub check_multisig : Bool → List ℕ → ℕ → Stack → Outcome (ℕ × Stack)
  check_multisig verify code_hash n_op_count stack = do
    require (leb 1 (length stack)) invalid_stack_operation
    n_keys ← count_at 0 max_pubkeys_per_multisig pubkey_count stack
    let op_count' = n_op_count + n_keys
    require (leb op_count' max_ops_per_script) op_count
    require (leb (n_keys + 2) (length stack)) invalid_stack_operation
    n_sigs ← count_at (n_keys + 1) n_keys sig_count stack
    require (leb (n_keys + n_sigs + 3) (length stack)) invalid_stack_operation
    code ← delete_signatures n_sigs (n_keys + 2) stack code_hash
    success ← multisig_loop (n_keys + 1) code stack (n_keys + 2) 1 n_sigs n_keys
    rest ← clean_up success (n_keys + n_sigs + 2) (n_keys + 2) stack
    rest' ← pop_dummy rest
    result ← push_result verify checkmultisigverify success rest'
    ok (op_count', result)
