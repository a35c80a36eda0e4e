-- ===== src/Script/Interp/Nesting.antt =====
-- The conditionals of a script in `evalScript` (src/MCP/MCP06/scriptInterpreter.cpp).
use metachain.Base.{
  leb, length, ℕ, zero, suc, ◌+◌, ◌≤◌, ◌≡◌, refl, Bool, true, false, ◌&&◌, Option, none, some, List,
  arith,
}
use metachain.Script.Opcode.{
  code, Opcode, op_1negate, op_1, op_2, op_3, op_4, op_5, op_6, op_7, op_8, op_9, op_10, op_11,
  op_12, op_13, op_14, op_15, op_16, op_nop, op_if, op_notif, op_else, op_endif, op_verify,
  op_toaltstack, op_fromaltstack, op_2drop, op_2dup, op_3dup, op_2over, op_2rot, op_2swap, op_ifdup,
  op_depth, op_drop, op_dup, op_nip, op_over, op_pick, op_roll, op_rot, op_swap, op_tuck, op_size,
  op_equal, op_equalverify, op_1add, op_1sub, op_negate, op_abs, op_not, op_0notequal, op_add,
  op_sub, op_booland, op_boolor, op_numequal, op_numequalverify, op_numnotequal, op_lessthan,
  op_greaterthan, op_lessthanorequal, op_greaterthanorequal, op_min, op_max, op_within,
  op_ripemd160, op_sha1, op_sha256, op_hash256, op_sha3_256, op_sha3_512, op_sha3_cshake,
  op_codeseparator, op_checksig, op_checksigverify, op_checkmultisig, op_checkmultisigverify,
  op_nop1, op_nop4, op_nop5, op_nop6, op_nop7, op_nop8, op_nop9, op_nop10,
}
use metachain.Script.Outcome.{
  require, OnOk, OnOk-bind, OnOk-any, OnOk-after, Outcome, op_count, sig_count, pubkey_count,
  checkmultisigverify, invalid_stack_operation,
}
use metachain.Script.Checker.{Checker}
use metachain.Script.Code.{max_ops_per_script, max_pubkeys_per_multisig}
use metachain.Script.Machine.{
  on_stack, take_condition, exec_if, flip_branch, end_branch, on_branches, move_top, to_alt_stack,
  from_alt_stack, push_result, delete_signatures, multisig_loop, clean_up, pop_dummy, count_at,
  check_multisig, State,
}
use metachain.Script.Interp.{nop, exec_multisig, exec}
use metachain.Script.Stack.{Stack}

-- How many conditionals are open behind an instruction in front of which `n` are; `none` where it
-- closes, or turns, one that is not open.
unfoldable pub nest : Opcode → ℕ → Option ℕ
nest op_if n = some (suc n)
nest op_notif n = some (suc n)
nest op_else zero = none
nest op_else (suc n) = some (suc n)
nest op_endif zero = none
nest op_endif (suc n) = some n
nest _ n = some n

pub nest_plain :
    (o : Opcode) (n : ℕ) → (leb 0x63 (code o) && leb (code o) 0x68) ≡ false → nest o n ≡ some n
unfolding nest code
nest_plain o n h = ground arith

-- From state `s` an instruction that nests as `o` does comes to `s'`.
abbrev pub Follows : Opcode → State → State → Type 0
Follows o s s' =
    (nest o (length s.exec_stack) ≡ some (length s'.exec_stack)) × (s.op_count ≤ s'.op_count)

abbrev Keeps : State → State → Type 0
Keeps s s' = (some (length s.exec_stack) ≡ some (length s'.exec_stack)) × (s.op_count ≤ s'.op_count)

on_stack-Keeps : (f : Stack → Outcome Stack) (s : State) → OnOk (Keeps s) (on_stack f s)
unfolding on_stack
on_stack-Keeps f s =
    OnOk-bind (λ _. Unit) (Keeps s) (f s.stack) _ (OnOk-any (f s.stack))
      (λ t _. (refl, omega arith))

exec_if-Opens :
    (n f : Bool) (s : State)
    → OnOk
        (λ s'.
          (some (suc (length s.exec_stack)) ≡ some (length s'.exec_stack))
          × (s.op_count ≤ s'.op_count))
        (exec_if n f s)
unfolding exec_if
exec_if-Opens n f s =
    OnOk-bind (λ _. Unit) _ (take_condition n f s.stack) _ (OnOk-any (take_condition n f s.stack))
      (λ t _. (refl, omega arith))

abbrev Later : ℕ → ℕ × Stack → Type 0
Later n r = n ≤ r.0

module _ (c : Checker) (flags : ℕ) where
  nop-Keeps : (s : State) → OnOk (Keeps s) (nop c flags s)
  unfolding nop
  nop-Keeps s = ground arith

  check_multisig-Later :
      (v : Bool) (script : List ℕ) (n : ℕ) (s : Stack)
      → OnOk (Later n) (check_multisig c flags v script n s)
  unfolding check_multisig
  check_multisig-Later v script n s =
      OnOk-after (Later n) (require (leb 1 (length s)) invalid_stack_operation) _ (λ _.
        OnOk-after (Later n) (count_at c flags 0 max_pubkeys_per_multisig pubkey_count s) _ (λ k.
          OnOk-after (Later n) (require (leb (n + k) max_ops_per_script) op_count) _ (λ _.
            OnOk-after (Later n) (require (leb (k + 2) (length s)) invalid_stack_operation) _ (λ _.
              OnOk-after (Later n) (count_at c flags (k + 1) k sig_count s) _ (λ m.
                OnOk-after (Later n) (require (leb (k + m + 3) (length s)) invalid_stack_operation)
                  _
                  (λ _.
                    OnOk-after (Later n) (delete_signatures c flags m (k + 2) s script) _ (λ code.
                      OnOk-after (Later n) (multisig_loop c flags (k + 1) code s (k + 2) 1 m k) _
                        (λ b.
                          OnOk-after (Later n) (clean_up c flags b (k + m + 2) (k + 2) s) _ (λ rest.
                            OnOk-after (Later n) (pop_dummy c flags rest) _ (λ rest'.
                              OnOk-after (Later n) (push_result v checkmultisigverify b rest') _
                                (λ r. omega arith)))))))))))

  exec_multisig-Keeps : (v : Bool) (s : State) → OnOk (Keeps s) (exec_multisig c flags v s)
  unfolding exec_multisig
  exec_multisig-Keeps v s =
      OnOk-bind (λ r. s.op_count ≤ r.0) (Keeps s)
        (check_multisig c flags v s.code_hash s.op_count s.stack) _
        (check_multisig-Later v s.code_hash s.op_count s.stack) (λ r h. (refl, h))

  pub exec-Follows :
      (op : Opcode) (f_exec : Bool) (pc : List ℕ) (s : State)
      → OnOk (Follows op s) (exec c flags op f_exec pc s)
  unfolding exec nest on_branches flip_branch end_branch to_alt_stack from_alt_stack move_top
  exec-Follows op_1negate f_exec pc s = on_stack-Keeps _ s
  exec-Follows op_1 f_exec pc s = on_stack-Keeps _ s
  exec-Follows op_2 f_exec pc s = on_stack-Keeps _ s
  exec-Follows op_3 f_exec pc s = on_stack-Keeps _ s
  exec-Follows op_4 f_exec pc s = on_stack-Keeps _ s
  exec-Follows op_5 f_exec pc s = on_stack-Keeps _ s
  exec-Follows op_6 f_exec pc s = on_stack-Keeps _ s
  exec-Follows op_7 f_exec pc s = on_stack-Keeps _ s
  exec-Follows op_8 f_exec pc s = on_stack-Keeps _ s
  exec-Follows op_9 f_exec pc s = on_stack-Keeps _ s
  exec-Follows op_10 f_exec pc s = on_stack-Keeps _ s
  exec-Follows op_11 f_exec pc s = on_stack-Keeps _ s
  exec-Follows op_12 f_exec pc s = on_stack-Keeps _ s
  exec-Follows op_13 f_exec pc s = on_stack-Keeps _ s
  exec-Follows op_14 f_exec pc s = on_stack-Keeps _ s
  exec-Follows op_15 f_exec pc s = on_stack-Keeps _ s
  exec-Follows op_16 f_exec pc s = on_stack-Keeps _ s
  exec-Follows op_nop f_exec pc s = (refl, omega arith)
  exec-Follows op_nop1 f_exec pc s = nop-Keeps s
  exec-Follows op_nop4 f_exec pc s = nop-Keeps s
  exec-Follows op_nop5 f_exec pc s = nop-Keeps s
  exec-Follows op_nop6 f_exec pc s = nop-Keeps s
  exec-Follows op_nop7 f_exec pc s = nop-Keeps s
  exec-Follows op_nop8 f_exec pc s = nop-Keeps s
  exec-Follows op_nop9 f_exec pc s = nop-Keeps s
  exec-Follows op_nop10 f_exec pc s = nop-Keeps s
  exec-Follows op_if f_exec pc s = exec_if-Opens false f_exec s
  exec-Follows op_notif f_exec pc s = exec_if-Opens true f_exec s
  exec-Follows op_else f_exec pc s = ground arith
  exec-Follows op_endif f_exec pc s = ground arith
  exec-Follows op_verify f_exec pc s = on_stack-Keeps _ s
  exec-Follows op_toaltstack f_exec pc s = ground arith
  exec-Follows op_fromaltstack f_exec pc s = ground arith
  exec-Follows op_2drop f_exec pc s = on_stack-Keeps _ s
  exec-Follows op_2dup f_exec pc s = on_stack-Keeps _ s
  exec-Follows op_3dup f_exec pc s = on_stack-Keeps _ s
  exec-Follows op_2over f_exec pc s = on_stack-Keeps _ s
  exec-Follows op_2rot f_exec pc s = on_stack-Keeps _ s
  exec-Follows op_2swap f_exec pc s = on_stack-Keeps _ s
  exec-Follows op_ifdup f_exec pc s = on_stack-Keeps _ s
  exec-Follows op_depth f_exec pc s = on_stack-Keeps _ s
  exec-Follows op_drop f_exec pc s = on_stack-Keeps _ s
  exec-Follows op_dup f_exec pc s = on_stack-Keeps _ s
  exec-Follows op_nip f_exec pc s = on_stack-Keeps _ s
  exec-Follows op_over f_exec pc s = on_stack-Keeps _ s
  exec-Follows op_pick f_exec pc s = on_stack-Keeps _ s
  exec-Follows op_roll f_exec pc s = on_stack-Keeps _ s
  exec-Follows op_rot f_exec pc s = on_stack-Keeps _ s
  exec-Follows op_swap f_exec pc s = on_stack-Keeps _ s
  exec-Follows op_tuck f_exec pc s = on_stack-Keeps _ s
  exec-Follows op_size f_exec pc s = on_stack-Keeps _ s
  exec-Follows op_equal f_exec pc s = on_stack-Keeps _ s
  exec-Follows op_equalverify f_exec pc s = on_stack-Keeps _ s
  exec-Follows op_1add f_exec pc s = on_stack-Keeps _ s
  exec-Follows op_1sub f_exec pc s = on_stack-Keeps _ s
  exec-Follows op_negate f_exec pc s = on_stack-Keeps _ s
  exec-Follows op_abs f_exec pc s = on_stack-Keeps _ s
  exec-Follows op_not f_exec pc s = on_stack-Keeps _ s
  exec-Follows op_0notequal f_exec pc s = on_stack-Keeps _ s
  exec-Follows op_add f_exec pc s = on_stack-Keeps _ s
  exec-Follows op_sub f_exec pc s = on_stack-Keeps _ s
  exec-Follows op_booland f_exec pc s = on_stack-Keeps _ s
  exec-Follows op_boolor f_exec pc s = on_stack-Keeps _ s
  exec-Follows op_numequal f_exec pc s = on_stack-Keeps _ s
  exec-Follows op_numnotequal f_exec pc s = on_stack-Keeps _ s
  exec-Follows op_lessthan f_exec pc s = on_stack-Keeps _ s
  exec-Follows op_greaterthan f_exec pc s = on_stack-Keeps _ s
  exec-Follows op_lessthanorequal f_exec pc s = on_stack-Keeps _ s
  exec-Follows op_greaterthanorequal f_exec pc s = on_stack-Keeps _ s
  exec-Follows op_min f_exec pc s = on_stack-Keeps _ s
  exec-Follows op_max f_exec pc s = on_stack-Keeps _ s
  exec-Follows op_numequalverify f_exec pc s = on_stack-Keeps _ s
  exec-Follows op_within f_exec pc s = on_stack-Keeps _ s
  exec-Follows op_ripemd160 f_exec pc s = on_stack-Keeps _ s
  exec-Follows op_sha1 f_exec pc s = on_stack-Keeps _ s
  exec-Follows op_sha256 f_exec pc s = on_stack-Keeps _ s
  exec-Follows op_hash256 f_exec pc s = on_stack-Keeps _ s
  exec-Follows op_sha3_256 f_exec pc s = on_stack-Keeps _ s
  exec-Follows op_sha3_512 f_exec pc s = on_stack-Keeps _ s
  exec-Follows op_sha3_cshake f_exec pc s = on_stack-Keeps _ s
  exec-Follows op_codeseparator f_exec pc s = (refl, omega arith)
  exec-Follows op_checksig f_exec pc s = on_stack-Keeps _ s
  exec-Follows op_checksigverify f_exec pc s = on_stack-Keeps _ s
  exec-Follows op_checkmultisig f_exec pc s = exec_multisig-Keeps false s
  exec-Follows op_checkmultisigverify f_exec pc s = exec_multisig-Keeps true s
  exec-Follows _ f_exec pc s = tt
