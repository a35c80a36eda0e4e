-- ===== src/Script/Interp/Safety.antt =====
-- The limits of the state and the instructions of `evalScript` (src/MCP/MCP06/scriptInterpreter.cpp).
use metachain.Base.{
  leb, if_both, length, ℕ, ◌+◌, refl, Bool, true, false, not, ◌&&◌, ◌||◌, List, ◌∷◌, arith,
}
use metachain.Base.Bytes.{IsBytes}
use metachain.Script.Opcode.{
  opcodes, of_code, code-of_code, Opcode, op_0, op_pushdata1, op_pushdata2, op_pushdata4,
  op_1negate, op_reserved, op_1, op_2, op_3, op_4, op_5, op_6, op_7, op_8, op_9, op_10, op_11,
  op_12, op_13, op_14, op_15, op_16, op_nop, op_ver, op_if, op_notif, op_verif, op_vernotif,
  op_else, op_endif, op_verify, op_return, op_toaltstack, op_fromaltstack, op_2drop, op_2dup,
  op_3dup, op_2over, op_2rot, op_2swap, op_ifdup, op_depth, op_drop, op_dup, op_nip, op_over,
  op_pick, op_roll, op_rot, op_swap, op_tuck, op_cat, op_substr, op_left, op_right, op_size,
  op_invert, op_and, op_or, op_xor, op_equal, op_equalverify, op_reserved1, op_reserved2, op_1add,
  op_1sub, op_2mul, op_2div, op_negate, op_abs, op_not, op_0notequal, op_add, op_sub, op_mul,
  op_div, op_mod, op_lshift, op_rshift, op_booland, op_boolor, op_numequal, op_numequalverify,
  op_numnotequal, op_lessthan, op_greaterthan, op_lessthanorequal, op_greaterthanorequal, op_min,
  op_max, op_within, op_ripemd160, op_sha1, op_sha256, op_hash256, op_sha3_256, op_sha3_512,
  op_sha3_cshake, op_codeseparator, op_checksig, op_checksigverify, op_checkmultisig,
  op_checkmultisigverify, op_nop1, op_checklocktimeverify, op_checksequenceverify, op_nop4, op_nop5,
  op_nop6, op_nop7, op_nop8, op_nop9, op_nop10, op_smallinteger, op_pubkeys, op_pubkeyhash,
  op_pubkey, op_invalidopcode, other,
}
use metachain.Script.Outcome.{
  require, Ensures, Ensures-bind, Ensures->>, require-Ends, Ensures-require, push_size, stack_size,
  disabled_opcode, err_minimaldata, ok,
}
use metachain.Script.Encoding.{check_minimal_push}
use metachain.Script.Code.{max_script_element_size, max_stack_size}
use metachain.Script.Checker.{Checker}
use metachain.Script.Stack.Elements.{
  IsElement, IsStack, two_drop-IsStack, two_dup-IsStack, three_dup-IsStack, two_over-IsStack,
  two_rot-IsStack, two_swap-IsStack, if_dup-IsStack, drop_top-IsStack, dup-IsStack, nip-IsStack,
  over-IsStack, rot-IsStack, swap-IsStack, tuck-IsStack, equal-IsStack, equal_verify-IsStack,
  verify_top-IsStack, depth-IsStack, size-IsStack, pick-IsStack,
}
use metachain.Script.Numeric.{binary_num, num_equal_verify}
use metachain.Script.Numeric.Range.{
  is_unary, is_binary, unary_num-IsStack, binary_num-IsStack, num_equal_verify-IsStack,
  within-IsStack,
}
use metachain.Script.Machine.{State}
use metachain.Script.Machine.Elements.{hash_top-IsStack, check_sig-IsStack, Digests}
use metachain.Script.Interp.{is_disabled, all_true, exec, perform, count_ops, step}
use metachain.Script.Interp.Limits.{
  IsState, IsResult, on_stack-IsState, exec_if-IsState, flip_branch-Ends, end_branch-Ends,
  on_branches-IsState, to_alt_stack-IsState, from_alt_stack-IsState, push_number-IsStack,
  nop-IsState, exec_multisig-IsState,
}
use metachain.Script.Flags
use metachain.Script.Opcode

module _ (c : Checker) (flags : ℕ) where
  abbrev minimal : Bool
  minimal = Flags.has flags Flags.minimaldata

  -- Every operation keeps the limits of the elements, and reaches no failed assertion.
  exec-IsState :
      Digests c.crypto
      → (op : Opcode) (f_exec : Bool) (pc : List ℕ) (s : State) → IsState s
      → Ensures IsState (exec c flags op f_exec pc s)
  unfolding exec is_unary is_binary
  exec-IsState d op_1negate f_exec pc s h = on_stack-IsState _ s h (push_number-IsStack op_1negate)
  exec-IsState d op_1 f_exec pc s h = on_stack-IsState _ s h (push_number-IsStack op_1)
  exec-IsState d op_2 f_exec pc s h = on_stack-IsState _ s h (push_number-IsStack op_2)
  exec-IsState d op_3 f_exec pc s h = on_stack-IsState _ s h (push_number-IsStack op_3)
  exec-IsState d op_4 f_exec pc s h = on_stack-IsState _ s h (push_number-IsStack op_4)
  exec-IsState d op_5 f_exec pc s h = on_stack-IsState _ s h (push_number-IsStack op_5)
  exec-IsState d op_6 f_exec pc s h = on_stack-IsState _ s h (push_number-IsStack op_6)
  exec-IsState d op_7 f_exec pc s h = on_stack-IsState _ s h (push_number-IsStack op_7)
  exec-IsState d op_8 f_exec pc s h = on_stack-IsState _ s h (push_number-IsStack op_8)
  exec-IsState d op_9 f_exec pc s h = on_stack-IsState _ s h (push_number-IsStack op_9)
  exec-IsState d op_10 f_exec pc s h = on_stack-IsState _ s h (push_number-IsStack op_10)
  exec-IsState d op_11 f_exec pc s h = on_stack-IsState _ s h (push_number-IsStack op_11)
  exec-IsState d op_12 f_exec pc s h = on_stack-IsState _ s h (push_number-IsStack op_12)
  exec-IsState d op_13 f_exec pc s h = on_stack-IsState _ s h (push_number-IsStack op_13)
  exec-IsState d op_14 f_exec pc s h = on_stack-IsState _ s h (push_number-IsStack op_14)
  exec-IsState d op_15 f_exec pc s h = on_stack-IsState _ s h (push_number-IsStack op_15)
  exec-IsState d op_16 f_exec pc s h = on_stack-IsState _ s h (push_number-IsStack op_16)
  exec-IsState d op_nop f_exec pc s h = h
  exec-IsState d op_nop1 f_exec pc s h = nop-IsState c flags s h
  exec-IsState d op_nop4 f_exec pc s h = nop-IsState c flags s h
  exec-IsState d op_nop5 f_exec pc s h = nop-IsState c flags s h
  exec-IsState d op_nop6 f_exec pc s h = nop-IsState c flags s h
  exec-IsState d op_nop7 f_exec pc s h = nop-IsState c flags s h
  exec-IsState d op_nop8 f_exec pc s h = nop-IsState c flags s h
  exec-IsState d op_nop9 f_exec pc s h = nop-IsState c flags s h
  exec-IsState d op_nop10 f_exec pc s h = nop-IsState c flags s h
  exec-IsState d op_if f_exec pc s h = exec_if-IsState false f_exec s h
  exec-IsState d op_notif f_exec pc s h = exec_if-IsState true f_exec s h
  exec-IsState d op_else f_exec pc s h = on_branches-IsState _ s h flip_branch-Ends
  exec-IsState d op_endif f_exec pc s h = on_branches-IsState _ s h end_branch-Ends
  exec-IsState d op_verify f_exec pc s h = on_stack-IsState _ s h verify_top-IsStack
  exec-IsState d op_return f_exec pc s h = tt
  exec-IsState d op_toaltstack f_exec pc s h = to_alt_stack-IsState s h
  exec-IsState d op_fromaltstack f_exec pc s h = from_alt_stack-IsState s h
  exec-IsState d op_2drop f_exec pc s h = on_stack-IsState _ s h two_drop-IsStack
  exec-IsState d op_2dup f_exec pc s h = on_stack-IsState _ s h two_dup-IsStack
  exec-IsState d op_3dup f_exec pc s h = on_stack-IsState _ s h three_dup-IsStack
  exec-IsState d op_2over f_exec pc s h = on_stack-IsState _ s h two_over-IsStack
  exec-IsState d op_2rot f_exec pc s h = on_stack-IsState _ s h two_rot-IsStack
  exec-IsState d op_2swap f_exec pc s h = on_stack-IsState _ s h two_swap-IsStack
  exec-IsState d op_ifdup f_exec pc s h = on_stack-IsState _ s h if_dup-IsStack
  exec-IsState d op_depth f_exec pc s h = on_stack-IsState _ s h depth-IsStack
  exec-IsState d op_drop f_exec pc s h = on_stack-IsState _ s h drop_top-IsStack
  exec-IsState d op_dup f_exec pc s h = on_stack-IsState _ s h dup-IsStack
  exec-IsState d op_nip f_exec pc s h = on_stack-IsState _ s h nip-IsStack
  exec-IsState d op_over f_exec pc s h = on_stack-IsState _ s h over-IsStack
  exec-IsState d op_pick f_exec pc s h = on_stack-IsState _ s h (pick-IsStack minimal false)
  exec-IsState d op_roll f_exec pc s h = on_stack-IsState _ s h (pick-IsStack minimal true)
  exec-IsState d op_rot f_exec pc s h = on_stack-IsState _ s h rot-IsStack
  exec-IsState d op_swap f_exec pc s h = on_stack-IsState _ s h swap-IsStack
  exec-IsState d op_tuck f_exec pc s h = on_stack-IsState _ s h tuck-IsStack
  exec-IsState d op_size f_exec pc s h = on_stack-IsState _ s h size-IsStack
  exec-IsState d op_equal f_exec pc s h = on_stack-IsState _ s h equal-IsStack
  exec-IsState d op_equalverify f_exec pc s h = on_stack-IsState _ s h equal_verify-IsStack
  exec-IsState d op_1add f_exec pc s h =
      on_stack-IsState _ s h (unary_num-IsStack minimal op_1add refl)
  exec-IsState d op_1sub f_exec pc s h =
      on_stack-IsState _ s h (unary_num-IsStack minimal op_1sub refl)
  exec-IsState d op_negate f_exec pc s h =
      on_stack-IsState _ s h (unary_num-IsStack minimal op_negate refl)
  exec-IsState d op_abs f_exec pc s h =
      on_stack-IsState _ s h (unary_num-IsStack minimal op_abs refl)
  exec-IsState d op_not f_exec pc s h =
      on_stack-IsState _ s h (unary_num-IsStack minimal op_not refl)
  exec-IsState d op_0notequal f_exec pc s h =
      on_stack-IsState _ s h (unary_num-IsStack minimal op_0notequal refl)
  exec-IsState d op_add f_exec pc s h =
      on_stack-IsState _ s h (binary_num-IsStack minimal op_add refl)
  exec-IsState d op_sub f_exec pc s h =
      on_stack-IsState _ s h (binary_num-IsStack minimal op_sub refl)
  exec-IsState d op_booland f_exec pc s h =
      on_stack-IsState _ s h (binary_num-IsStack minimal op_booland refl)
  exec-IsState d op_boolor f_exec pc s h =
      on_stack-IsState _ s h (binary_num-IsStack minimal op_boolor refl)
  exec-IsState d op_numequal f_exec pc s h =
      on_stack-IsState _ s h (binary_num-IsStack minimal op_numequal refl)
  exec-IsState d op_numnotequal f_exec pc s h =
      on_stack-IsState _ s h (binary_num-IsStack minimal op_numnotequal refl)
  exec-IsState d op_lessthan f_exec pc s h =
      on_stack-IsState _ s h (binary_num-IsStack minimal op_lessthan refl)
  exec-IsState d op_greaterthan f_exec pc s h =
      on_stack-IsState _ s h (binary_num-IsStack minimal op_greaterthan refl)
  exec-IsState d op_lessthanorequal f_exec pc s h =
      on_stack-IsState _ s h (binary_num-IsStack minimal op_lessthanorequal refl)
  exec-IsState d op_greaterthanorequal f_exec pc s h =
      on_stack-IsState _ s h (binary_num-IsStack minimal op_greaterthanorequal refl)
  exec-IsState d op_min f_exec pc s h =
      on_stack-IsState _ s h (binary_num-IsStack minimal op_min refl)
  exec-IsState d op_max f_exec pc s h =
      on_stack-IsState _ s h (binary_num-IsStack minimal op_max refl)
  exec-IsState d op_numequalverify f_exec pc s h = on_stack-IsState _ s h (λ t ht.
      Ensures-bind IsStack IsStack (binary_num minimal op_numequalverify t) num_equal_verify
        (binary_num-IsStack minimal op_numequalverify refl t ht) num_equal_verify-IsStack)
  exec-IsState d op_within f_exec pc s h = on_stack-IsState _ s h (within-IsStack minimal)
  exec-IsState d op_ripemd160 f_exec pc s h =
      on_stack-IsState _ s h (hash_top-IsStack c flags d op_ripemd160)
  exec-IsState d op_sha1 f_exec pc s h = on_stack-IsState _ s h (hash_top-IsStack c flags d op_sha1)
  exec-IsState d op_sha256 f_exec pc s h =
      on_stack-IsState _ s h (hash_top-IsStack c flags d op_sha256)
  exec-IsState d op_hash256 f_exec pc s h =
      on_stack-IsState _ s h (hash_top-IsStack c flags d op_hash256)
  exec-IsState d op_sha3_256 f_exec pc s h =
      on_stack-IsState _ s h (hash_top-IsStack c flags d op_sha3_256)
  exec-IsState d op_sha3_512 f_exec pc s h =
      on_stack-IsState _ s h (hash_top-IsStack c flags d op_sha3_512)
  exec-IsState d op_sha3_cshake f_exec pc s h =
      on_stack-IsState _ s h (hash_top-IsStack c flags d op_sha3_cshake)
  exec-IsState d op_codeseparator f_exec pc s h = h
  exec-IsState d op_checksig f_exec pc s h =
      on_stack-IsState _ s h (check_sig-IsStack c flags false s.code_hash)
  exec-IsState d op_checksigverify f_exec pc s h =
      on_stack-IsState _ s h (check_sig-IsStack c flags true s.code_hash)
  exec-IsState d op_checkmultisig f_exec pc s h = exec_multisig-IsState c flags false s h
  exec-IsState d op_checkmultisigverify f_exec pc s h = exec_multisig-IsState c flags true s h
  exec-IsState d _ f_exec pc s h = tt

  count_ops-IsState : (o : ℕ) (s : State) → IsState s → Ensures IsState (count_ops c flags o s)
  unfolding count_ops
  count_ops-IsState o s h = ground arith

  perform-IsState :
      Digests c.crypto
      → (o : ℕ) (vch : List ℕ) (f_exec : Bool) (pc : List ℕ) (s : State) → IsElement vch
      → IsState s
      → Ensures IsState (perform c flags o vch f_exec pc s)
  unfolding perform
  perform-IsState d o vch f_exec pc s hv h =
      if_both (Ensures IsState) (f_exec && leb o (Opcode.code op_pushdata4))
        (λ _.
          Ensures->> IsState
            (require (not (minimal && not (check_minimal_push vch o))) err_minimaldata)
            (ok (record s { stack = vch ∷ s.stack })) (require-Ends _ _) ((hv, h.0), h.1, h.2))
        (λ _.
          if_both (Ensures IsState)
            (f_exec || (leb (Opcode.code op_if) o && leb o (Opcode.code op_endif))) {y = ok s}
            (λ _. exec-IsState d (of_code o) f_exec pc s h) (λ _. h))

  -- The state after an instruction.
  pub step-IsResult :
      Digests c.crypto
      → (o : ℕ) (vch pc : List ℕ) (s : State) → IsBytes vch
      → IsState s
      → Ensures IsResult (step c flags o vch pc s)
  unfolding step
  step-IsResult d o vch pc s hv h =
      Ensures-bind _ IsResult (require (leb (length vch) max_script_element_size) push_size) _
        (Ensures-require (leb (length vch) 520) push_size)
        (λ _ short.
          Ensures-bind IsState IsResult (count_ops c flags o s) _ (count_ops-IsState o s h)
            (λ s' h'.
              Ensures->> IsResult (require (not (is_disabled (of_code o))) disabled_opcode) _
                (require-Ends _ _)
                (Ensures-bind IsState IsResult (perform c flags o vch (all_true s.exec_stack) pc s')
                  _ (perform-IsState d o vch _ pc s' (hv, ground arith) h')
                  (λ s'' h''.
                    Ensures-bind _ IsResult
                      (require (leb (length s''.stack + length s''.alt_stack) max_stack_size)
                        stack_size)
                      _
                      (Ensures-require (leb (length s''.stack + length s''.alt_stack) 1000)
                        stack_size)
                      (λ _ le. (h'', ground arith))))))
