-- ===== src/Script/Machine/Signatures.antt =====
-- What the operations on signatures of src/MCP/MCP06/scriptInterpreter.cpp can come to.
use metachain.Base.{
  ltb, ◌==◌, if◌then◌else◌, Bool-cases, get_elem?, ℕ, zero, suc, ◌+◌, ◌-◌, ◌≡◌, refl, ◌∙◌, inl, inr,
  Bool, true, false, List, [], ◌∷◌, arith,
}
use metachain.Script.Outcome.{
  ok, Outcome, ScriptError, require, or_fail, OnOk, OnOk-bind, OnOk-after, OnOk-mono, unknown_error,
  sig_nullfail, checksigverify,
}
use metachain.Script.Encoding.{check_signature_encoding, check_pub_key_encoding}
use metachain.Script.Checker.{account_of, verify_account, check_signature, Checker}
use metachain.Script.Stack.{Stack, vch_false}
use metachain.Script.Machine.{push_result, check_sig, multisig_loop}

-- `checkSignature` never returns true.
check_signature-false :
    (c : Checker) (sig key code : List ℕ) → OnOk (λ b. b ≡ false) (check_signature c sig key code)
unfolding check_signature account_of verify_account
check_signature-false c sig key code = ground arith

-- A stack after success of an operation that has pushed false; there is none after a VERIFY operation.
abbrev pub Unverified : Bool → Stack → Type 0
Unverified verify [] = ⊥
Unverified verify (vch ∷ s) = (verify ≡ false) × (vch ≡ vch_false)

push_result-Unverified :
    (v : Bool) (e : ScriptError) (s : Stack) → OnOk (Unverified v) (push_result v e false s)
unfolding push_result
push_result-Unverified v e s = ground arith

module _ (c : Checker) (flags : ℕ) where
  check_sig-Unverified :
      (v : Bool) (code : List ℕ) (stack : Stack)
      → OnOk (Unverified v) (check_sig c flags v code stack)
  unfolding check_sig
  check_sig-Unverified v code [] = tt
  check_sig-Unverified v code (x ∷ []) = tt
  check_sig-Unverified v code (key ∷ sig ∷ s) =
      OnOk-after (Unverified v) (check_signature_encoding sig flags) _ (λ _.
        OnOk-after (Unverified v) (check_pub_key_encoding key flags) _ (λ _.
          OnOk-bind (λ b. b ≡ false) (Unverified v) (check_signature c sig key _) _
            (check_signature-false c sig key _)
            (λ b e. rw e (
              OnOk-after (Unverified v) (require _ sig_nullfail) _
                (λ _. push_result-Unverified v checksigverify s)))))

  if_exit :
      (P : Bool → Type 0) (b : Bool) (m : Outcome Bool)
      → P false
      → OnOk P m
      → OnOk P (elim b [ true ↦ ok false | false ↦ m ])
  if_exit P true m h k = h
  if_exit P false m h k = k

  -- The loop of OP_CHECKMULTISIG ends with true only where no signature is wanted.
  multisig_loop-none :
      (f : ℕ) (code : List ℕ) (stack : Stack) (i j n k : ℕ)
      → OnOk (λ b. b ≡ (n == 0)) (multisig_loop c flags f code stack i j n k)
  unfolding multisig_loop
  multisig_loop-none zero code stack i j n k = tt
  multisig_loop-none (suc f) code stack i j n k = elim (Bool-cases (n == 0)) [
    | inl e ↦ rw (e, multisig_loop) refl
    | inr e ↦
        rw (e, multisig_loop)
          (OnOk-after (λ b. b ≡ false) (or_fail (get_elem? stack i) unknown_error) _
            (λ sig.
              OnOk-after (λ b. b ≡ false) (or_fail (get_elem? stack j) unknown_error) _
                (λ key.
                  OnOk-after (λ b. b ≡ false) (check_signature_encoding sig flags) _
                    (λ _.
                      OnOk-after (λ b. b ≡ false) (check_pub_key_encoding key flags) _
                        (λ _.
                          OnOk-bind (λ b. b ≡ false) (λ b. b ≡ false)
                            (check_signature c sig key code) _
                            (check_signature-false c sig key code)
                            (λ b eb.
                              let n' = (if b then n - 1 else n) in
                              if_exit (λ b'. b' ≡ false) (ltb (k - 1) n') _ refl
                                (OnOk-mono (λ b'. b' ≡ (n' == 0)) (λ b'. b' ≡ false) _
                                  (multisig_loop-none f code stack _ (j + 1) n' (k - 1))
                                  (λ b' h. h ∙ rw eb e))))))))
  ]

  -- No signature counts as valid: OP_CHECKSIGVERIFY never succeeds, OP_CHECKSIG pushes false if it succeeds,
  -- and if the loop of OP_CHECKMULTISIG ends with a result, that is true exactly if it wants no
  -- signature.
  pub check_sig_refuses :
      (v : Bool) (code : List ℕ) (stack : Stack) (f i j n k : ℕ)
      → OnOk (Unverified v) (check_sig c flags v code stack)
        × OnOk (λ b. b ≡ (n == 0)) (multisig_loop c flags f code stack i j n k)
  check_sig_refuses v code stack f i j n k =
      (check_sig-Unverified v code stack, multisig_loop-none f code stack i j n k)
