-- ===== src/Script/Verify/Result.antt =====
-- The outcomes of `verifyScript` (src/MCP/MCP06/scriptInterpreter.cpp).
use metachain.Base.{
  ◌==◌, if◌then◌else◌, length, ℕ, ◌≡◌, sym, subst, ◌≢◌, Bool, true, false, not, ◌&&◌, ◌||◌, List,
  [], ◌∷◌, arith,
}
use metachain.Base.Bytes.{IsBytes}
use metachain.Script.Outcome.{
  ◌>>◌, require, Ensures, Ensures-bind, Ensures->>, require-Ends, Ensures-ok, Outcome, sig_pushonly,
  ok,
}
use metachain.Script.Encoding.{cast_to_bool}
use metachain.Script.Code.{is_pay_to_script_hash, is_push_only}
use metachain.Script.Checker.{Checker}
use metachain.Script.Stack.{Stack}
use metachain.Script.Stack.Elements.{IsStack}
use metachain.Script.Machine.Elements.{Digests}
use metachain.Script.Interp.{eval_script}
use metachain.Script.Interp.Limits.{IsResult}
use metachain.Script.Interp.Total.{eval_script-IsResult}
use metachain.Script.Verify.{require_true, require_clean, verify_script}
use metachain.Script.Flags

-- The top of the stack counts as true.
unfoldable pub is_true_top : Stack → Bool
is_true_top [] = false
is_true_top (vch ∷ stack) = cast_to_bool vch

-- A stack that CLEANSTACK refuses.
unfoldable pub is_unclean : ℕ → Stack → Bool
is_unclean flags s =
    Flags.has flags Flags.cleanstack && (Flags.has flags Flags.p2sh || not (length s == 1))

require_true-Ensures : (s : Stack) → Ensures (λ _. is_true_top s ≡ true) (require_true s)
unfolding require_true is_true_top
require_true-Ensures s = ground arith

require_clean-Ensures :
    (flags : ℕ) (s : Stack) → Ensures (λ _. is_unclean flags s ≡ false) (require_clean flags s)
unfolding require_clean is_unclean
require_clean-Ensures flags s = ground arith

no_p2sh :
    (flags : ℕ) (s : Stack) (m : Outcome Stack)
    → Ensures (λ s'. s' ≡ s) (if Flags.has flags Flags.p2sh && false then m else ok s)
no_p2sh flags s m = ground arith

module _ (c : Checker) (flags : ℕ) where
  -- What a stack is after an accepted script: its elements are within the limits, its top counts as true,
  -- and CLEANSTACK does not refuse it.
  abbrev pub Accepted : Stack → Type 0
  Accepted s = IsStack s × (is_true_top s ≡ true) × (is_unclean flags s ≡ false)

  -- From empty stacks `verifyScript` always comes to success, to one of its errors, or to the undefined
  -- behaviour of `checkSignature`: no assertion fails, and its loops end. It accepts only with a stack within the limits whose top counts as true; with CLEANSTACK, only if that is the one
  -- element, and P2SH is not set. The hash functions are taken to return 20 and 32 bytes.
  pub verify_script-Accepted :
      Digests c.crypto
      → (script script_pub_key : List ℕ) → IsBytes script
      → IsBytes script_pub_key
      → Ensures Accepted (verify_script c flags script script_pub_key [] [])
  unfolding verify_script is_pay_to_script_hash
  verify_script-Accepted d script key hs hk =
      Ensures->> Accepted
        (require (not (Flags.has flags Flags.sigpushonly && not (is_push_only script)))
          sig_pushonly)
        _ (require-Ends _ _)
        (Ensures-bind IsResult Accepted (eval_script c flags script [] []) _
          (eval_script-IsResult c flags d script [] [] hs tt tt (omega arith))
          (λ s h.
            Ensures-bind IsResult Accepted (eval_script c flags key s.stack s.alt_stack) _
              (eval_script-IsResult c flags d key s.stack s.alt_stack hk h.0.0 h.0.1 h.1)
              (λ s' h'.
                Ensures-bind (λ _. is_true_top s'.stack ≡ true) Accepted (require_true s'.stack) _
                  (require_true-Ensures s'.stack)
                  (λ _ t.
                    Ensures-bind (λ s''. s'' ≡ s'.stack) Accepted _ _ (no_p2sh flags s'.stack _)
                      (λ s'' e.
                        subst (λ r. Ensures Accepted (require_clean flags r >> ok r)) (sym e)
                          (Ensures-bind (λ _. is_unclean flags s'.stack ≡ false) Accepted
                            (require_clean flags s'.stack) _ (require_clean-Ensures flags s'.stack)
                            (λ _ u. (h'.0.0, t, u))))))))

  -- With both CLEANSTACK and P2SH set, `verifyScript` accepts no two scripts, whatever they are. The hash
  -- functions are taken to return 20 and 32 bytes.
  pub verify_script_clean_p2sh :
      Digests c.crypto
      → (script script_pub_key : List ℕ) (stack : Stack) → IsBytes script
      → IsBytes script_pub_key
      → Flags.has flags Flags.cleanstack ≡ true
      → Flags.has flags Flags.p2sh ≡ true
      → verify_script c flags script script_pub_key [] [] ≢ ok stack
  unfolding is_unclean
  verify_script_clean_p2sh d script key stack hs hk hc hp e =
      let a =
        Ensures-ok Accepted (verify_script c flags script key [] []) stack
          (verify_script-Accepted d script key hs hk) e in
      ground (arith, a.2)
