-- ===== src/Script/Verify.antt =====
-- `verifyScript` of src/MCP/MCP06/scriptInterpreter.cpp.
pub mod Result
use metachain.Base.{
  ℕ, Bool, true, false, not, ◌&&◌, List, [], ◌∷◌, ltb, ◌==◌, if◌then◌else◌, length,
}
use metachain.Script.Outcome.{
  Outcome, ok, err, ◌>>=◌, ◌>>◌, require, eval_false, sig_pushonly, invalid_stack_operation,
  err_cleanstack,
}
use metachain.Script.Code.{is_push_only, is_pay_to_script_hash}
use metachain.Script.Flags
use metachain.Script.Encoding.{cast_to_bool}
use metachain.Script.Checker.{Checker}
use metachain.Script.Stack.{Stack}
use metachain.Script.Machine.{State}
use metachain.Script.Interp.{eval_script}

-- The two tests for `EVAL_FALSE`.
unfoldable pub require_true : Stack → Outcome (Unit {0})
require_true [] = err eval_false
require_true (vch ∷ stack) = require (cast_to_bool vch) eval_false

unfoldable pub require_clean : ℕ → Stack → Outcome (Unit {0})
require_clean flags stack =
    if Flags.has flags Flags.cleanstack
    then (require (not (Flags.has flags Flags.p2sh)) err_cleanstack
        >> require (length stack == 1) err_cleanstack)
    else ok tt

module _ (c : Checker) (flags : ℕ) where
  -- The script that stands on the copy of the stack, run on the rest of it. The result is the stack.
  unfoldable pub redeem : List ℕ → Stack → Stack → Outcome Stack
  redeem script stack_copy alt_stack = do
    require (is_push_only script) sig_pushonly
    elim stack_copy [
      | [] ↦ err invalid_stack_operation
      | pub_key ∷ stack ↦ do
        s ← eval_script c flags pub_key stack alt_stack
        require_true s.stack
        ok s.stack
    ]

  -- `script` is `m_Script`. The result is `m_vecStack` at the end.
  unfoldable pub verify_script : List ℕ → List ℕ → Stack → Stack → Outcome Stack
  verify_script script script_pub_key stack alt_stack = do
    require (not (Flags.has flags Flags.sigpushonly && not (is_push_only script))) sig_pushonly
    s ← eval_script c flags script stack alt_stack
    s' ← eval_script c flags script_pub_key s.stack s.alt_stack
    require_true s'.stack
    stack' ←
        (if Flags.has flags Flags.p2sh && is_pay_to_script_hash script_pub_key
          then redeem script s.stack s'.alt_stack
          else ok s'.stack)
    require_clean flags stack'
    ok stack'
