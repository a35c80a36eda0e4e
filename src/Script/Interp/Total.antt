-- ===== src/Script/Interp/Total.antt =====
-- The outcomes of `evalScript` as a whole (src/MCP/MCP06/scriptInterpreter.cpp).
use metachain.Base.{
  leb, ◌==◌, length, All-append_inv, ℕ, zero, suc, ◌+◌, ◌≤◌, ◌<◌, ◌≡◌, subst, some, List, [], ◌∷◌,
  ◌++◌, arith,
}
use metachain.Base.Bytes.{IsByte, IsBytes}
use metachain.Script.Outcome.{
  require, or_fail, Ensures, Ensures-bind, Ensures->>, require-Ends, Ensures-or_fail, script_size,
  bad_opcode, unbalanced_conditional, ok,
}
use metachain.Script.Code.{max_script_size, get_op}
use metachain.Script.Code.Reads.{get_op-Reads, get_op_shorter}
use metachain.Script.Checker.{Checker}
use metachain.Script.Stack.Elements.{IsStack}
use metachain.Script.Machine.{State}
use metachain.Script.Machine.Elements.{Digests}
use metachain.Script.Interp.{start, step, eval_loop, eval_script}
use metachain.Script.Interp.Limits.{IsState, IsWithin, IsResult}
use metachain.Script.Interp.Safety.{step-IsResult}
use metachain.Script.Stack.{Stack}

get_op-IsBytes :
    (pc : List ℕ) (o : ℕ) (vch rest : List ℕ)
    → IsBytes pc
    → get_op pc ≡ some (o, vch, rest)
    → IsBytes vch × IsBytes rest
get_op-IsBytes pc o vch rest h e =
    let r = get_op-Reads pc o vch rest e in
    let h' = subst IsBytes r.layout h in
    All-append_inv IsByte vch rest (All-append_inv IsByte r.size (vch ++ rest) h'.1).1

module _ (c : Checker) (flags : ℕ) where
  -- An instruction takes a byte at least, so as many rounds as bytes are enough.
  eval_loop-IsResult :
      Digests c.crypto
      → (f : ℕ) (pc : List ℕ) (s : State) → length pc ≤ f
      → IsBytes pc
      → IsState s
      → IsWithin s
      → Ensures IsResult (eval_loop c flags f pc s)
  unfolding eval_loop
  eval_loop-IsResult d f [] s le hb h w = (h, w)
  eval_loop-IsResult d zero (b ∷ pc) s le hb h w = absurd (omega arith)
  eval_loop-IsResult d (suc f) (b ∷ pc) s le hb h w =
      Ensures-bind (λ r. (IsBytes r.1 × IsBytes r.2) × (length r.2 < length (b ∷ pc))) IsResult
        (or_fail (get_op (b ∷ pc)) bad_opcode) _
        (Ensures-or_fail _ (get_op (b ∷ pc)) bad_opcode (λ r e.
          (get_op-IsBytes (b ∷ pc) r.0 r.1 r.2 hb e, get_op_shorter (b ∷ pc) r.0 r.1 r.2 e)))
        (λ r hr.
          Ensures-bind IsResult IsResult (step c flags r.0 r.1 r.2 s) _
            (step-IsResult c flags d r.0 r.1 r.2 s hr.0.0 h)
            (λ s' h'. eval_loop-IsResult d f r.2 s' (omega (arith, hr.1, le)) hr.0.1 h'.0 h'.1))

  -- Run from stacks of bytes within the limits, `evalScript` always comes to success, to one of its errors,
  -- or to the undefined behaviour of `checkSignature`: no assertion fails, nothing overflows an
  -- int64_t, and the loop ends. After success both stacks hold byte strings of at most 520 bytes, at most 1000 of them together, and at most 201 operations
  -- were counted. The hash functions are taken to return 20 and 32 bytes.
  pub eval_script-IsResult :
      Digests c.crypto
      → (script : List ℕ) (stack alt_stack : Stack) → IsBytes script
      → IsStack stack
      → IsStack alt_stack
      → length stack + length alt_stack ≤ 1000
      → Ensures IsResult (eval_script c flags script stack alt_stack)
  unfolding eval_script
  eval_script-IsResult d script stack alt hb hs ha w =
      Ensures->> IsResult (require (leb (length script) max_script_size) script_size) _
        (require-Ends _ _)
        (Ensures-bind IsResult IsResult
          (eval_loop c flags (length script) script (start script stack alt)) _
          (eval_loop-IsResult d (length script) script (start script stack alt) (omega arith) hb
            (hs, ha, omega arith) w)
          (λ s' h.
            Ensures->> IsResult (require (length s'.exec_stack == 0) unbalanced_conditional) (ok s')
              (require-Ends _ _) h))
