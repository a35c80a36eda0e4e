-- ===== src/Script/Interp/Syntax.antt =====
-- The instructions of a script that `evalScript` runs to its end
-- (src/MCP/MCP06/scriptInterpreter.cpp).
use metachain.Base.{
  ltb, leb, ◌==◌, if◌then◌else◌, if_both, length, ℕ, zero, suc, ◌+◌, ◌≤◌, ◌≡◌, refl, sym, subst,
  Bool, false, not, ◌&&◌, ◌||◌, Option, none, some, List, [], ◌∷◌, arith,
}
use metachain.Script.Opcode.{code, of_code, code-of_code, op_pushdata4, op_if, op_endif}
use metachain.Script.Outcome.{
  require, or_fail, Ensures-ok, OnOk, OnOk-bind, OnOk-any, OnOk-mono, OnOk-after, OnOk-ok,
  OnOk-require, OnOk-or_fail, script_size, push_size, stack_size, bad_opcode, disabled_opcode,
  unbalanced_conditional, err_minimaldata, ok,
}
use metachain.Script.Code.{max_script_element_size, max_script_size, max_stack_size, get_op}
use metachain.Script.Code.Scans.{AllOps, Parses}
use metachain.Script.Checker.{Checker}
use metachain.Script.Machine.{State}
use metachain.Script.Interp.{
  is_disabled, all_true, start, perform, count_ops, step, eval_loop, eval_script,
}
use metachain.Script.Interp.Nesting.{nest, nest_plain, Follows, exec-Follows}
use metachain.Script.Interp.Limits.{IsResult}
use metachain.Script.Interp.Total.{eval_script-IsResult}
use metachain.Script.Stack.Elements.{IsStack}
use metachain.Script.Machine.Elements.{Digests}
use metachain.Base.Bytes.{IsBytes}
use metachain.Script.Encoding.{check_minimal_push}
use metachain.Script.Stack.{Stack}
use metachain.Script.Flags

-- An instruction that is counted towards MAX_OPS_PER_SCRIPT.
abbrev pub counts : ℕ → ℕ
counts o = if ltb 0x60 o then 1 else 0

unfoldable pub counted : List (ℕ × List ℕ) → ℕ
counted [] = 0
counted ((o, vch) ∷ ops) = counts o + counted ops

-- The open conditionals behind the instructions, of which `n` are open in front of them.
unfoldable pub nesting : ℕ → List (ℕ × List ℕ) → Option ℕ
nesting n [] = some n
nesting n ((o, vch) ∷ ops) = elim (nest (of_code o) n) [ none ↦ none | some m ↦ nesting m ops ]

-- An instruction that the engine does not refuse wherever it stands.
abbrev pub IsAllowed : ℕ → List ℕ → Type 0
IsAllowed o vch = (is_disabled (of_code o) ≡ false) × (length vch ≤ 520)

nest-of_code : (o n : ℕ) → (leb 0x63 o && leb o 0x68) ≡ false → nest (of_code o) n ≡ some n
nest-of_code o n h =
    nest_plain (of_code o) n
      (subst (λ k. (leb 0x63 k && leb k 0x68) ≡ false) (sym (code-of_code o)) h)

count_ops-counts :
    (c : Checker) (flags o : ℕ) (s : State)
    → OnOk
        (λ s'. (s'.exec_stack ≡ s.exec_stack) × (s.op_count + counts o ≤ s'.op_count))
        (count_ops c flags o s)
unfolding count_ops code
count_ops-counts c flags o s = ground arith

module _ (c : Checker) (flags : ℕ) where
  perform-Follows :
      (o : ℕ) (vch : List ℕ) (f_exec : Bool) (pc : List ℕ) (s : State)
      → OnOk (Follows (of_code o) s) (perform c flags o vch f_exec pc s)
  unfolding perform code
  perform-Follows o vch f_exec pc s =
      if_both (OnOk (Follows (of_code o) s)) (f_exec && leb o (code op_pushdata4))
        (λ e.
          OnOk-bind (λ _. Unit) (Follows (of_code o) s)
            (require (not (Flags.has flags Flags.minimaldata && not (check_minimal_push vch o)))
              err_minimaldata)
            _ (OnOk-any _)
            (λ _ _. (nest-of_code o (length s.exec_stack) (ground arith), omega arith)))
        (λ _.
          if_both (OnOk (Follows (of_code o) s))
            (f_exec || (leb (code op_if) o && leb o (code op_endif))) {y = ok s}
            (λ _. exec-Follows c flags (of_code o) f_exec pc s)
            (λ e. (nest-of_code o (length s.exec_stack) (ground arith), omega arith)))

  -- One instruction.
  abbrev Taken : ℕ → List ℕ → State → State → Type 0
  Taken o vch s s' =
      IsAllowed o vch
      × (nest (of_code o) (length s.exec_stack) ≡ some (length s'.exec_stack))
      × (s.op_count + counts o ≤ s'.op_count)

  step-Taken :
      (o : ℕ) (vch pc : List ℕ) (s : State) → OnOk (Taken o vch s) (step c flags o vch pc s)
  unfolding step
  step-Taken o vch pc s =
      OnOk-bind _ (Taken o vch s) (require (leb (length vch) max_script_element_size) push_size) _
        (OnOk-require (leb (length vch) 520) push_size)
        (λ _ short.
          OnOk-bind _ (Taken o vch s) (count_ops c flags o s) _ (count_ops-counts c flags o s)
            (λ s1 h1.
              OnOk-bind _ (Taken o vch s) (require (not (is_disabled (of_code o))) disabled_opcode)
                _ (OnOk-require (not (is_disabled (of_code o))) disabled_opcode)
                (λ _ live.
                  OnOk-bind (Follows (of_code o) s1) (Taken o vch s)
                    (perform c flags o vch (all_true s.exec_stack) pc s1) _
                    (perform-Follows o vch _ pc s1)
                    (λ s2 h2.
                      OnOk-after (Taken o vch s)
                        (require (leb (length s2.stack + length s2.alt_stack) max_stack_size)
                          stack_size)
                        _
                        (λ _. (
                          (ground arith, ground arith),
                          subst (λ es. nest (of_code o) (length es) ≡ some (length s2.exec_stack))
                              h1.0 h2.0,
                          omega (arith, h1.1, h2.1),
                        ))))))

  -- The instructions of `pc`, run from `s` to `s'`.
  abbrev Ran : List ℕ → State → State → Type 0
  Ran pc s s' =
      (ops : List (ℕ × List ℕ)) × Parses pc ops
      × AllOps IsAllowed ops
      × (nesting (length s.exec_stack) ops ≡ some (length s'.exec_stack))
      × (s.op_count + counted ops ≤ s'.op_count)

  Ran-next :
      (pc vch rest : List ℕ) (o : ℕ) (s s1 s2 : State)
      → get_op pc ≡ some (o, vch, rest)
      → Taken o vch s s1
      → Ran rest s1 s2
      → Ran pc s s2
  unfolding nesting counted
  Ran-next pc vch rest o s s1 s2 e t (ops, p, a, n, k) =
      ((o, vch) ∷ ops, Parses.next e p, (t.0, a), rw (t.1, nesting) n, omega (arith, t.2, k))

  eval_loop-Ran : (f : ℕ) (pc : List ℕ) (s : State) → OnOk (Ran pc s) (eval_loop c flags f pc s)
  unfolding eval_loop
  eval_loop-Ran f [] s = unfold nesting counted in ([], Parses.done, tt, refl, omega arith)
  eval_loop-Ran zero (b ∷ pc) s = tt
  eval_loop-Ran (suc f) (b ∷ pc) s =
      OnOk-bind (λ r. get_op (b ∷ pc) ≡ some (r.0, r.1, r.2)) (Ran (b ∷ pc) s)
        (or_fail (get_op (b ∷ pc)) bad_opcode) _
        (OnOk-or_fail _ (get_op (b ∷ pc)) bad_opcode (λ r e. e))
        (λ r e.
          OnOk-bind (Taken r.0 r.1 s) (Ran (b ∷ pc) s) (step c flags r.0 r.1 r.2 s) _
            (step-Taken r.0 r.1 r.2 s)
            (λ s1 t.
              OnOk-mono (Ran r.2 s1) (Ran (b ∷ pc) s) (eval_loop c flags f r.2 s1)
                (eval_loop-Ran f r.2 s1) (λ s2 h. Ran-next (b ∷ pc) r.1 r.2 r.0 s s1 s2 e t h)))

  eval_script-Ran :
      (script : List ℕ) (stack alt_stack : Stack)
      → OnOk
          (λ s.
            (ops : List (ℕ × List ℕ)) × Parses script ops
            × AllOps IsAllowed ops
            × (nesting 0 ops ≡ some 0)
            × (counted ops ≤ s.op_count))
          (eval_script c flags script stack alt_stack)
  unfolding eval_script
  eval_script-Ran script stack alt =
      OnOk-after _ (require (leb (length script) max_script_size) script_size) _ (λ _.
        OnOk-bind (Ran script (start script stack alt)) _
          (eval_loop c flags (length script) script (start script stack alt)) _
          (eval_loop-Ran (length script) script (start script stack alt))
          (λ s (ops, p, a, n, k).
            OnOk-bind _ _ (require (length s.exec_stack == 0) unbalanced_conditional) _
              (OnOk-require (length s.exec_stack == 0) unbalanced_conditional)
              (λ _ e. (
                ops,
                p,
                a,
                subst (λ m. nesting 0 ops ≡ some m) (ground (arith)) n,
                omega (arith, k),
              ))))

  -- A script that `evalScript` runs to its end, from stacks within the limits, is a whole number of
  -- instructions, also in the branches that were not executed: none of them is disabled or pushes more
  -- than 520 bytes, every OP_IF and OP_NOTIF is closed and every OP_ELSE and OP_ENDIF belongs to one, and
  -- at most 201 opcodes are above OP_16. The hash functions are taken to return 20 and 32 bytes.
  pub eval_script-Parses :
      Digests c.crypto
      → (script : List ℕ) (stack alt_stack : Stack) (s : State) → IsBytes script
      → IsStack stack
      → IsStack alt_stack
      → length stack + length alt_stack ≤ 1000
      → eval_script c flags script stack alt_stack ≡ ok s
      → (ops : List (ℕ × List ℕ)) × Parses script ops
        × AllOps IsAllowed ops
        × (nesting 0 ops ≡ some 0)
        × (counted ops ≤ 201)
  eval_script-Parses d script stack alt s hb hs ha w e =
      let (ops, p, a, n, k) =
        OnOk-ok _ (eval_script c flags script stack alt) s (eval_script-Ran script stack alt) e in
      let (h, _) =
        Ensures-ok IsResult (eval_script c flags script stack alt) s
          (eval_script-IsResult c flags d script stack alt hb hs ha w) e in
      (ops, p, a, n, omega (arith, k, h.2))
