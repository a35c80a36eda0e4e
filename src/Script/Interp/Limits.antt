-- ===== src/Script/Interp/Limits.antt =====
-- The limits of a state of `evalScript` (src/MCP/MCP06/scriptInterpreter.cpp), and the parts of its
-- instructions.
use metachain.Base.{length, ℕ, ◌+◌, ◌≤◌, Bool, not, List, arith}
use metachain.Script.Opcode.{Opcode}
use metachain.Script.Outcome.{
  require, Ensures, Ensures-bind, Ends, Ensures->>, require-Ends, ScriptError, Outcome,
  invalid_stack_operation, invalid_altstack_operation, err_discourage_upgradable_nops,
}
use metachain.Script.Checker.{Checker}
use metachain.Script.Stack.Elements.{IsStack, serialize-IsElement}
use metachain.Script.Machine.{
  on_stack, take_condition, exec_if, flip_branch, end_branch, on_branches, move_top, to_alt_stack,
  from_alt_stack, check_multisig, State,
}
use metachain.Script.Machine.Elements.{check_multisig-Ensures}
use metachain.Script.Interp.{push_number, nop, exec_multisig}
use metachain.Script.Flags
use metachain.Script.Stack.{Stack}

-- The limits of the engine: elements are at most 520 bytes, and at most 201 operations are counted.
abbrev pub IsState : State → Type 0
IsState s = IsStack s.stack × IsStack s.alt_stack × (s.op_count ≤ 201)

-- The two stacks together.
abbrev pub IsWithin : State → Type 0
IsWithin s = length s.stack + length s.alt_stack ≤ 1000

-- Both, as after an instruction.
abbrev pub IsResult : State → Type 0
IsResult s = IsState s × IsWithin s

pub on_stack-IsState :
    (f : Stack → Outcome Stack) (s : State)
    → IsState s
    → ((t : Stack) → IsStack t → Ensures IsStack (f t))
    → Ensures IsState (on_stack f s)
unfolding on_stack
on_stack-IsState f s h k =
    Ensures-bind IsStack IsState (f s.stack) _ (k s.stack h.0) (λ t ht. (ht, h.1, h.2))

take_condition-IsStack :
    (n f : Bool) (s : Stack) → IsStack s → Ensures (λ r. IsStack r.1) (take_condition n f s)
unfolding take_condition
take_condition-IsStack n f s h = ground arith

pub exec_if-IsState : (n f : Bool) (s : State) → IsState s → Ensures IsState (exec_if n f s)
unfolding exec_if
exec_if-IsState n f s h =
    Ensures-bind (λ r. IsStack r.1) IsState (take_condition n f s.stack) _
      (take_condition-IsStack n f s.stack h.0) (λ r hr. (hr, h.1, h.2))

pub flip_branch-Ends : (bs : List Bool) → Ends (flip_branch bs)
unfolding flip_branch
flip_branch-Ends bs = ground arith

pub end_branch-Ends : (bs : List Bool) → Ends (end_branch bs)
unfolding end_branch
end_branch-Ends bs = ground arith

pub on_branches-IsState :
    (f : List Bool → Outcome (List Bool)) (s : State)
    → IsState s
    → ((bs : List Bool) → Ends (f bs))
    → Ensures IsState (on_branches f s)
unfolding on_branches
on_branches-IsState f s h k =
    Ensures-bind (λ _. Unit) IsState (f s.exec_stack) _ (k s.exec_stack) (λ t ht. h)

move_top-IsStack :
    (e : ScriptError) (s t : Stack)
    → IsStack s
    → IsStack t
    → Ensures (λ r. IsStack r.0 × IsStack r.1) (move_top e s t)
unfolding move_top
move_top-IsStack e s t h k = ground arith

pub to_alt_stack-IsState : (s : State) → IsState s → Ensures IsState (to_alt_stack s)
unfolding to_alt_stack
to_alt_stack-IsState s h =
    Ensures-bind _ IsState (move_top invalid_stack_operation s.stack s.alt_stack) _
      (move_top-IsStack _ s.stack s.alt_stack h.0 h.1) (λ r hr. (hr.0, hr.1, h.2))

pub from_alt_stack-IsState : (s : State) → IsState s → Ensures IsState (from_alt_stack s)
unfolding from_alt_stack
from_alt_stack-IsState s h =
    Ensures-bind _ IsState (move_top invalid_altstack_operation s.alt_stack s.stack) _
      (move_top-IsStack _ s.alt_stack s.stack h.1 h.0) (λ r hr. (hr.1, hr.0, h.2))

pub push_number-IsStack : (o : Opcode) (s : Stack) → IsStack s → Ensures IsStack (push_number o s)
unfolding push_number
push_number-IsStack o s h = (serialize-IsElement _, h)

module _ (c : Checker) (flags : ℕ) where
  pub nop-IsState : (s : State) → IsState s → Ensures IsState (nop c flags s)
  unfolding nop
  nop-IsState s h =
      Ensures->> IsState
        (require (not (Flags.has flags Flags.discourage_upgradable_nops))
          err_discourage_upgradable_nops)
        _ (require-Ends _ _) h

  pub exec_multisig-IsState :
      (v : Bool) (s : State) → IsState s → Ensures IsState (exec_multisig c flags v s)
  unfolding exec_multisig
  exec_multisig-IsState v s h =
      Ensures-bind _ IsState (check_multisig c flags v s.code_hash s.op_count s.stack) _
        (check_multisig-Ensures c flags v s.code_hash s.op_count s.stack h.0)
        (λ r hr. (hr.1, h.1, hr.0))
