-- ===== src/Script/Stack.antt =====
-- The stack operations of `evalScript` (src/MCP/MCP06/scriptInterpreter.cpp). The head of a list is
-- the back of `m_vecStack`, so `stacktop(-i)` is the element of index i - 1.
pub mod Elements
pub mod Algebra
use metachain.Base.{
  ℕ, zero, suc, ◌+◌, ◌-◌, Bool, true, false, Option, none, some, List, [], ◌∷◌, ltb, if◌then◌else◌,
  length, get_elem?, list_eq,
}
use metachain.Base.Int.{ℤ, pos, ltb_ℤ, magnitude}
use metachain.Script.Outcome.{
  Outcome, ok, err, ◌>>=◌, or_fail, invalid_stack_operation, equalverify, verify, unknown_error,
}
use metachain.Script.Num.{serialize, script_num, getint}
use metachain.Script.Encoding.{cast_to_bool}

abbrev pub Stack : Type 0
Stack = List (List ℕ)

abbrev pub vch_true : List ℕ
vch_true = 1 ∷ []

abbrev pub vch_false : List ℕ
vch_false = []

abbrev pub bool_vch : Bool → List ℕ
bool_vch b = if b then vch_true else vch_false

unfoldable pub two_drop : Stack → Outcome Stack
two_drop (x2 ∷ x1 ∷ s) = ok s
two_drop _ = err invalid_stack_operation

unfoldable pub two_dup : Stack → Outcome Stack
two_dup (x2 ∷ x1 ∷ s) = ok (x2 ∷ x1 ∷ x2 ∷ x1 ∷ s)
two_dup _ = err invalid_stack_operation

unfoldable pub three_dup : Stack → Outcome Stack
three_dup (x3 ∷ x2 ∷ x1 ∷ s) = ok (x3 ∷ x2 ∷ x1 ∷ x3 ∷ x2 ∷ x1 ∷ s)
three_dup _ = err invalid_stack_operation

unfoldable pub two_over : Stack → Outcome Stack
two_over (x4 ∷ x3 ∷ x2 ∷ x1 ∷ s) = ok (x2 ∷ x1 ∷ x4 ∷ x3 ∷ x2 ∷ x1 ∷ s)
two_over _ = err invalid_stack_operation

unfoldable pub two_rot : Stack → Outcome Stack
two_rot (x6 ∷ x5 ∷ x4 ∷ x3 ∷ x2 ∷ x1 ∷ s) = ok (x2 ∷ x1 ∷ x6 ∷ x5 ∷ x4 ∷ x3 ∷ s)
two_rot _ = err invalid_stack_operation

unfoldable pub two_swap : Stack → Outcome Stack
two_swap (x4 ∷ x3 ∷ x2 ∷ x1 ∷ s) = ok (x2 ∷ x1 ∷ x4 ∷ x3 ∷ s)
two_swap _ = err invalid_stack_operation

unfoldable pub if_dup : Stack → Outcome Stack
if_dup (x ∷ s) = ok (if cast_to_bool x then x ∷ x ∷ s else x ∷ s)
if_dup [] = err invalid_stack_operation

unfoldable pub depth : Stack → Outcome Stack
depth s = ok (serialize (pos (length s)) ∷ s)

unfoldable pub drop_top : Stack → Outcome Stack
drop_top (x ∷ s) = ok s
drop_top [] = err invalid_stack_operation

unfoldable pub dup : Stack → Outcome Stack
dup (x ∷ s) = ok (x ∷ x ∷ s)
dup [] = err invalid_stack_operation

unfoldable pub nip : Stack → Outcome Stack
nip (x2 ∷ x1 ∷ s) = ok (x2 ∷ s)
nip _ = err invalid_stack_operation

unfoldable pub over : Stack → Outcome Stack
over (x2 ∷ x1 ∷ s) = ok (x1 ∷ x2 ∷ x1 ∷ s)
over _ = err invalid_stack_operation

unfoldable pub rot : Stack → Outcome Stack
rot (x3 ∷ x2 ∷ x1 ∷ s) = ok (x1 ∷ x3 ∷ x2 ∷ s)
rot _ = err invalid_stack_operation

unfoldable pub swap : Stack → Outcome Stack
swap (x2 ∷ x1 ∷ s) = ok (x1 ∷ x2 ∷ s)
swap _ = err invalid_stack_operation

unfoldable pub tuck : Stack → Outcome Stack
tuck (x2 ∷ x1 ∷ s) = ok (x2 ∷ x1 ∷ x2 ∷ s)
tuck _ = err invalid_stack_operation

unfoldable pub size : Stack → Outcome Stack
size (x ∷ s) = ok (serialize (pos (length x)) ∷ x ∷ s)
size [] = err invalid_stack_operation

-- `m_vecStack.erase(m_vecStack.end() - n - 1)`
unfoldable pub erase_at : ℕ → Stack → Stack
erase_at n [] = []
erase_at zero (x ∷ s) = s
erase_at (suc n) (x ∷ s) = x ∷ erase_at n s

-- A number that is a place on the stack `s`: 0 <= n < s.size().
unfoldable pub place : ℤ → Stack → Outcome ℕ
place n s =
    if ltb_ℤ n (pos 0)
    then err invalid_stack_operation
    else if ltb (magnitude n) (length s)
    then ok (magnitude n)
    else err invalid_stack_operation

unfoldable pub pick : Bool → Bool → Stack → Outcome Stack
pick minimal roll (x1 ∷ x0 ∷ s) = do
  bn ← script_num minimal x1
  n ← place (getint bn) (x0 ∷ s)
  vch ← or_fail (get_elem? (x0 ∷ s) n) unknown_error
  ok (vch ∷ (if roll then erase_at n (x0 ∷ s) else x0 ∷ s))
pick minimal roll _ = err invalid_stack_operation

unfoldable pub equal : Stack → Outcome Stack
equal (x2 ∷ x1 ∷ s) = ok (bool_vch (list_eq x1 x2) ∷ s)
equal _ = err invalid_stack_operation

unfoldable pub equal_verify : Stack → Outcome Stack
equal_verify (x2 ∷ x1 ∷ s) = if list_eq x1 x2 then ok s else err equalverify
equal_verify _ = err invalid_stack_operation

unfoldable pub verify_top : Stack → Outcome Stack
verify_top (x ∷ s) = if cast_to_bool x then ok s else err verify
verify_top [] = err invalid_stack_operation
