-- ===== src/Script/Stack/Algebra.antt =====
-- Compositions of the stack operations of `evalScript` (src/MCP/MCP06/scriptInterpreter.cpp).
use metachain.Base.{
  ltb, if◌then◌else◌, Bool-cases, length, get_elem?, ℕ, zero, suc, ◌^◌, ◌<◌, ◌≡◌, refl, ap, inl,
  inr, Bool, true, false, none, some, List, [], ◌∷◌, ◌++◌, take, drop, arith,
}
use metachain.Base.Int.{pos}
use metachain.Script.Outcome.{◌>>=◌, Outcome, invalid_stack_operation, ok, err}
use metachain.Script.Num.{serialize, getint}
use metachain.Script.Num.RoundTrip.{script_num-serialize}
use metachain.Script.Stack.{
  Stack, two_drop, two_dup, two_rot, two_swap, drop_top, dup, nip, over, rot, swap, tuck, erase_at,
  place, pick,
}

-- ROT three times, SWAP twice, 2ROT three times and 2SWAP twice change nothing, wherever there are
-- enough elements.
pub rearrange_cycles :
    (x6 x5 x4 x3 x2 x1 : List ℕ) (s : Stack)
    → ((rot (x6 ∷ x5 ∷ x4 ∷ s) >>= rot >>= rot) ≡ ok (x6 ∷ x5 ∷ x4 ∷ s))
      × ((swap (x6 ∷ x5 ∷ s) >>= swap) ≡ ok (x6 ∷ x5 ∷ s))
      × ((two_rot (x6 ∷ x5 ∷ x4 ∷ x3 ∷ x2 ∷ x1 ∷ s) >>= two_rot >>= two_rot)
          ≡ ok (x6 ∷ x5 ∷ x4 ∷ x3 ∷ x2 ∷ x1 ∷ s))
      × ((two_swap (x6 ∷ x5 ∷ x4 ∷ x3 ∷ s) >>= two_swap) ≡ ok (x6 ∷ x5 ∷ x4 ∷ x3 ∷ s))
unfolding rot swap two_rot two_swap
rearrange_cycles x6 x5 x4 x3 x2 x1 s = (refl, refl, refl, refl)

-- TUCK is SWAP OVER, NIP is SWAP DROP, 2DUP is OVER OVER and 2DROP is DROP DROP, on every stack and
-- in the error on a short one.
pub compose_equal :
    (s : Stack)
    → (tuck s ≡ (swap s >>= over))
      × (nip s ≡ (swap s >>= drop_top))
      × (two_dup s ≡ (over s >>= over))
      × (two_drop s ≡ (drop_top s >>= drop_top))
unfolding tuck swap over nip drop_top two_dup two_drop
compose_equal s = ground arith

get_elem?-none : (s : Stack) (n : ℕ) → ltb n (length s) ≡ false → get_elem? s n ≡ none
get_elem?-none [] n h = refl
get_elem?-none (x ∷ s) zero h = ground arith
get_elem?-none (x ∷ s) (suc n) h = get_elem?-none s n (ground arith)

get_elem?-some :
    (s : Stack) (n : ℕ) → ltb n (length s) ≡ true → (v : List ℕ) × (get_elem? s n ≡ some v)
get_elem?-some [] n h = ground arith
get_elem?-some (x ∷ s) zero h = (x, refl)
get_elem?-some (x ∷ s) (suc n) h = get_elem?-some s n (ground arith)

getint_small : (n : ℕ) → n < 2 ^ 31 → getint (pos n) ≡ pos n
unfolding getint
getint_small n h = ground arith

place_pos :
    (n : ℕ) (s : Stack)
    → place (pos n) s ≡ (if ltb n (length s) then ok n else err invalid_stack_operation)
unfolding place
place_pos n s = ground arith

-- Without the element of depth `n`, the others keep their order.
erase_at-take : (n : ℕ) (s : Stack) → erase_at n s ≡ take n s ++ drop (suc n) s
unfolding erase_at
erase_at-take zero [] = refl
erase_at-take (suc n) [] = refl
erase_at-take zero (x ∷ s) = refl
erase_at-take (suc n) (x ∷ s) = ap (λ t. x ∷ t) (erase_at-take n s)

-- What OP_PICK and OP_ROLL do with the number `n` on the stack `s`.
unfoldable pub pick_result : Bool → ℕ → Stack → Outcome Stack
pick_result roll n s = elim (get_elem? s n) [
  | none ↦ err invalid_stack_operation
  | some vch ↦ ok (vch ∷ (if roll then take n s ++ drop (suc n) s else s))
]

-- For every number below 2^31, OP_PICK copies and OP_ROLL moves the element of that depth to the top,
-- whether or not numbers must be minimal, and all other elements stay in their order; without such
-- an element both fail with INVALID_STACK_OPERATION.
pub pick-pick_result :
    (minimal roll : Bool) (n : ℕ) (s : Stack)
    → n < 2 ^ 31
    → pick minimal roll (serialize (pos n) ∷ s) ≡ pick_result roll n s
unfolding pick pick_result
pick-pick_result minimal roll n [] h = refl
pick-pick_result minimal roll n (x ∷ s) h =
    rw (script_num-serialize minimal (pos n) h, getint_small n h, place_pos n (x ∷ s))
      (elim (Bool-cases (ltb n (length (x ∷ s)))) [
        | inl e ↦
            let (v, ev) = get_elem?-some (x ∷ s) n e in
            rw (e, ev, pick_result, erase_at-take n (x ∷ s)) refl
        | inr e ↦ rw (e, get_elem?-none (x ∷ s) n e, pick_result) refl
      ])

-- OP_DUP is OP_PICK at 0, OP_OVER at 1; OP_SWAP is OP_ROLL at 1 and OP_ROT at 2.
pub pick_names :
    (s : Stack)
    → (pick_result false 0 s ≡ dup s)
      × (pick_result false 1 s ≡ over s)
      × (pick_result true 1 s ≡ swap s)
      × (pick_result true 2 s ≡ rot s)
unfolding pick_result dup over swap rot erase_at
pick_names s = ground arith
