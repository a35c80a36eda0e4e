-- ===== src/Script/Stack/Elements.antt =====
-- The elements that the stack operations of `evalScript` leave
-- (src/MCP/MCP06/scriptInterpreter.cpp).
use metachain.Base.{
  if_both, length, get_elem?, All, All-get_elem?, ℕ, zero, suc, ◌/◌, ◌≤◌, ◌<◌, ◌≡◌, Bool, true,
  false, List, [], ◌∷◌, arith,
}
use metachain.Base.Bytes.{IsBytes, bit_or-high, high_bit→lt}
use metachain.Base.Int.{ℤ, pos, negsuc}
use metachain.Script.Outcome.{or_fail, Ensures, Ensures-bind, Ensures-or_fail, unknown_error}
use metachain.Script.Num.{set_vch, abs_bytes, add_sign, serialize, script_num, getint}
use metachain.Script.Num.Signed.{abs_bytes-IsBytes}
use metachain.Script.Stack.{
  Stack, vch_true, vch_false, bool_vch, two_drop, two_dup, three_dup, two_over, two_rot, two_swap,
  if_dup, drop_top, dup, nip, over, rot, swap, tuck, erase_at, place, pick, equal, equal_verify,
  verify_top,
}
use metachain.Script.Stack

-- An element of a stack: at most MAX_SCRIPT_ELEMENT_SIZE bytes.
abbrev pub IsElement : List ℕ → Type 0
IsElement vch = IsBytes vch × (length vch ≤ 520)

abbrev pub IsStack : Stack → Type 0
IsStack = All IsElement

length-abs_bytes_fuel : (f a : ℕ) → length (abs_bytes f a) ≤ f
unfolding abs_bytes
length-abs_bytes_fuel zero a = omega arith
length-abs_bytes_fuel (suc f) a = ground (arith, length-abs_bytes_fuel f (a / 256))

add_sign-IsBytes : (s : Bool) (xs : List ℕ) → IsBytes xs → IsBytes (add_sign s xs)
unfolding add_sign
add_sign-IsBytes s [] h = tt
add_sign-IsBytes s (b ∷ []) h = ground (arith, high_bit→lt b h.0, bit_or-high b)
add_sign-IsBytes s (b ∷ c ∷ bs) h = (h.0, add_sign-IsBytes s (c ∷ bs) h.1)

length-add_sign : (s : Bool) (xs : List ℕ) → length (add_sign s xs) ≤ suc (length xs)
unfolding add_sign
length-add_sign s [] = omega arith
length-add_sign s (b ∷ []) = ground arith
length-add_sign s (b ∷ c ∷ bs) = omega (arith, length-add_sign s (c ∷ bs))

pub serialize-IsElement : (v : ℤ) → IsElement (serialize v)
unfolding serialize
serialize-IsElement (pos n) = ground (
  arith,
  add_sign-IsBytes false (abs_bytes 8 n) (abs_bytes-IsBytes 8 n),
  length-add_sign false (abs_bytes 8 n),
  length-abs_bytes_fuel 8 n,
)
serialize-IsElement (negsuc n) = ground (
  arith,
  add_sign-IsBytes true (abs_bytes 8 (suc n)) (abs_bytes-IsBytes 8 (suc n)),
  length-add_sign true (abs_bytes 8 (suc n)),
  length-abs_bytes_fuel 8 (suc n),
)

pub length-serialize : (v : ℤ) → length (serialize v) ≤ 9
unfolding serialize
length-serialize (pos n) =
    omega (arith, length-add_sign false (abs_bytes 8 n), length-abs_bytes_fuel 8 n)
length-serialize (negsuc n) =
    omega (arith, length-add_sign true (abs_bytes 8 (suc n)), length-abs_bytes_fuel 8 (suc n))

pub bool_vch-IsElement : (b : Bool) → IsElement (bool_vch b)
bool_vch-IsElement b = ground arith

pub two_drop-IsStack : (s : Stack) → IsStack s → Ensures IsStack (two_drop s)
unfolding two_drop
two_drop-IsStack s h = ground arith

pub two_dup-IsStack : (s : Stack) → IsStack s → Ensures IsStack (two_dup s)
unfolding two_dup
two_dup-IsStack s h = ground arith

pub three_dup-IsStack : (s : Stack) → IsStack s → Ensures IsStack (three_dup s)
unfolding three_dup
three_dup-IsStack s h = ground arith

pub two_over-IsStack : (s : Stack) → IsStack s → Ensures IsStack (two_over s)
unfolding two_over
two_over-IsStack s h = ground arith

pub two_rot-IsStack : (s : Stack) → IsStack s → Ensures IsStack (two_rot s)
unfolding two_rot
two_rot-IsStack s h = ground arith

pub two_swap-IsStack : (s : Stack) → IsStack s → Ensures IsStack (two_swap s)
unfolding two_swap
two_swap-IsStack s h = ground arith

pub if_dup-IsStack : (s : Stack) → IsStack s → Ensures IsStack (if_dup s)
unfolding if_dup
if_dup-IsStack s h = ground arith

pub drop_top-IsStack : (s : Stack) → IsStack s → Ensures IsStack (drop_top s)
unfolding drop_top
drop_top-IsStack s h = ground arith

pub dup-IsStack : (s : Stack) → IsStack s → Ensures IsStack (dup s)
unfolding dup
dup-IsStack s h = ground arith

pub nip-IsStack : (s : Stack) → IsStack s → Ensures IsStack (nip s)
unfolding nip
nip-IsStack s h = ground arith

pub over-IsStack : (s : Stack) → IsStack s → Ensures IsStack (over s)
unfolding over
over-IsStack s h = ground arith

pub rot-IsStack : (s : Stack) → IsStack s → Ensures IsStack (rot s)
unfolding rot
rot-IsStack s h = ground arith

pub swap-IsStack : (s : Stack) → IsStack s → Ensures IsStack (swap s)
unfolding swap
swap-IsStack s h = ground arith

pub tuck-IsStack : (s : Stack) → IsStack s → Ensures IsStack (tuck s)
unfolding tuck
tuck-IsStack s h = ground arith

pub equal-IsStack : (s : Stack) → IsStack s → Ensures IsStack (equal s)
unfolding equal
equal-IsStack s h = ground (arith)

pub equal_verify-IsStack : (s : Stack) → IsStack s → Ensures IsStack (equal_verify s)
unfolding equal_verify
equal_verify-IsStack s h = ground arith

pub verify_top-IsStack : (s : Stack) → IsStack s → Ensures IsStack (verify_top s)
unfolding verify_top
verify_top-IsStack s h = ground arith

pub depth-IsStack : (s : Stack) → IsStack s → Ensures IsStack (Stack.depth s)
unfolding Stack.depth
depth-IsStack s h = (serialize-IsElement _, h)

pub size-IsStack : (s : Stack) → IsStack s → Ensures IsStack (Stack.size s)
unfolding Stack.size
size-IsStack [] h = tt
size-IsStack (x ∷ s) h = (serialize-IsElement _, h)

erase_at-IsStack : (n : ℕ) (s : Stack) → IsStack s → IsStack (erase_at n s)
unfolding erase_at
erase_at-IsStack n [] h = tt
erase_at-IsStack zero (x ∷ s) h = h.1
erase_at-IsStack (suc n) (x ∷ s) h = (h.0, erase_at-IsStack n s h.1)

pub script_num-Ensures :
    (m : Bool) (x : List ℕ) → Ensures (λ v. (v ≡ set_vch x) × (length x ≤ 4)) (script_num m x)
unfolding script_num
script_num-Ensures m x = ground arith

place-Ensures : (v : ℤ) (s : Stack) → Ensures (λ n. n < length s) (place v s)
unfolding place
place-Ensures v s = ground arith

pub pick-IsStack :
    (minimal roll : Bool) (s : Stack) → IsStack s → Ensures IsStack (pick minimal roll s)
unfolding pick
pick-IsStack minimal roll [] h = tt
pick-IsStack minimal roll (x ∷ []) h = tt
pick-IsStack minimal roll (x1 ∷ x0 ∷ s) h =
    Ensures-bind _ IsStack (script_num minimal x1) _ (script_num-Ensures minimal x1) (λ bn hbn.
      Ensures-bind _ IsStack (place (getint bn) (x0 ∷ s)) _ (place-Ensures (getint bn) (x0 ∷ s))
        (λ n hn.
          Ensures-bind IsElement IsStack (or_fail (get_elem? (x0 ∷ s) n) unknown_error) _
            (Ensures-or_fail IsElement _ unknown_error
              (λ a e. All-get_elem? IsElement (x0 ∷ s) n a h.1 e))
            (λ vch hv.
              (hv, if_both IsStack roll (λ e. erase_at-IsStack n (x0 ∷ s) h.1) (λ e. h.1)))))
