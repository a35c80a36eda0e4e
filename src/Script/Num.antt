-- ===== src/Script/Num.antt =====
-- `CScriptNum` of src/MCP/MCP06/script.h: integers as byte strings, least significant byte first,
-- with the sign in the top bit of the last byte. The value is an int64_t, here an integer; an
-- assertion that fails, or a result that no int64_t holds, is `aborted`.
pub mod Signed
pub mod RoundTrip
pub mod Minimal
use metachain.Base.{
  ℕ, zero, suc, ◌+◌, ◌-◌, ◌*◌, ◌/◌, ◌%◌, ◌^◌, Bool, true, false, not, ◌&&◌, ◌||◌, List, [], ◌∷◌,
  bit_and, bit_or, ltb, ◌==◌, if◌then◌else◌, length,
}
use metachain.Base.Int.{ℤ, pos, negsuc, ◌+ℤ◌, ◌-ℤ◌, ltb_ℤ}
use metachain.Base.Bytes.{high_bit}
use metachain.Script.Outcome.{Outcome, ok, err, aborted, unknown_error}

abbrev pub default_max_num_size : ℕ
default_max_num_size = 4

abbrev pub negate : ℕ → ℤ
negate zero = pos 0
negate (suc n) = negsuc n

-- The last byte of a vector, `vch.back()`, with a default for the empty one.
unfoldable pub back : ℕ → List ℕ → ℕ
back d [] = d
back d (b ∷ bs) = back b bs

-- `result |= vch[i] << 8 * i`: the bytes do not overlap, so this is a sum.
unfoldable pub le_value : List ℕ → ℕ
le_value [] = 0
le_value (b ∷ bs) = b + 256 * le_value bs

-- For at most eight bytes, which an int64_t holds: the constructor, the only caller, passes up to four,
-- and the source's shifts go past the int64_t beyond eight.
unfoldable pub set_vch : List ℕ → ℤ
set_vch [] = pos 0
set_vch (b ∷ bs) =
    let result = le_value (b ∷ bs) in
    if high_bit (back b bs) then negate (result - 0x80 * 256 ^ length bs) else pos result

-- The loop `while (absvalue)`; eight rounds empty a uint64_t.
unfoldable pub abs_bytes : ℕ → ℕ → List ℕ
abs_bytes zero a = []
abs_bytes (suc f) a = let rest = abs_bytes f (a / 256) in if a == 0 then [] else (a % 256) ∷ rest

-- The end of `serialize`: the sign goes to the last byte, or to a further one.
unfoldable pub add_sign : Bool → List ℕ → List ℕ
add_sign neg [] = []
add_sign neg (b ∷ []) =
    if high_bit b
    then b ∷ (if neg then 0x80 else 0) ∷ []
    else if neg
    then bit_or b 0x80 ∷ []
    else b ∷ []
add_sign neg (b ∷ c ∷ bs) = b ∷ add_sign neg (c ∷ bs)

unfoldable pub serialize : ℤ → List ℕ
serialize (pos n) = add_sign false (abs_bytes 8 n)
serialize (negsuc n) = add_sign true (abs_bytes 8 (suc n))

-- The test of the constructor with `fRequireMinimal`, on the last byte and the one before it.
unfoldable pub is_minimal : List ℕ → Bool
is_minimal [] = true
is_minimal (b ∷ []) = not (bit_and b 0x7f == 0)
is_minimal (a ∷ b ∷ []) = not (bit_and b 0x7f == 0) || high_bit a
is_minimal (a ∷ b ∷ c ∷ bs) = is_minimal (b ∷ c ∷ bs)

-- `CScriptNum(vch, fRequireMinimal)`; it throws a `scriptnum_error`.
unfoldable pub script_num : Bool → List ℕ → Outcome ℤ
script_num minimal vch =
    if ltb default_max_num_size (length vch)
    then err unknown_error
    else if minimal && not (is_minimal vch)
    then err unknown_error
    else ok (set_vch vch)

-- A result as an int64_t.
unfoldable pub int64 : ℤ → Outcome ℤ
int64 (pos n) = if ltb n (2 ^ 63) then ok (pos n) else aborted
int64 (negsuc n) = if ltb n (2 ^ 63) then ok (negsuc n) else aborted

unfoldable pub add : ℤ → ℤ → Outcome ℤ
add a b = int64 (a +ℤ b)

unfoldable pub sub : ℤ → ℤ → Outcome ℤ
sub a b = int64 (a -ℤ b)

-- `operator-()`
unfoldable pub neg : ℤ → Outcome ℤ
neg a = int64 (pos 0 -ℤ a)

unfoldable pub eq : ℤ → ℤ → Bool
eq (pos a) (pos b) = a == b
eq (negsuc a) (negsuc b) = a == b
eq (pos a) (negsuc b) = false
eq (negsuc a) (pos b) = false

-- Clamped to the range of an int.
unfoldable pub getint : ℤ → ℤ
getint a =
    if ltb_ℤ (pos (2 ^ 31 - 1)) a
    then pos (2 ^ 31 - 1)
    else if ltb_ℤ a (negsuc (2 ^ 31 - 1))
    then negsuc (2 ^ 31 - 1)
    else a
