-- ===== src/Script/Num/Signed.antt =====
-- Byte strings that carry a sign bit, as `CScriptNum::serialize` writes them and `set_vch` reads them
-- (src/MCP/MCP06/script.h).
use metachain.Base.{
  ℕ, zero, suc, ◌+◌, ◌*◌, ◌/◌, ◌%◌, ◌^◌, ◌≤◌, ◌<◌, ◌≡◌, refl, ◌∙◌, ap, inl, inr, Bool, true, false,
  List, [], ◌∷◌, bit_or, arith, if◌then◌else◌, length, Bool-cases,
}
use metachain.Base.Bytes.{IsBytes, high_bit, high_bit-leb, high_bit→lt, bit_or-high}
use metachain.Base.Int.{pos}
use metachain.Script.Num.{back, le_value, set_vch, negate, abs_bytes, add_sign}
use native.Mathlib.Nat.{pow-suc}

abbrev pub top_weight : List ℕ → ℕ
top_weight [] = 0
top_weight (b ∷ bs) = 128 * 256 ^ length bs

-- `xs` has the sign bit `s`, and is the number `v` without it.
pub record Signed (s : Bool) (v : ℕ) (xs : List ℕ) : Type 0 where
  pub nonempty : 0 < length xs
  pub sign : high_bit (back 0 xs) ≡ s
  pub value : le_value xs ≡ v + (if s then top_weight xs else 0)

pub set_vch-Signed :
    (s : Bool) (v : ℕ) (xs : List ℕ) → Signed s v xs → set_vch xs ≡ (if s then negate v else pos v)
unfolding set_vch back
set_vch-Signed s v [] h = absurd (omega (arith, h.nonempty))
set_vch-Signed true v (b ∷ bs) h = rw (h.sign, h.value) (ap negate (omega arith))
set_vch-Signed false v (b ∷ bs) h = rw (h.sign, h.value) (ap pos (omega arith))

pub Signed-cons :
    (s : Bool) (v b : ℕ) (xs : List ℕ) → Signed s v xs → Signed s (b + 256 * v) (b ∷ xs)
unfolding back le_value
Signed-cons s v b [] h = absurd (omega (arith, h.nonempty))
Signed-cons true v b (x ∷ xs) h = record {
  nonempty = omega arith;
  sign = h.sign;
  value = omega (arith, h.value, pow-suc 256 (length xs));
}
Signed-cons false v b (x ∷ xs) h = record {
  nonempty = omega arith;
  sign = h.sign;
  value = omega (arith, h.value);
}

Signed-byte : (b : ℕ) → b < 256 → high_bit b ≡ false → Signed true (b + 0) (bit_or b 0x80 ∷ [])
unfolding back le_value
Signed-byte b hb e = rw (bit_or-high b (high_bit→lt b hb e)) (record {
  nonempty = omega arith;
  sign = high_bit-leb (b + 128) (omega (arith, high_bit→lt b hb e)) ∙ ground arith;
  value = omega arith;
})

-- The bytes of a number that is not 0, with a sign put on them.
pub add_sign-Signed :
    (s : Bool) (b : ℕ) (bs : List ℕ)
    → IsBytes (b ∷ bs)
    → Signed s (le_value (b ∷ bs)) (add_sign s (b ∷ bs))
unfolding add_sign back le_value
add_sign-Signed true b [] (hb, _) = elim (Bool-cases (high_bit b)) [
  | inl e ↦ rw e (record { nonempty = omega arith; sign = refl; value = omega arith })
  | inr e ↦ rw e (Signed-byte b hb e)
]
add_sign-Signed false b [] (hb, _) = elim (Bool-cases (high_bit b)) [
  | inl e ↦ rw e (record { nonempty = omega arith; sign = refl; value = omega arith })
  | inr e ↦ rw e (record { nonempty = omega arith; sign = e; value = omega arith })
]
add_sign-Signed s b (c ∷ cs) (hb, hs) =
    Signed-cons s (le_value (c ∷ cs)) b (add_sign s (c ∷ cs)) (add_sign-Signed s c cs hs)

-- A number without the sign bit.
unfoldable pub unsigned : List ℕ → ℕ
unsigned [] = 0
unsigned (b ∷ []) = b % 128
unsigned (b ∷ c ∷ bs) = b + 256 * unsigned (c ∷ bs)

-- Every string of bytes has a sign and a number.
pub Signed-unsigned :
    (b : ℕ) (bs : List ℕ)
    → IsBytes (b ∷ bs)
    → Signed (high_bit (back b bs)) (unsigned (b ∷ bs)) (b ∷ bs)
unfolding back unsigned le_value
Signed-unsigned b [] (hb, _) = record {
  nonempty = omega arith;
  sign = refl;
  value = ground (arith, high_bit-leb b);
}
Signed-unsigned b (c ∷ cs) (hb, hs) =
    Signed-cons (high_bit (back c cs)) (unsigned (c ∷ cs)) b (c ∷ cs) (Signed-unsigned c cs hs)

pub le_value-abs_bytes : (f a : ℕ) → a < 256 ^ f → le_value (abs_bytes f a) ≡ a
unfolding le_value abs_bytes
le_value-abs_bytes zero a h = omega arith
le_value-abs_bytes (suc f) a h = ground (arith, pow-suc 256 f, le_value-abs_bytes f (a / 256))

pub abs_bytes-IsBytes : (f a : ℕ) → IsBytes (abs_bytes f a)
unfolding abs_bytes
abs_bytes-IsBytes zero a = tt
abs_bytes-IsBytes (suc f) a = ground (arith, abs_bytes-IsBytes f (a / 256))

pub length-abs_bytes : (k f a : ℕ) → a < 256 ^ k → length (abs_bytes f a) ≤ k
unfolding abs_bytes
length-abs_bytes k zero a h = omega arith
length-abs_bytes zero (suc f) a h = ground arith
length-abs_bytes (suc k) (suc f) a h = ground (arith, pow-suc 256 k, length-abs_bytes k f (a / 256))
