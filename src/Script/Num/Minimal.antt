-- ===== src/Script/Num/Minimal.antt =====
-- Minimal encodings of a `CScriptNum` (src/MCP/MCP06/script.h).
use metachain.Base.{
  ℕ, zero, suc, ◌+◌, ◌*◌, ◌%◌, ◌≤◌, ◌<◌, ◌≡◌, refl, ap, ◌∙◌, Bool, true, List, [], ◌∷◌, arith,
  length,
}
use metachain.Base.Bytes.{
  IsBytes, high_bit, high_bit-leb, high_bit→le, bit_and-low_seven, bit_or-high,
}
use metachain.Base.Int.{ℤ}
use native.Mathlib.Decide.{dec_lt}
use metachain.Script.Outcome.{ok}
use metachain.Script.Num.{back, set_vch, abs_bytes, add_sign, serialize, is_minimal, script_num}
use metachain.Script.Num.Signed.{set_vch-Signed, unsigned, Signed-unsigned}
use metachain.Script.Num.RoundTrip.{abs_bytes-cons, one_byte, serialize_signed}

add_sign-cons :
    (s : Bool) (a : ℕ) {b : ℕ} {bs : List ℕ} (xs : List ℕ)
    → add_sign s xs ≡ b ∷ bs
    → add_sign s (a ∷ xs) ≡ a ∷ b ∷ bs
unfolding add_sign
add_sign-cons s a [] e = cc
add_sign-cons s a (x ∷ xs) e = ap (λ l. a ∷ l) e

last_byte :
    (f : ℕ) (s : Bool) (b : ℕ)
    → b < 256
    → 0 < b % 128
    → high_bit b ≡ s
    → add_sign s (abs_bytes (suc f) (b % 128)) ≡ b ∷ []
unfolding add_sign
last_byte f s b h p e =
    rw (one_byte f (b % 128) p (omega arith))
      (ground (arith, high_bit-leb b, high_bit-leb (b % 128), bit_or-high (b % 128)))

-- A last byte that holds only the sign.
sign_byte :
    (f : ℕ) (s : Bool) (a b : ℕ)
    → a < 256
    → b < 256
    → b % 128 ≡ 0
    → high_bit a ≡ true
    → high_bit b ≡ s
    → add_sign s (abs_bytes (suc f) (a + 256 * (b % 128))) ≡ a ∷ b ∷ []
unfolding add_sign
sign_byte f s a b ha hb z ea eb =
    rw (z, one_byte f (a + 256 * 0) (omega (arith, high_bit→le a ha ea)) (omega arith))
      (ground (arith, high_bit-leb a, high_bit-leb b))

-- The minimal strings are exactly those that `serialize` writes.
add_sign-abs_bytes :
    (f : ℕ) (s : Bool) (b : ℕ) (bs : List ℕ)
    → IsBytes (b ∷ bs)
    → is_minimal (b ∷ bs) ≡ true
    → high_bit (back b bs) ≡ s
    → length (b ∷ bs) ≤ f
    → (0 < unsigned (b ∷ bs)) × (add_sign s (abs_bytes f (unsigned (b ∷ bs))) ≡ b ∷ bs)
unfolding unsigned is_minimal back
add_sign-abs_bytes zero s b bs h m e l = absurd (omega arith)
add_sign-abs_bytes (suc f) s b [] h m e l = (
  ground (arith, bit_and-low_seven b h.0),
  last_byte f s b h.0 (ground (arith, bit_and-low_seven b h.0)) e,
)
add_sign-abs_bytes (suc zero) s a (b ∷ []) h m e l = absurd (omega arith)
add_sign-abs_bytes (suc (suc f)) s a (b ∷ []) h m e l = elim (dec_lt 0 (b % 128)) [
  | yes p ↦ (
    omega arith,
    rw (abs_bytes-cons (suc f) a (b % 128) h.0 (omega arith))
        (add_sign-cons s a _ (last_byte f s b h.1.0 p e)),
  )
  | no n ↦
      let z : b % 128 ≡ 0 = omega arith in
      let ea : high_bit a ≡ true = ground (arith, bit_and-low_seven b h.1.0) in
      (omega (arith, high_bit→le a h.0 ea), sign_byte (suc f) s a b h.0 h.1.0 z ea e)
]
add_sign-abs_bytes (suc f) s a (b ∷ c ∷ bs) h m e l =
    let (p, q) = add_sign-abs_bytes f s b (c ∷ bs) h.1 m e (omega arith) in
    (
      omega arith,
      rw (abs_bytes-cons f a (unsigned (b ∷ c ∷ bs)) h.0 (omega arith)) (add_sign-cons s a _ q),
    )

-- What `set_vch` reads from a minimal string is written back as that string.
serialize-set_vch :
    (vch : List ℕ)
    → IsBytes vch
    → is_minimal vch ≡ true
    → length vch ≤ 8
    → serialize (set_vch vch) ≡ vch
serialize-set_vch [] h m l = unfold serialize set_vch add_sign abs_bytes in refl
serialize-set_vch (b ∷ bs) h m l =
    let (p, q) = add_sign-abs_bytes 8 _ b bs h m refl l in
    ap serialize (set_vch-Signed _ _ (b ∷ bs) (Signed-unsigned b bs h)) ∙ serialize_signed _ _ p ∙ q

-- A string that `CScriptNum` takes under `fRequireMinimal` is the one that `serialize` writes for its
-- value: a number has one minimal encoding.
pub serialize-script_num :
    (vch : List ℕ) {v : ℤ} → IsBytes vch → script_num true vch ≡ ok v → serialize v ≡ vch
unfolding script_num
serialize-script_num vch {v} h e = ground (arith, serialize-set_vch vch h)
