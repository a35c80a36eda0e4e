-- ===== src/Script/Num/RoundTrip.antt =====
-- `CScriptNum::serialize` and the ways back to a number (src/MCP/MCP06/script.h).
use metachain.Base.{
  ℕ, zero, suc, ◌+◌, ◌*◌, ◌/◌, ◌%◌, ◌^◌, ◌≤◌, ◌<◌, ◌≡◌, refl, ap, ◌∙◌, Bool, true, false, List, [],
  ◌∷◌, arith, if◌then◌else◌, length,
}
use metachain.Base.Bytes.{IsBytes, high_bit-leb, masks, bit_and-low_seven, bit_or-high}
use metachain.Base.Int.{ℤ, pos, negsuc, magnitude}
use native.Mathlib.Nat.{pow-suc}
use native.Mathlib.Decide.{dec_lt}
use metachain.Script.Outcome.{ok}
use metachain.Script.Num.{
  back, le_value, set_vch, negate, abs_bytes, add_sign, serialize, is_minimal, script_num,
}
use metachain.Script.Num.Signed.{
  set_vch-Signed, add_sign-Signed, le_value-abs_bytes, abs_bytes-IsBytes, length-abs_bytes,
}

set_vch-add_sign :
    (s : Bool) (a : ℕ) (bs : List ℕ)
    → IsBytes bs
    → le_value bs ≡ a
    → set_vch (add_sign s bs) ≡ (if s then negate a else pos a)
set_vch-add_sign true a [] h e = unfold le_value set_vch add_sign in rw (← e)
set_vch-add_sign false a [] h e = unfold le_value set_vch add_sign in rw (← e)
set_vch-add_sign s a (b ∷ bs) h e =
    set_vch-Signed s _ _ (add_sign-Signed s b bs h)
    ∙ ap (λ (n : ℕ). if s then negate n else pos n) e

-- Reading back what `serialize` wrote gives the number, for every int64_t but the least.
pub set_vch-serialize : (v : ℤ) → magnitude v < 2 ^ 63 → set_vch (serialize v) ≡ v
unfolding serialize
set_vch-serialize (pos n) h =
    set_vch-add_sign false n _ (abs_bytes-IsBytes 8 n) (le_value-abs_bytes 8 n (omega arith))
set_vch-serialize (negsuc n) h =
    set_vch-add_sign true (suc n) _ (abs_bytes-IsBytes 8 (suc n))
      (le_value-abs_bytes 8 (suc n) (omega arith))

short_byte : (k b : ℕ) → b < 256 → 2 * (b + 0) < 256 ^ suc k → 128 ≤ b → 0 < k
short_byte zero b h e l = absurd (omega arith)
short_byte (suc k) b h e l = omega arith

-- A number of fewer than 8 * k - 1 bits takes at most k bytes.
length-add_sign_le :
    (s : Bool) (k : ℕ) (bs : List ℕ)
    → IsBytes bs
    → 2 * le_value bs < 256 ^ k
    → length bs ≤ k
    → length (add_sign s bs) ≤ k
unfolding add_sign le_value
length-add_sign_le s k [] h e l = l
length-add_sign_le s zero (b ∷ bs) h e l = absurd (omega arith)
length-add_sign_le true (suc k) (b ∷ []) h e l = grind (masks, h.0, short_byte k b)
length-add_sign_le false (suc k) (b ∷ []) h e l = grind (masks, h.0, short_byte k b)
length-add_sign_le s (suc k) (b ∷ c ∷ bs) h e l =
    omega (arith, pow-suc 256 k, length-add_sign_le s k (c ∷ bs) h.1 (omega (arith, pow-suc 256 k)))

pub abs_bytes-cons :
    (f b v : ℕ) → b < 256 → 0 < b + 256 * v → abs_bytes (suc f) (b + 256 * v) ≡ b ∷ abs_bytes f v
unfolding abs_bytes
abs_bytes-cons f b v h p = ground arith

abs_bytes-zero : (f : ℕ) → abs_bytes f 0 ≡ []
unfolding abs_bytes
abs_bytes-zero zero = refl
abs_bytes-zero (suc f) = refl

pub one_byte : (f v : ℕ) → 0 < v → v < 256 → abs_bytes (suc f) v ≡ v ∷ []
unfolding abs_bytes
one_byte f v p h = rw (small v h) (ground (arith, abs_bytes-zero f))
  where
    small : (v : ℕ) → v < 256 → v / 256 ≡ 0
    small v h = omega arith

pub serialize_signed :
    (s : Bool) (v : ℕ)
    → 0 < v
    → serialize (if s then negate v else pos v) ≡ add_sign s (abs_bytes 8 v)
unfolding serialize
serialize_signed s zero p = absurd (omega arith)
serialize_signed true (suc v) p = refl
serialize_signed false (suc v) p = refl

is_minimal-cons :
    (a x : ℕ) (xs : List ℕ) → is_minimal (x ∷ xs) ≡ true → is_minimal (a ∷ x ∷ xs) ≡ true
unfolding is_minimal
is_minimal-cons a x [] h = ground arith
is_minimal-cons a x (y ∷ ys) h = h

is_minimal_cons_list :
    (a : ℕ) (xs : List ℕ) → 0 < length xs → is_minimal xs ≡ true → is_minimal (a ∷ xs) ≡ true
is_minimal_cons_list a [] p h = absurd (omega arith)
is_minimal_cons_list a (x ∷ xs) p h = is_minimal-cons a x xs h

is_minimal_last : (s : Bool) (b : ℕ) → b < 256 → 0 < b → is_minimal (add_sign s (b ∷ [])) ≡ true
unfolding is_minimal add_sign
is_minimal_last s b h p =
    ground (arith, high_bit-leb b, bit_or-high b, bit_and-low_seven b, bit_and-low_seven (b + 128))

is_minimal_step :
    (s : Bool) (a b : ℕ) (bs : List ℕ)
    → IsBytes (a ∷ b ∷ bs)
    → is_minimal (add_sign s (b ∷ bs)) ≡ true
    → is_minimal (add_sign s (a ∷ b ∷ bs)) ≡ true
unfolding add_sign
is_minimal_step s a b bs h m =
    is_minimal_cons_list a (add_sign s (b ∷ bs)) (add_sign-Signed s b bs h.1).nonempty m

is_minimal-add_sign :
    (s : Bool) (b : ℕ) (bs : List ℕ)
    → IsBytes (b ∷ bs)
    → 0 < back b bs
    → is_minimal (add_sign s (b ∷ bs)) ≡ true
unfolding back
is_minimal-add_sign s b [] h p = is_minimal_last s b h.0 p
is_minimal-add_sign s a (b ∷ bs) h p = is_minimal_step s a b bs h (is_minimal-add_sign s b bs h.1 p)

back_cons : (x : ℕ) (xs : List ℕ) → 0 < back 0 xs → 0 < back x xs
unfolding back
back_cons x [] p = absurd (omega arith)
back_cons x (y ∷ ys) p = p

back_rest :
    (f a : ℕ) → 0 < a → 0 < back 0 (abs_bytes f (a / 256)) → 0 < back 0 (abs_bytes (suc f) a)
unfolding abs_bytes back
back_rest f a p q = ground (arith, back_cons (a % 256) (abs_bytes f (a / 256)) q)

back-abs_bytes : (f a : ℕ) → a < 256 ^ f → 0 < a → 0 < back 0 (abs_bytes f a)
unfolding abs_bytes back
back-abs_bytes zero a h p = absurd (omega arith)
back-abs_bytes (suc f) a h p = elim (dec_lt 0 (a / 256)) [
  | yes q ↦ back_rest f a p (back-abs_bytes f (a / 256) (omega (arith, pow-suc 256 f)) q)
  | no n ↦ rw (one_byte f a p (omega arith)) p
]

script_num-add_sign :
    (m s : Bool) (v : ℕ) (bs : List ℕ)
    → IsBytes bs
    → le_value bs ≡ v
    → 0 < back 0 bs
    → v < 2 ^ 31
    → length bs ≤ 4
    → script_num m (add_sign s bs) ≡ ok (if s then negate v else pos v)
unfolding script_num back
script_num-add_sign m s v [] h e p q l = absurd (omega arith)
script_num-add_sign m s v (b ∷ bs) h e p q l = ground (
  arith,
  is_minimal-add_sign s b bs h p,
  length-add_sign_le s 4 (b ∷ bs) h (omega arith) l,
  set_vch-add_sign s v (b ∷ bs) h e,
)

script_num_signed :
    (m s : Bool) (v : ℕ)
    → 0 < v
    → v < 2 ^ 31
    → script_num m (serialize (if s then negate v else pos v)) ≡ ok (if s then negate v else pos v)
script_num_signed m s v p h = rw (serialize_signed s v p) (
    script_num-add_sign m s v (abs_bytes 8 v) (abs_bytes-IsBytes 8 v)
      (le_value-abs_bytes 8 v (omega arith)) (back-abs_bytes 8 v (omega arith) p) h
      (length-abs_bytes 4 8 v (omega arith)))

-- `serialize` writes every number of magnitude below 2^31 as a string that `CScriptNum` takes back to
-- that number, whether it requires minimal encodings or not.
pub script_num-serialize :
    (m : Bool) (v : ℤ) → magnitude v < 2 ^ 31 → script_num m (serialize v) ≡ ok v
script_num-serialize m (pos zero) h =
    unfold script_num serialize set_vch add_sign abs_bytes is_minimal in ground arith
script_num-serialize m (pos (suc n)) h = script_num_signed m false (suc n) (omega arith) h
script_num-serialize m (negsuc n) h = script_num_signed m true (suc n) (omega arith) h
