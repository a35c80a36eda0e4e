-- ===== src/Base/Bytes.antt =====
-- Masks on one byte, and their laws as arithmetic.
use metachain.Base.{
  Bool-cases, subst, sym, inl, inr, if◌then◌else◌, ℕ, zero, suc, ◌+◌, ◌*◌, ◌/◌, ◌%◌, ◌≤◌, ◌<◌, ◌≡◌,
  refl, Bool, true, false, not, ◌&&◌, List, arith, bit_and, bit_or, ◌==◌, ==_iff, leb, All,
}

abbrev pub IsByte : ℕ → Type 0
IsByte b = b < 256

abbrev pub IsBytes : List ℕ → Type 0
IsBytes = All IsByte

-- The functions `f` and `g` have the same value at each number under `n`.
agree : (f g : ℕ → ℕ) → ℕ → Bool
agree f g zero = true
agree f g (suc n) = let rest = agree f g n in if f n == g n then rest else false

agree_at : (f g : ℕ → ℕ) (b n : ℕ) → b < n → agree f g n ≡ true → f b ≡ g b
unfolding agree
agree_at f g b zero below same = absurd (omega arith)
agree_at f g b (suc n) below same = elim (Bool-cases (b == n)) [
  | inl e ↦ subst (λ m. f m ≡ g m) (sym ((==_iff b n).0 e)) ((==_iff (f n) (g n)).0 (ground arith))
  | inr e ↦ agree_at f g b n (ground arith) (ground arith)
]

-- `b & 0x80`, as a condition.
abbrev pub high_bit : ℕ → Bool
high_bit b = not (bit_and b 0x80 == 0)

abbrev top_bit : ℕ → ℕ
top_bit b = if leb 128 b then 128 else 0

top_bits : agree (λ b. bit_and b 0x80) top_bit 256 ≡ true
unfolding agree
top_bits = refl

pub high_bit-leb : (b : ℕ) → b < 256 → high_bit b ≡ leb 128 b
high_bit-leb b h = ground (arith, agree_at (λ b. bit_and b 0x80) top_bit b 256 h top_bits)

low_bits : agree (λ b. bit_and b 0x7f) (λ b. b % 128) 256 ≡ true
unfolding agree
low_bits = refl

pub bit_and-low_seven : (b : ℕ) → b < 256 → bit_and b 0x7f ≡ b % 128
bit_and-low_seven b h = agree_at (λ b. bit_and b 0x7f) (λ b. b % 128) b 256 h low_bits

set_bits : agree (λ b. bit_or b 0x80) (λ b. b + 128) 128 ≡ true
unfolding agree
set_bits = refl

pub bit_or-high : (b : ℕ) → b < 128 → bit_or b 0x80 ≡ b + 128
bit_or-high b h = agree_at (λ b. bit_or b 0x80) (λ b. b + 128) b 128 h set_bits

pub high_bit→le : (b : ℕ) → b < 256 → high_bit b ≡ true → 128 ≤ b
high_bit→le b h e = ground (arith, high_bit-leb b h)

pub high_bit→lt : (b : ℕ) → b < 256 → high_bit b ≡ false → b < 128
high_bit→lt b h e = ground (arith, high_bit-leb b h)

pub ruleset masks = (arith, high_bit→le, high_bit→lt)

low_nibbles : agree (λ b. bit_and b 0x0f) (λ b. b % 16) 256 ≡ true
unfolding agree
low_nibbles = refl

pub bit_and-low_nibble : (b : ℕ) → b < 256 → bit_and b 0x0f ≡ b % 16
bit_and-low_nibble b h = agree_at (λ b. bit_and b 0x0f) (λ b. b % 16) b 256 h low_nibbles

nibbles : agree (λ b. bit_or (b / 16 * 16 % 256) (b % 16)) (λ b. b) 256 ≡ true
unfolding agree
nibbles = refl

pub bit_or-nibbles : (b : ℕ) → b < 256 → bit_or (b / 16 * 16 % 256) (b % 16) ≡ b
bit_or-nibbles b h = agree_at (λ b. bit_or (b / 16 * 16 % 256) (b % 16)) (λ b. b) b 256 h nibbles
