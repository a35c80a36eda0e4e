-- ===== src/Text/Hex/RoundTrip.antt =====
-- Hexadecimal texts are read as they were written (src/utilstrencodings.cpp, src/utilstrencodings.h).
use metachain.Base.{
  leb, if◌then◌else◌, Option-cases, length, ℕ, zero, suc, ◌+◌, ◌*◌, ◌/◌, ◌%◌, ◌<◌, ◌≡◌, bit_and,
  bit_or, Bool, refl, ap, true, false, ◌&&◌, none, some, List, [], ◌∷◌, map, arith, ◌∙◌, sym, inl,
  inr,
}
use metachain.Base.Bytes.{IsByte, IsBytes, bit_and-low_nibble, bit_or-nibbles}
use metachain.Text.Hex.{
  hex_digit, is_hex, all_hex, is_space, parse_hex_from, parse_hex, hexmap, hex_pair, hex_str_next,
  hex_str,
}

hex_digit-hexmap : (d : ℕ) → d < 16 → hex_digit (hexmap d) ≡ some d
unfolding hex_digit hexmap
hex_digit-hexmap d h = ground arith

is_space-hexmap : (d : ℕ) → d < 16 → is_space (hexmap d) ≡ false
unfolding is_space hexmap
is_space-hexmap d h = ground arith

first_digit :
    (c d : ℕ) (psz : List ℕ)
    → is_space c ≡ false
    → hex_digit c ≡ some d
    → parse_hex_from none (c ∷ psz) ≡ parse_hex_from (some d) psz
first_digit c d psz s h = rw (s, h, parse_hex_from) refl

second_digit :
    (d c e : ℕ) (psz : List ℕ)
    → hex_digit c ≡ some e
    → parse_hex_from (some d) (c ∷ psz) ≡ bit_or (d * 16 % 256) e ∷ parse_hex_from none psz
second_digit d c e psz h = rw (h, parse_hex_from) refl

parse_pair :
    (val : ℕ) (rest : List ℕ)
    → IsByte val
    → parse_hex_from none (hex_pair val rest) ≡ val ∷ parse_hex_from none rest
parse_pair val rest h =
    first_digit _ (val / 16) (hexmap (bit_and val 15) ∷ rest)
      (is_space-hexmap (val / 16) (omega arith)) (hex_digit-hexmap (val / 16) (omega arith))
    ∙ second_digit (val / 16) _ (val % 16) rest (
        ap (λ n. hex_digit (hexmap n)) (bit_and-low_nibble val h)
        ∙ hex_digit-hexmap (val % 16) (omega arith))
    ∙ ap (λ b. b ∷ parse_hex_from none rest) (bit_or-nibbles val h)

parse_next :
    (spaces : Bool) (vals : List ℕ)
    → IsBytes vals
    → parse_hex_from none (hex_str_next spaces vals) ≡ vals
unfolding is_space
parse_next spaces [] h = refl
parse_next true (val ∷ vals) h =
    rw (parse_pair val (hex_str_next true vals) h.0)
      (ap (λ rest. val ∷ rest) (parse_next true vals h.1))
parse_next false (val ∷ vals) h =
    rw (parse_pair val (hex_str_next false vals) h.0)
      (ap (λ rest. val ∷ rest) (parse_next false vals h.1))

-- What `HexStr` writes of bytes, with spaces between them or without, `ParseHex` reads back.
pub parse_hex-hex_str :
    (spaces : Bool) (vals : List ℕ) → IsBytes vals → parse_hex (hex_str spaces vals) ≡ vals
unfolding parse_hex hex_str
parse_hex-hex_str spaces [] h = refl
parse_hex-hex_str spaces (val ∷ vals) h =
    rw (parse_pair val (hex_str_next spaces vals) h.0)
      (ap (λ rest. val ∷ rest) (parse_next spaces vals h.1))

-- A letter from 'A' to 'F' as the small one.
abbrev pub lower : ℕ → ℕ
lower c = if leb 65 c && leb c 70 then c + 32 else c

digit_facts :
    (c d : ℕ) → hex_digit c ≡ some d → (d < 16) × (is_space c ≡ false) × (hexmap d ≡ lower c)
unfolding hex_digit is_space hexmap
digit_facts c d h = ground arith

high_part : (d e : ℕ) → e < 16 → (d * 16 + e) / 16 ≡ d
high_part d e h = omega arith

low_part : (d e : ℕ) → e < 16 → (d * 16 + e) % 16 ≡ e
low_part d e h = omega arith

-- The byte of a pair of digits.
pair_byte : (d e : ℕ) → d < 16 → e < 16 → bit_or (d * 16 % 256) e ≡ d * 16 + e
pair_byte d e hd he =
    let n = d * 16 + e in
    ap (λ q. bit_or (q * 16 % 256) e) (sym (high_part d e he))
    ∙ ap (λ q. bit_or (n / 16 * 16 % 256) q) (sym (low_part d e he))
    ∙ bit_or-nibbles n (omega arith)

-- A pair of digits is written as it was read, in small letters.
hex_pair_read :
    (c c' d e : ℕ) (rest : List ℕ)
    → hex_digit c ≡ some d
    → hex_digit c' ≡ some e
    → hex_pair (bit_or (d * 16 % 256) e) rest ≡ lower c ∷ lower c' ∷ rest
hex_pair_read c c' d e rest h h' =
    let (hd, _, ec) = digit_facts c d h in
    let (he, _, ec') = digit_facts c' e h' in
    rw (pair_byte d e hd he, bit_and-low_nibble (d * 16 + e) (omega arith))
      (ap (λ x. hexmap x ∷ hexmap ((d * 16 + e) % 16) ∷ rest) (high_part d e he)
        ∙ ap (λ x. hexmap d ∷ hexmap x ∷ rest) (low_part d e he)
        ∙ ap (λ x. x ∷ hexmap e ∷ rest) ec
        ∙ ap (λ x. lower c ∷ x ∷ rest) ec')

all_hex_inv :
    (c : ℕ) (cs : List ℕ)
    → all_hex (c ∷ cs) ≡ true
    → (d : ℕ) × (hex_digit c ≡ some d) × (all_hex cs ≡ true)
all_hex_inv c cs h = elim (Option-cases (hex_digit c)) [
  | inl e ↦ ground arith
  | inr (d, e) ↦ (d, e, ground arith)
]

-- Of texts with an even number of digits and nothing else.
all_hex-parse :
    (n : ℕ) (cs : List ℕ)
    → length cs ≡ n + n
    → all_hex cs ≡ true
    → hex_str_next false (parse_hex_from none cs) ≡ map lower cs
all_hex-parse n [] e h = refl
all_hex-parse zero (c ∷ cs) e h = ground arith
all_hex-parse n (c ∷ []) e h = ground arith
all_hex-parse (suc n) (c ∷ c' ∷ cs) e h =
    let (d, hc, rest) = all_hex_inv c (c' ∷ cs) h in
    let (d', hc', rest') = all_hex_inv c' cs rest in
    ap (hex_str_next false)
      (first_digit c d (c' ∷ cs) (digit_facts c d hc).1 hc ∙ second_digit d c' d' cs hc')
    ∙ hex_pair_read c c' d d' (hex_str_next false (parse_hex_from none cs)) hc hc'
    ∙ ap (λ t. lower c ∷ lower c' ∷ t) (all_hex-parse n cs (omega arith) rest')

unspaced : (vals : List ℕ) → hex_str false vals ≡ hex_str_next false vals
unfolding hex_str
unspaced [] = refl
unspaced (val ∷ vals) = refl

-- A text that `IsHex` accepts is what `HexStr` writes of the bytes that `ParseHex` reads from it, but for
-- capital letters, which are written small.
pub hex_str-parse_hex :
    (str : List ℕ) → is_hex str ≡ true → hex_str false (parse_hex str) ≡ map lower str
unfolding is_hex parse_hex
hex_str-parse_hex str h =
    unspaced (parse_hex_from none str)
    ∙ all_hex-parse (length str / 2) str (ground arith) (ground arith)
