-- ===== src/Text/Hex.antt =====
-- Hexadecimal texts: `HexDigit`, `IsHex` and `ParseHex` of src/utilstrencodings.cpp, and `HexStr` of
-- src/utilstrencodings.h. A text is the list of its characters' codes; its end counts as the code 0.
pub mod RoundTrip
use metachain.Base.{
  ltb, leb, ◌==◌, if◌then◌else◌, length, ℕ, zero, suc, ◌+◌, ◌-◌, ◌*◌, ◌/◌, ◌%◌, bit_and, bit_or,
  Bool, true, false, not, ◌&&◌, ◌||◌, Option, none, some, List, [], ◌∷◌, ◌++◌,
}

-- The table `p_util_hexdigit`; `none` is its -1.
unfoldable pub hex_digit : ℕ → Option ℕ
hex_digit c =
    if leb 48 c && leb c 57
    then some (c - 48)
    else if leb 65 c && leb c 70
    then some (c - 55)
    else if leb 97 c && leb c 102
    then some (c - 87)
    else none

abbrev pub all_hex : List ℕ → Bool
all_hex [] = true
all_hex (c ∷ cs) = elim (hex_digit c) [ none ↦ false | some d ↦ all_hex cs ]

unfoldable pub is_hex : List ℕ → Bool
is_hex str = all_hex str && ltb 0 (length str) && (length str % 2 == 0)

-- `isspace` of the C locale.
unfoldable pub is_space : ℕ → Bool
is_space c = (leb 9 c && leb c 13) || (c == 32)

-- The loop; `some c` is the first digit of a pair that has been read.
abbrev pub parse_hex_from : Option ℕ → List ℕ → List ℕ
parse_hex_from first [] = []
parse_hex_from none (c ∷ psz) = elim (is_space c) [
  | true ↦ parse_hex_from none psz
  | false ↦ elim (hex_digit c) [ none ↦ [] | some d ↦ parse_hex_from (some d) psz ]
]
parse_hex_from (some d) (c ∷ psz) = elim (hex_digit c) [
  | none ↦ []
  | some e ↦ bit_or (d * 16 % 256) e ∷ parse_hex_from none psz
]

unfoldable pub parse_hex : List ℕ → List ℕ
parse_hex psz = parse_hex_from none psz

-- `hexmap`, which has the digits '0' to '9' and 'a' to 'f'.
unfoldable pub hexmap : ℕ → ℕ
hexmap d = if ltb d 10 then 48 + d else 87 + d

abbrev pub hex_pair : ℕ → List ℕ → List ℕ
hex_pair val rest = hexmap (val / 16) ∷ hexmap (bit_and val 15) ∷ rest

-- The bytes after the first one.
abbrev pub hex_str_next : Bool → List ℕ → List ℕ
hex_str_next spaces [] = []
hex_str_next spaces (val ∷ vals) =
    let rest = hex_pair val (hex_str_next spaces vals) in if spaces then 32 ∷ rest else rest

unfoldable pub hex_str : Bool → List ℕ → List ℕ
hex_str spaces [] = []
hex_str spaces (val ∷ vals) = hex_pair val (hex_str_next spaces vals)
