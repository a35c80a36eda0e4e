-- ===== src/Text/Runs.antt =====
-- Hexadecimal texts on concrete inputs.
use metachain.Base.{ℕ, ◌≡◌, refl, true, false, List, [], ◌∷◌, map, arith, some}
use metachain.Text.Base58
use metachain.Text.Base58.RoundTrip.{decode-encode}
use metachain.Text.Hex.{hex_digit, is_hex, is_space, parse_hex, hexmap, hex_str}
use metachain.Text.Hex.RoundTrip.{lower, parse_hex-hex_str, hex_str-parse_hex}

-- "0aF1 9" followed by a character that is no digit.
stops_at_other : parse_hex (48 ∷ 97 ∷ 70 ∷ 49 ∷ 32 ∷ 57 ∷ 120 ∷ []) ≡ 0x0a ∷ 0xf1 ∷ []
unfolding parse_hex hex_digit is_space
stops_at_other = refl

spaced_text : hex_str true (0x0a ∷ 0xf1 ∷ []) ≡ 48 ∷ 97 ∷ 32 ∷ 102 ∷ 49 ∷ []
unfolding hex_str hexmap
spaced_text = refl

parse_hex-hex_str_example : parse_hex (hex_str true (0x0a ∷ 0xf1 ∷ [])) ≡ 0x0a ∷ 0xf1 ∷ []
parse_hex-hex_str_example =
    parse_hex-hex_str true (0x0a ∷ 0xf1 ∷ []) (omega arith, (omega arith, tt))

-- "0aF1".
abbrev capital : List ℕ
capital = 48 ∷ 97 ∷ 70 ∷ 49 ∷ []

capital-is_hex : is_hex capital ≡ true
unfolding is_hex hex_digit
capital-is_hex = refl

hex_str-parse_hex_example : hex_str false (parse_hex capital) ≡ map lower capital
hex_str-parse_hex_example = hex_str-parse_hex capital capital-is_hex

-- The bytes 0 0 1 2 3 as "11Ldp", and back; a space in front counts as another leading "1".
base58_text : Base58.encode (0 ∷ 0 ∷ 1 ∷ 2 ∷ 3 ∷ []) ≡ 49 ∷ 49 ∷ 76 ∷ 100 ∷ 112 ∷ []
unfolding Base58.encode
base58_text = refl

base58_bytes : Base58.decode (49 ∷ 49 ∷ 76 ∷ 100 ∷ 112 ∷ []) ≡ some (0 ∷ 0 ∷ 1 ∷ 2 ∷ 3 ∷ [])
unfolding Base58.decode
base58_bytes = refl

base58_spaced : Base58.decode (32 ∷ 49 ∷ 50 ∷ []) ≡ some (0 ∷ 0 ∷ 1 ∷ [])
unfolding Base58.decode
base58_spaced = refl

decode-encode_example :
    Base58.decode (Base58.encode (0 ∷ 0 ∷ 1 ∷ 2 ∷ 255 ∷ [])) ≡ some (0 ∷ 0 ∷ 1 ∷ 2 ∷ 255 ∷ [])
decode-encode_example =
    decode-encode (0 ∷ 0 ∷ 1 ∷ 2 ∷ 255 ∷ []) (omega arith) (omega arith)
      (unfold Base58.skip_front in omega arith)
