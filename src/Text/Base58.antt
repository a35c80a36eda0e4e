-- ===== src/Text/Base58.antt =====
-- `base58` of src/MCP/MCP01/base58.cpp. A text is the list of its characters' codes. The vectors `b58`
-- and `b256`, which the loops pass from the back, are lists that start at the back.
pub mod Digits
pub mod Letters
pub mod RoundTrip
pub mod Sizes
pub mod Unique
use metachain.Base.{
  ltb, ◌==◌, if◌then◌else◌, length, get_or, drop, replicate, ℕ, zero, suc, ◌+◌, ◌-◌, ◌*◌, ◌/◌, ◌%◌,
  ◌^◌, Bool, true, false, not, ◌||◌, Option, none, some, List, [], ◌∷◌, ◌++◌, map,
}
use mathlib.Core.List.{reverse}
use metachain.Text.Hex.{is_space}

-- "123456789ABCDEFGHJKLMNPQRSTUVWXYZabcdefghijkmnopqrstuvwxyz"
abbrev pub alphabet : List ℕ
alphabet =
    49 ∷ 50 ∷ 51 ∷ 52 ∷ 53 ∷ 54 ∷ 55 ∷ 56 ∷ 57 ∷ 65 ∷ 66 ∷ 67 ∷ 68 ∷ 69 ∷ 70 ∷ 71 ∷ 72 ∷ 74 ∷ 75
    ∷ 76 ∷ 77 ∷ 78 ∷ 80 ∷ 81 ∷ 82 ∷ 83 ∷ 84 ∷ 85 ∷ 86 ∷ 87 ∷ 88 ∷ 89 ∷ 90 ∷ 97 ∷ 98 ∷ 99 ∷ 100 ∷ 101
    ∷ 102 ∷ 103 ∷ 104 ∷ 105 ∷ 106 ∷ 107 ∷ 109 ∷ 110 ∷ 111 ∷ 112 ∷ 113 ∷ 114 ∷ 115 ∷ 116 ∷ 117 ∷ 118
    ∷ 119 ∷ 120 ∷ 121 ∷ 122 ∷ []

-- How many elements at the front are `a`, and what follows them.
unfoldable pub count_front : ℕ → List ℕ → ℕ
count_front a [] = 0
count_front a (x ∷ xs) = let rest = count_front a xs in if x == a then suc rest else 0

unfoldable pub skip_front : ℕ → List ℕ → List ℕ
skip_front a [] = []
skip_front a (x ∷ xs) = let rest = skip_front a xs in if x == a then rest else x ∷ xs

-- One pass, "digits = digits * m + carry" in the base `b`: the digits, and `i`, how many were visited.
unfoldable pub mul_add : (m b : ℕ) → ℕ → ℕ → List ℕ → List ℕ × ℕ
mul_add m b len carry [] = ([], 0)
mul_add m b len carry (d ∷ ds) =
    let n = carry + m * d in
    let (rest, i) = mul_add m b (len - 1) (n / b) ds in
    if not (carry == 0) || ltb 0 len then (n % b ∷ rest, suc i) else (d ∷ ds, 0)

-- The passes of the bytes, or of the characters' values, one after the other.
unfoldable pub passes : (m b : ℕ) → List ℕ × ℕ → List ℕ → List ℕ × ℕ
passes m b s [] = s
passes m b (digits, len) (c ∷ cs) = passes m b (mul_add m b len c digits) cs

-- The digits of the result, from the front: the last `length` ones without the zeros in front.
unfoldable pub digits_of : List ℕ × ℕ → List ℕ
digits_of (digits, len) = skip_front 0 (drop (length digits - len) (reverse digits))

-- The size is computed as an unsigned int.
unfoldable pub encode : List ℕ → List ℕ
unfolding count_front skip_front mul_add passes digits_of
encode buffer =
    let zeroes = count_front 0 buffer in
    let size = (length buffer - zeroes) * 138 % 2 ^ 32 / 100 + 1 in
    let digits = digits_of (passes 256 58 (replicate size 0, 0) (drop zeroes buffer)) in
    replicate zeroes 49 ++ map (λ d. get_or alphabet d 0) digits

-- `strchr`, which finds the zero at the end of the alphabet, too.
unfoldable pub find_from : ℕ → ℕ → List ℕ → Option ℕ
find_from i c [] = if c == 0 then some i else none
find_from i c (x ∷ xs) = let rest = find_from (suc i) c xs in if x == c then some i else rest

-- The values of the characters; `none` if one is not in the alphabet.
unfoldable pub values : List ℕ → Option (List ℕ)
unfolding find_from
values [] = some []
values (c ∷ cs) = elim (find_from 0 c alphabet) [
  | none ↦ none
  | some v ↦ elim (values cs) [ none ↦ none | some vs ↦ some (v ∷ vs) ]
]

unfoldable pub trim_left : List ℕ → List ℕ
unfolding is_space
trim_left [] = []
trim_left (c ∷ cs) = let rest = trim_left cs in if is_space c then rest else c ∷ cs

-- `boost::trim`.
unfoldable pub trim : List ℕ → List ℕ
unfolding trim_left
trim cs = reverse (trim_left (reverse (trim_left cs)))

-- `none` is `false`; `some` has the bytes that are written to `output`.
unfoldable pub decode : List ℕ → Option (List ℕ)
unfolding skip_front mul_add passes digits_of values trim
decode input =
    let digits = skip_front 49 (trim input) in
    let zeroes = length input - length digits in
    let size = length digits * 733 / 1000 + 1 in
    elim (values digits) [
      | none ↦ none
      | some vs ↦ some (replicate zeroes 0 ++ digits_of (passes 58 256 (replicate size 0, 0) vs))
    ]
