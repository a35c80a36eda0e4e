-- ===== src/Text/Base58/RoundTrip.antt =====
-- What `base58::encode` of src/MCP/MCP01/base58.cpp writes, `base58::decode` reads back.
use metachain.Base.{
  ◌==◌, Bool-cases, ==_iff, length, drop, replicate, length-append, length-replicate, ℕ, zero, suc,
  ◌+◌, ◌-◌, ◌*◌, ◌/◌, ◌%◌, ◌^◌, ◌≤◌, ◌<◌, ◌≡◌, refl, ap, sym, ◌∙◌, subst, inl, inr, some, List, [],
  ◌∷◌, ◌++◌, map, arith,
}
use metachain.Base.Bytes.{IsBytes}
use metachain.Text.Base58.{count_front, skip_front, passes, digits_of, encode, values, trim, decode}
use metachain.Text.Base58.Digits.{
  value, EndsAt, Below, horner, horner-lt, passes-IsNumber, IsNumber,
}
use metachain.Text.Base58.Sizes.{encode_room, decode_room}
use metachain.Text.Base58.Unique.{
  Leads, digits_of-horner, Leads-skip_front, digits_of-Leads, digits_of-Below, horner-digits_of,
}
use metachain.Text.Base58.Letters.{
  letter, values-letters, trim-NoSpaces, letters-NoSpaces, skip_front-letters, length-letters,
}

zeros_value : (b size : ℕ) → value b (replicate size 0) ≡ 0
zeros_value b zero = refl
zeros_value b (suc size) = rw (zeros_value b size) (omega arith)

zeros-Below : (b size : ℕ) → 0 < b → Below b (replicate size 0)
zeros-Below b zero pos = tt
zeros-Below b (suc size) pos = (pos, zeros-Below b size pos)

zeros_end : (size : ℕ) → EndsAt 0 (replicate size 0)
zeros_end zero = tt
zeros_end (suc size) = (refl, zeros_end size)

zeros-IsNumber : (b size : ℕ) → 0 < b → IsNumber b size 0 (replicate size 0, 0)
zeros-IsNumber b size pos = record {
  stands_for = zeros_value b size;
  digits = zeros-Below b size pos;
  fits = length-replicate size 0;
  ends = zeros_end size;
}

-- The digits of a number that has room.
converted :
    (m b size : ℕ) (cs xs : List ℕ)
    → 0 < m
    → 0 < b
    → Below b xs
    → Leads xs
    → horner m 0 cs < b ^ size
    → horner m 0 cs ≡ horner b 0 xs
    → digits_of (passes m b (replicate size 0, 0) cs) ≡ xs
converted m b size cs xs pm pb bx lead room e =
    let n =
      passes-IsNumber m b size 0 cs (replicate size 0, 0) pm pb (zeros-IsNumber b size pb) room in
    digits_of-horner b _ _ xs pb n.ends n.digits bx lead (n.stands_for ∙ e)

count_skip : (a : ℕ) (xs : List ℕ) → replicate (count_front a xs) a ++ skip_front a xs ≡ xs
unfolding count_front skip_front
count_skip a [] = refl
count_skip a (x ∷ xs) = elim (Bool-cases (x == a)) [
  | inl e ↦ rw e (cc (count_skip a xs, (==_iff x a).0 e))
  | inr e ↦ rw e refl
]

drop-count : (a : ℕ) (xs : List ℕ) → drop (count_front a xs) xs ≡ skip_front a xs
unfolding count_front skip_front
drop-count a [] = refl
drop-count a (x ∷ xs) = elim (Bool-cases (x == a)) [
  | inl e ↦ rw e (drop-count a xs)
  | inr e ↦ rw e refl
]

length_rest : (a : ℕ) (xs : List ℕ) → length xs - count_front a xs ≡ length (skip_front a xs)
length_rest a xs = omega (
  arith,
  ap length (count_skip a xs),
  length-append (replicate (count_front a xs) a) (skip_front a xs),
  length-replicate (count_front a xs) a,
)

-- The digits of base 58 that `encode` finds.
digits58 : List ℕ → List ℕ
unfolding digits_of passes
digits58 rest = digits_of (passes 256 58 (replicate (length rest * 138 / 100 + 1) 0, 0) rest)

encode-letters :
    (buffer : List ℕ)
    → length (skip_front 0 buffer) * 138 < 2 ^ 32
    → encode buffer
      ≡ replicate (count_front 0 buffer) 49 ++ map letter (digits58 (skip_front 0 buffer))
unfolding encode digits58
encode-letters buffer room =
    let same : length (skip_front 0 buffer) * 138 % 2 ^ 32 ≡ length (skip_front 0 buffer) * 138 =
      omega (arith, room) in
    rw (drop-count 0 buffer, length_rest 0 buffer, same) refl

room58 : (rest : List ℕ) → IsBytes rest → horner 256 0 rest < 58 ^ (length rest * 138 / 100 + 1)
room58 rest h = omega (arith, horner-lt 256 0 rest h, encode_room (length rest))

number58 :
    (rest : List ℕ)
    → IsBytes rest
    → IsNumber 58
        (length rest * 138 / 100 + 1)
        (horner 256 0 rest)
        (passes 256 58 (replicate (length rest * 138 / 100 + 1) 0, 0) rest)
number58 rest h =
    passes-IsNumber 256 58 _ 0 rest _ (omega arith) (omega arith)
      (zeros-IsNumber 58 _ (omega arith)) (room58 rest h)

digits58-Below : (rest : List ℕ) → IsBytes rest → Below 58 (digits58 rest)
unfolding digits58
digits58-Below rest h = digits_of-Below 58 _ _ (number58 rest h).ends (number58 rest h).digits

horner-digits58 : (rest : List ℕ) → IsBytes rest → horner 58 0 (digits58 rest) ≡ horner 256 0 rest
unfolding digits58
horner-digits58 rest h =
    horner-digits_of 58 _ _ (number58 rest h).ends ∙ (number58 rest h).stands_for

decode_parts :
    (input digits vs : List ℕ)
    → skip_front 49 (trim input) ≡ digits
    → values digits ≡ some vs
    → decode input
      ≡ some (
          replicate (length input - length digits) 0
          ++ digits_of (passes 58 256 (replicate (length digits * 733 / 1000 + 1) 0, 0) vs))
unfolding decode
decode_parts input digits vs h k =
    let k' = subst (λ ds. values ds ≡ some vs) (sym h) k in
    subst
      (λ ds.
        decode input
        ≡ some (
            replicate (length input - length ds) 0
            ++ digits_of (passes 58 256 (replicate (length ds * 733 / 1000 + 1) 0, 0) vs)))
      h (rw (k', decode) refl)

decode-letters :
    (z : ℕ) (ds rest : List ℕ)
    → Below 58 ds
    → Leads ds
    → digits_of (passes 58 256 (replicate (length ds * 733 / 1000 + 1) 0, 0) ds) ≡ rest
    → decode (replicate z 49 ++ map letter ds) ≡ some (replicate z 0 ++ rest)
decode-letters z ds rest h lead e =
    let text = replicate z 49 ++ map letter ds in
    decode_parts text (map letter ds) ds
      (ap (skip_front 49) (trim-NoSpaces text (letters-NoSpaces z ds h))
        ∙ skip_front-letters z ds h lead)
      (values-letters ds h)
    ∙ rw
        (
          length-letters ds,
          length-append (replicate z 49) (map letter ds),
          length-replicate {A = ℕ} z 49,
          e,
        )
        (ap (λ k. some (replicate k 0 ++ rest))
          (let k : z + length (map letter ds) - length ds ≡ z = omega (arith, length-letters ds) in
            k))

digits58-Leads : (rest : List ℕ) → Leads (digits58 rest)
unfolding digits58
digits58-Leads rest =
    digits_of-Leads (passes 256 58 (replicate (length rest * 138 / 100 + 1) 0, 0) rest)

IsBytes-skip_front : (xs : List ℕ) → IsBytes xs → IsBytes (skip_front 0 xs)
unfolding skip_front
IsBytes-skip_front [] h = tt
IsBytes-skip_front (x ∷ xs) h = elim (Bool-cases (x == 0)) [
  | inl e ↦ rw e (IsBytes-skip_front xs h.1)
  | inr e ↦ rw e h
]

-- A byte string of fewer than 2^31 bytes is read back from the text that `encode` writes of it, if it has
-- at most 31122951 bytes behind the zeros in front.
pub decode-encode :
    (buffer : List ℕ)
    → IsBytes buffer
    → length buffer < 2 ^ 31
    → length (skip_front 0 buffer) ≤ 31122951
    → decode (encode buffer) ≡ some buffer
decode-encode buffer h _ room =
    let rest = skip_front 0 buffer in
    let bytes = IsBytes-skip_front buffer h in
    let ds = digits58 rest in
    let below = digits58-Below rest bytes in
    ap decode (encode-letters buffer (omega (arith, room)))
    ∙ decode-letters (count_front 0 buffer) ds rest below (digits58-Leads rest) (
        converted 58 256 (length ds * 733 / 1000 + 1) ds rest (omega arith) (omega arith) bytes
          (Leads-skip_front buffer)
          (omega (arith, horner-lt 58 0 ds below, decode_room (length ds)))
          (horner-digits58 rest bytes))
    ∙ ap some (count_skip 0 buffer)
