-- ===== src/Script/Literal/Runs.antt =====
-- Reading the scripts that `push_int64` writes (src/MCP/MCP06/script.h).
use metachain.Base.{
  Bool-cases, length, length-append, ℕ, ◌+◌, ◌-◌, ◌^◌, ◌≤◌, ◌<◌, ◌≡◌, refl, sym, ap, ◌∙◌, subst,
  ◌↔◌, ◌⊎◌, inl, inr, true, false, ◌&&◌, some, List, [], ◌∷◌, ◌++◌, arith,
}
use metachain.Base.Bytes.{IsBytes, high_bit-leb}
use metachain.Base.Int.{leb_ℤ, magnitude, ℤ, pos, negsuc}
use metachain.Script.Opcode.{code}
use metachain.Script.Outcome.{ok}
use metachain.Script.Num.{back, le_value, set_vch, abs_bytes, add_sign, serialize, eq}
use metachain.Script.Num.RoundTrip.{set_vch-serialize}
use metachain.Script.Code.{operand, push_data, get_op}
use metachain.Script.Code.Reads.{push_opcode, get_op-push_data}
use metachain.Script.Encoding.{check_minimal_push}
use metachain.Script.Encoding.Minimal.{is_small, check_minimal_push_iff}
use metachain.Script.Stack.Elements.{IsElement, serialize-IsElement, length-serialize}
use metachain.Script.Literal.{push_int64, decode_op_n, encode_op_n}

-- `EncodeOP_N` and `DecodeOP_N` are inverse on 0 to 16, and no other numbers or opcodes pass their
-- assertions.
pub decode_op_n-encode_op_n : (n o : ℕ) → (encode_op_n n ≡ ok o) ↔ (decode_op_n o ≡ ok n)
unfolding encode_op_n decode_op_n code
decode_op_n-encode_op_n n o = (λ h. ground arith, λ h. ground arith)

serialize_byte :
    (n : ℤ) (b : ℕ)
    → magnitude n < 2 ^ 63
    → serialize n ≡ b ∷ []
    → IsBytes (b ∷ [])
    → n ≡ set_vch (b ∷ [])
serialize_byte n b h e hb = sym (set_vch-serialize n h) ∙ ap set_vch e

small_value :
    (b : ℕ)
    → is_small (b ∷ []) ≡ true
    → (set_vch (b ∷ []) ≡ negsuc 0) ⊎ ((set_vch (b ∷ []) ≡ pos b) × (1 ≤ b) × (b ≤ 16))
unfolding is_small set_vch le_value back
small_value b h = ground (arith, high_bit-leb b)

-- No opcode but a push stands for the bytes of a number that is not from -1 to 16.
serialize_large :
    (n : ℤ) (vch : List ℕ)
    → serialize n ≡ vch
    → magnitude n < 2 ^ 63
    → eq n (negsuc 0) ≡ false
    → (leb_ℤ (pos 1) n && leb_ℤ n (pos 16)) ≡ false
    → is_small vch ≡ false
unfolding eq
serialize_large n [] e h e1 e2 = unfold is_small in refl
serialize_large n (b ∷ c ∷ bs) e h e1 e2 = unfold is_small in refl
serialize_large n (b ∷ []) e h e1 e2 =
    let hb = subst IsElement e (serialize-IsElement n) in
    let same = serialize_byte n b h e hb.0 in
    elim (Bool-cases (is_small (b ∷ []))) [
      | inr f ↦ f
      | inl t ↦ elim (small_value b t) [
        | inl m ↦ absurd (ground (arith, subst (λ k. eq k (negsuc 0) ≡ false) (same ∙ m) e1))
        | inr (m, lo, hi) ↦ absurd (
            ground
              (arith, subst (λ k. (leb_ℤ (pos 1) k && leb_ℤ k (pos 16)) ≡ false) (same ∙ m) e2))
      ]
    ]

get_op_plain :
    (o : ℕ) (rest : List ℕ)
    → 0x4f ≤ o
    → length rest < 2 ^ 31 - 1
    → get_op (o ∷ rest) ≡ some (o, [], rest)
unfolding get_op code
get_op_plain o rest h room = ground arith

get_op_zero : (rest : List ℕ) → length rest < 2 ^ 31 - 1 → get_op (0 ∷ rest) ≡ some (0, [], rest)
unfolding get_op code operand
get_op_zero rest room = ground arith

eq_sound : (a b : ℤ) → eq a b ≡ true → a ≡ b
unfolding eq
eq_sound a b h = ground arith

serialize_zero : serialize (pos 0) ≡ []
unfolding serialize add_sign abs_bytes
serialize_zero = refl

push_opcode_le : (b : List ℕ) → push_opcode b ≤ 0x4e
unfolding push_opcode code
push_opcode_le b = ground arith

range_value :
    (n : ℤ)
    → (leb_ℤ (pos 1) n && leb_ℤ n (pos 16)) ≡ true
    → (n ≡ pos (magnitude n)) × (1 ≤ magnitude n) × (magnitude n ≤ 16)
range_value n h = ground arith

-- The instruction `opcode` with the operand `vch` puts the number `n` on the stack: OP_1NEGATE, OP_1 to
-- OP_16, or else a push of the number's bytes that is minimal.
abbrev pub Puts : ℤ → ℕ → List ℕ → Type 0
Puts n opcode vch =
    ((n ≡ negsuc 0) × (opcode ≡ 0x4f))
    ⊎ ((k : ℕ) × (n ≡ pos k) × (1 ≤ k) × (k ≤ 16) × (opcode ≡ 0x50 + k))
    ⊎ ((opcode ≤ 0x4e) × (vch ≡ serialize n) × (check_minimal_push vch opcode ≡ true))

length-push_data : (b : List ℕ) → length b ≤ 9 → length (push_data b) ≤ 10
unfolding push_data code
length-push_data b h = ground arith

-- What `push_int64` writes of an int64_t other than the least one, `GetOp` reads back as an instruction
-- that puts the number on the stack, and goes on with what follows: OP_1NEGATE for -1, OP_1 to OP_16
-- for 1 to 16, and a minimal push of the bytes for any other number. What follows has fewer than
-- 2^31 - 16 bytes.
pub get_op-push_int64 :
    (n : ℤ) (rest : List ℕ)
    → magnitude n < 2 ^ 63
    → length rest < 2 ^ 31 - 16
    → (opcode : ℕ) × (vch : List ℕ) × (get_op (push_int64 n ++ rest) ≡ some (opcode, vch, rest))
      × Puts n opcode vch
unfolding push_int64
get_op-push_int64 n rest h room = elim (Bool-cases (eq n (negsuc 0))) [
  | inl e ↦ rw e (
    0x4f,
    [],
    get_op_plain 0x4f rest (omega arith) (omega arith),
    inl (eq_sound n (negsuc 0) e, refl),
  )
  | inr e1 ↦ elim (Bool-cases (leb_ℤ (pos 1) n && leb_ℤ n (pos 16))) [
    | inl e ↦
        let (same, lo, hi) = range_value n e in
        rw (e1, e)
          (
            0x50 + magnitude n,
            [],
            get_op_plain (0x50 + magnitude n) rest (omega arith) (omega arith),
            inr (inl (magnitude n, same, lo, hi, refl)),
          )
    | inr e2 ↦ elim (Bool-cases (eq n (pos 0))) [
      | inl e ↦
          rw (e1, e2, e)
            (
              0,
              [],
              get_op_zero rest (omega arith),
              inr (
                  inr (
                    omega arith,
                    sym (ap serialize (eq_sound n (pos 0) e) ∙ serialize_zero),
                    unfold check_minimal_push code in refl,
                  )),
            )
      | inr e3 ↦
          rw (e1, e2, e3)
            (let large = serialize_large n (serialize n) refl h e1 e2 in
              let short = length-serialize n in
              (
                push_opcode (serialize n),
                serialize n,
                get_op-push_data (serialize n) rest (
                    omega (
                      arith,
                      room,
                      length-append (push_data (serialize n)) rest,
                      length-push_data (serialize n) short,
                    )),
                inr (
                    inr (
                      push_opcode_le (serialize n),
                      refl,
                      (check_minimal_push_iff (serialize n) _ large (omega (arith, short))).1 refl,
                    )),
              ))
    ]
  ]
]
