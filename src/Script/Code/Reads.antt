-- ===== src/Script/Code/Reads.antt =====
-- Reading a script instruction by instruction (src/MCP/MCP06/script.h, `GetOp2`).
use metachain.Base.{
  ℕ, zero, suc, ◌+◌, ◌-◌, ◌/◌, ◌%◌, ◌^◌, ◌≤◌, ◌<◌, ◌≡◌, refl, sym, ap, ◌∙◌, ◌⊎◌, inl, inr, ltb, leb,
  ◌==◌, if◌then◌else◌, none, some, List, [], ◌∷◌, ◌++◌, arith, length, take, drop, length-take,
  take-append-drop, take-append, drop-append, take-append_of_length, drop-append_of_length,
  length-append,
}
use native.Mathlib.Nat.{pow-suc}
use mathlib.Core.List.{append_assoc}
use metachain.Script.Opcode.{code, op_pushdata1, op_pushdata2, op_pushdata4}
use metachain.Script.Code.{get_op, operand, sized_operand, push_data, write_le, read_le}

-- What `GetOp` can return at `pc`: the opcode is the first byte, and the operand and the rest lie
-- behind it, in this order, with at most four bytes of a size between them.
pub record Reads (pc : List ℕ) (opcode : ℕ) (vch rest : List ℕ) : Type 0 where
  pub size : List ℕ
  pub layout : pc ≡ opcode ∷ (size ++ (vch ++ rest))
  pub short : length size ≤ 4

operand-layout :
    (o k o' : ℕ) (pc vch rest : List ℕ)
    → operand o k pc ≡ some (o', vch, rest)
    → (o' ≡ o) × (pc ≡ vch ++ rest) × (length vch ≡ k)
unfolding operand
operand-layout o k o' pc vch rest e = ground (arith, take-append-drop k pc, length-take k pc)

sized_operand-layout :
    (o k o' : ℕ) (pc vch rest : List ℕ)
    → sized_operand o k pc ≡ some (o', vch, rest)
    → (o' ≡ o) × (pc ≡ take k pc ++ (vch ++ rest))
unfolding sized_operand
sized_operand-layout o k o' pc vch rest e =
    ground
      (arith, take-append-drop k pc, operand-layout o (read_le (take k pc)) o' (drop k pc) vch rest)

size_bytes : ℕ → ℕ
unfolding code
size_bytes b = if b == code op_pushdata1 then 1 else if b == code op_pushdata2 then 2 else 4

size_bytes-le : (b : ℕ) → size_bytes b ≤ 4
unfolding size_bytes
size_bytes-le b = ground arith

get_op_cases :
    (b : ℕ) (pc : List ℕ)
    → (get_op (b ∷ pc) ≡ operand b b pc)
      ⊎ (get_op (b ∷ pc) ≡ sized_operand b (size_bytes b) pc)
      ⊎ (get_op (b ∷ pc) ≡ some (b, [], pc))
      ⊎ (get_op (b ∷ pc) ≡ none)
unfolding get_op size_bytes
get_op_cases b pc = ground arith

pub get_op-Reads :
    (pc : List ℕ) (o : ℕ) (vch rest : List ℕ)
    → get_op pc ≡ some (o, vch, rest)
    → Reads pc o vch rest
get_op-Reads [] o vch rest e = absurd (unfold get_op in cc)
get_op-Reads (b ∷ pc) o vch rest e = elim (get_op_cases b pc) [
  | inl c ↦
      let (p, q, _) = operand-layout b b o pc vch rest (sym c ∙ e) in
      record { size = []; layout = rw (p, q); short = omega arith }
  | inr (inl c) ↦
      let (p, q) = sized_operand-layout b (size_bytes b) o pc vch rest (sym c ∙ e) in
      record {
        size = take (size_bytes b) pc;
        layout = ground arith;
        short = omega (arith, length-take (size_bytes b) pc, size_bytes-le b);
      }
  | inr (inr (inl c)) ↦ record { size = []; layout = ground arith; short = omega arith }
  | inr (inr (inr c)) ↦ absurd (cc (c, e))
]

-- Every instruction takes a byte at least, so a loop over a script ends.
pub get_op_shorter :
    (pc : List ℕ) (o : ℕ) (vch rest : List ℕ)
    → get_op pc ≡ some (o, vch, rest)
    → length rest < length pc
get_op_shorter pc o vch rest e =
    let r = get_op-Reads pc o vch rest e in
    omega (arith, ap length r.layout, length-append r.size (vch ++ rest), length-append vch rest)

pub write_le-read_le : (k n : ℕ) → n < 256 ^ k → read_le (write_le k n) ≡ n
unfolding write_le read_le
write_le-read_le zero n h = omega arith
write_le-read_le (suc k) n h =
    omega (arith, pow-suc 256 k, write_le-read_le k (n / 256) (omega (arith, pow-suc 256 k)))

pub length-write_le : (k n : ℕ) → length (write_le k n) ≡ k
unfolding write_le
length-write_le zero n = refl
length-write_le (suc k) n = ap suc (length-write_le k (n / 256))

operand-append :
    (o : ℕ) (b rest : List ℕ)
    → length b + length rest < 2 ^ 31
    → operand o (length b) (b ++ rest) ≡ some (o, b, rest)
unfolding operand
operand-append o b rest h =
    ground (arith, length-append b rest, take-append b rest, drop-append b rest)

sized_operand-append :
    (o k : ℕ) (b rest : List ℕ)
    → length b < 256 ^ k
    → k + (length b + length rest) < 2 ^ 31
    → sized_operand o k (write_le k (length b) ++ (b ++ rest)) ≡ some (o, b, rest)
unfolding sized_operand
sized_operand-append o k b rest h room = ground (
  arith,
  length-append (write_le k (length b)) (b ++ rest),
  length-append b rest,
  length-write_le k (length b),
  take-append_of_length k (write_le k (length b)) (b ++ rest) (length-write_le k (length b)),
  drop-append_of_length k (write_le k (length b)) (b ++ rest) (length-write_le k (length b)),
  write_le-read_le k (length b) h,
  operand-append o b rest (omega (arith, room)),
)

one_byte_size :
    (b rest : List ℕ)
    → length b < 256
    → length b + length rest < 2 ^ 31 - 1
    → sized_operand (code op_pushdata1) 1 (length b ∷ (b ++ rest))
      ≡ some (code op_pushdata1, b, rest)
unfolding write_le code
one_byte_size b rest h room =
    let same : length b % 256 ≡ length b = omega arith in
    rw same at (sized_operand-append (code op_pushdata1) 1 b rest (omega arith) (omega arith))

-- The opcode that `operator<<` chooses for the bytes `b`.
unfoldable pub push_opcode : List ℕ → ℕ
unfolding code
push_opcode b =
    if ltb (length b) (code op_pushdata1)
    then length b
    else if leb (length b) 0xff
    then code op_pushdata1
    else if leb (length b) 0xffff
    then code op_pushdata2
    else code op_pushdata4

-- A script that `operator<<` has appended bytes to pushes those bytes, and goes on with what follows:
-- `GetOp` reads the whole push back, where the script from there on has fewer than 2^31 bytes.
pub get_op-push_data :
    (b rest : List ℕ)
    → length (push_data b ++ rest) < 2 ^ 31
    → get_op (push_data b ++ rest) ≡ some (push_opcode b, b, rest)
unfolding get_op push_data push_opcode
get_op-push_data b rest h = ground (
  arith,
  length-append b rest,
  length-append (write_le 2 (length b)) b,
  length-append (write_le 4 (length b)) b,
  length-append (write_le 2 (length b) ++ b) rest,
  length-append (write_le 4 (length b) ++ b) rest,
  length-write_le 2 (length b),
  length-write_le 4 (length b),
  operand-append (length b) b rest,
  one_byte_size b rest,
  append_assoc (write_le 2 (length b)) b rest,
  append_assoc (write_le 4 (length b)) b rest,
  sized_operand-append (code op_pushdata2) 2 b rest,
  sized_operand-append (code op_pushdata4) 4 b rest,
)
