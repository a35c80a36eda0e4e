-- ===== src/Script/Code/Scans.antt =====
-- `IsPushOnly` and `HasValidOps` (src/MCP/MCP06/script.cpp) and the instructions of a script.
use metachain.Base.{
  ℕ, zero, suc, ◌≤◌, ◌≡◌, refl, ◌∙◌, inl, inr, ◌↔◌, true, some, List, [], ◌∷◌, arith, length,
  Option-cases,
}
use metachain.Script.Code.{
  get_op, is_push_only_loop, is_push_only, has_valid_ops_loop, has_valid_ops,
}
use metachain.Script.Code.Reads.{get_op_shorter}

-- The script is a whole number of instructions, each with its opcode and the bytes that it pushes.
pub data Parses : List ℕ → List (ℕ × List ℕ) → Type 0 where
  done : Parses [] []
  next :
      {pc vch rest : List ℕ} {opcode : ℕ} {ops : List (ℕ × List ℕ)}
      → get_op pc ≡ some (opcode, vch, rest)
      → Parses rest ops
      → Parses pc ((opcode, vch) ∷ ops)

abbrev pub AllOps : (ℕ → List ℕ → Type 0) → List (ℕ × List ℕ) → Type 0
AllOps P [] = Unit
AllOps P ((opcode, vch) ∷ ops) = P opcode vch × AllOps P ops

abbrev pub ParsesInto : (ℕ → List ℕ → Type 0) → List ℕ → Type 0
ParsesInto P pc = (ops : List (ℕ × List ℕ)) × Parses pc ops × AllOps P ops

parses_next :
    (P : ℕ → List ℕ → Type 0) (pc vch rest : List ℕ) (o : ℕ)
    → get_op pc ≡ some (o, vch, rest)
    → P o vch
    → ParsesInto P rest
    → ParsesInto P pc
parses_next P pc vch rest o e p (ops, q, r) = ((o, vch) ∷ ops, next e q, (p, r))

-- An instruction that `IsPushOnly` accepts, and one that `HasValidOps` accepts.
abbrev pub IsPush : ℕ → List ℕ → Type 0
IsPush opcode vch = opcode ≤ 0x60

abbrev pub IsValidOp : ℕ → List ℕ → Type 0
IsValidOp opcode vch = (opcode ≤ 0xb9) × (length vch ≤ 520)

is_push_only_loop_sound :
    (f : ℕ) (pc : List ℕ) → is_push_only_loop f pc ≡ true → ParsesInto IsPush pc
unfolding is_push_only_loop
is_push_only_loop_sound f [] h = ([], done, tt)
is_push_only_loop_sound zero (b ∷ pc) h = absurd (cc)
is_push_only_loop_sound (suc f) (b ∷ pc) h = elim (Option-cases (get_op (b ∷ pc))) [
  | inl e ↦ absurd (ground arith)
  | inr ((o, vch, rest), e) ↦
      parses_next IsPush (b ∷ pc) vch rest o e (ground arith)
        (is_push_only_loop_sound f rest (ground arith))
]

is_push_only_step :
    (f : ℕ) (pc vch rest : List ℕ) (o : ℕ)
    → get_op pc ≡ some (o, vch, rest)
    → o ≤ 0x60
    → is_push_only_loop (suc f) pc ≡ is_push_only_loop f rest
unfolding is_push_only_loop
is_push_only_step f [] vch rest o e h = absurd (unfold get_op in cc)
is_push_only_step f (b ∷ pc) vch rest o e h = ground arith

is_push_only_loop_complete :
    (f : ℕ) {pc : List ℕ} {ops : List (ℕ × List ℕ)}
    → Parses pc ops
    → AllOps IsPush ops
    → length pc ≤ f
    → is_push_only_loop f pc ≡ true
is_push_only_loop_complete f done h l = unfold is_push_only_loop in refl
is_push_only_loop_complete zero (next {pc} {vch} {rest} {opcode = o} e q) h l =
    absurd (omega (arith, get_op_shorter pc o vch rest e))
is_push_only_loop_complete (suc f) (next {pc} {vch} {rest} {opcode = o} e q) h l =
    is_push_only_step f pc vch rest o e h.0
    ∙ is_push_only_loop_complete f q h.1 (omega (arith, get_op_shorter pc o vch rest e))

-- `IsPushOnly` holds exactly of the scripts that are whole instructions with opcodes up to OP_16.
pub is_push_only_iff : (pc : List ℕ) → (is_push_only pc ≡ true) ↔ ParsesInto IsPush pc
unfolding is_push_only
is_push_only_iff pc = (
  is_push_only_loop_sound (length pc) pc,
  λ (ops, p, h). is_push_only_loop_complete (length pc) p h (omega arith),
)

has_valid_ops_loop_sound :
    (f : ℕ) (pc : List ℕ) → has_valid_ops_loop f pc ≡ true → ParsesInto IsValidOp pc
unfolding has_valid_ops_loop
has_valid_ops_loop_sound f [] h = ([], done, tt)
has_valid_ops_loop_sound zero (b ∷ pc) h = absurd (cc)
has_valid_ops_loop_sound (suc f) (b ∷ pc) h = elim (Option-cases (get_op (b ∷ pc))) [
  | inl e ↦ absurd (ground arith)
  | inr ((o, vch, rest), e) ↦
      parses_next IsValidOp (b ∷ pc) vch rest o e (ground arith, ground arith)
        (has_valid_ops_loop_sound f rest (ground arith))
]

has_valid_ops_step :
    (f : ℕ) (pc vch rest : List ℕ) (o : ℕ)
    → get_op pc ≡ some (o, vch, rest)
    → IsValidOp o vch
    → has_valid_ops_loop (suc f) pc ≡ has_valid_ops_loop f rest
unfolding has_valid_ops_loop
has_valid_ops_step f [] vch rest o e h = absurd (unfold get_op in cc)
has_valid_ops_step f (b ∷ pc) vch rest o e h = ground arith

has_valid_ops_loop_complete :
    (f : ℕ) {pc : List ℕ} {ops : List (ℕ × List ℕ)}
    → Parses pc ops
    → AllOps IsValidOp ops
    → length pc ≤ f
    → has_valid_ops_loop f pc ≡ true
has_valid_ops_loop_complete f done h l = unfold has_valid_ops_loop in refl
has_valid_ops_loop_complete zero (next {pc} {vch} {rest} {opcode = o} e q) h l =
    absurd (omega (arith, get_op_shorter pc o vch rest e))
has_valid_ops_loop_complete (suc f) (next {pc} {vch} {rest} {opcode = o} e q) h l =
    has_valid_ops_step f pc vch rest o e h.0
    ∙ has_valid_ops_loop_complete f q h.1 (omega (arith, get_op_shorter pc o vch rest e))

-- `HasValidOps` holds exactly of the scripts that are whole instructions, as `GetOp` reads them, with
-- opcodes up to OP_NOP10, none of which pushes more than 520 bytes.
pub has_valid_ops_iff : (pc : List ℕ) → (has_valid_ops pc ≡ true) ↔ ParsesInto IsValidOp pc
unfolding has_valid_ops
has_valid_ops_iff pc = (
  has_valid_ops_loop_sound (length pc) pc,
  λ (ops, p, h). has_valid_ops_loop_complete (length pc) p h (omega arith),
)
