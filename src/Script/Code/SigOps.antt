-- ===== src/Script/Code/SigOps.antt =====
-- `GetSigOpCount` of src/MCP/MCP06/script.cpp.
use metachain.Base.{
  leb, if◌then◌else◌, ◌&&◌, ℕ, zero, suc, ◌+◌, ◌-◌, ◌%◌, ◌^◌, ◌≤◌, ◌<◌, ◌≡◌, ap, ◌∙◌, Bool, none,
  some, List, [], ◌∷◌, arith, length,
}
use metachain.Script.Code.{get_op, sig_op_count_loop, get_sig_op_count, count_op}
use metachain.Script.Code.Reads.{get_op_shorter}

-- The instructions of a script up to its end, or up to bytes that are none.
pub data ReadsUpTo : List ℕ → List (ℕ × List ℕ) → Type 0 where
  read_stop : {pc : List ℕ} → get_op pc ≡ none → ReadsUpTo pc []
  read_next :
      {pc vch rest : List ℕ} {opcode : ℕ} {ops : List (ℕ × List ℕ)}
      → get_op pc ≡ some (opcode, vch, rest)
      → ReadsUpTo rest ops
      → ReadsUpTo pc ((opcode, vch) ∷ ops)

-- What an opcode counts for behind the opcode `last`: one for OP_CHECKSIG and OP_CHECKSIGVERIFY; for
-- OP_CHECKMULTISIG and OP_CHECKMULTISIGVERIFY the number that `last` is, if that counts, or else 20.
abbrev pub weight : Bool → ℕ → ℕ → ℕ
weight accurate last opcode =
    if leb 0xac opcode && leb opcode 0xad
    then 1
    else if leb 0xae opcode && leb opcode 0xaf
    then (if accurate && (leb 0x51 last && leb last 0x60) then last - 0x50 else 20)
    else 0

abbrev pub weights : Bool → ℕ → List (ℕ × List ℕ) → ℕ
weights accurate last [] = 0
weights accurate last ((opcode, vch) ∷ ops) =
    weight accurate last opcode + weights accurate opcode ops

count_op-weight :
    (accurate : Bool) (n last opcode : ℕ)
    → n < 2 ^ 32
    → count_op accurate n last opcode ≡ (n + weight accurate last opcode) % 2 ^ 32
unfolding count_op
count_op-weight accurate n last opcode h = ground arith

sig_op_count_loop-weights :
    (f : ℕ) (accurate : Bool) (n last : ℕ) {pc : List ℕ} {ops : List (ℕ × List ℕ)}
    → ReadsUpTo pc ops
    → length pc ≤ f
    → n < 2 ^ 32
    → sig_op_count_loop f accurate n last pc ≡ (n + weights accurate last ops) % 2 ^ 32
unfolding sig_op_count_loop
sig_op_count_loop-weights zero accurate n last (read_stop e) l h = omega (arith, h)
sig_op_count_loop-weights (suc f) accurate n last (read_stop e) l h =
    rw (e, sig_op_count_loop) (omega (arith, h))
sig_op_count_loop-weights zero accurate n last (read_next {pc} {vch} {rest} {opcode = o} e r) l h =
    absurd (omega (arith, get_op_shorter pc o vch rest e))
sig_op_count_loop-weights (suc f) accurate n last (read_next {pc} {vch} {rest} {opcode = o} e r) l
      h =
    rw (e, sig_op_count_loop)
      (let c = count_op-weight accurate n last o h in
        sig_op_count_loop-weights f accurate (count_op accurate n last o) o r
          (omega (arith, get_op_shorter pc o vch rest e)) (omega (arith, c))
        ∙ omega (arith, c))

-- `GetSigOpCount` of a script is the sum, as an unsigned int, of what its instructions count for, up to
-- bytes that are no instruction: one for each OP_CHECKSIG and OP_CHECKSIGVERIFY, and 20 for each
-- OP_CHECKMULTISIG and OP_CHECKMULTISIGVERIFY, or, in the accurate count, the number that the opcode in
-- front of it is, if it is one from OP_1 to OP_16.
pub get_sig_op_count_sum :
    (accurate : Bool) (script : List ℕ) (ops : List (ℕ × List ℕ))
    → ReadsUpTo script ops
    → get_sig_op_count accurate script ≡ weights accurate 0xff ops % 2 ^ 32
unfolding get_sig_op_count
get_sig_op_count_sum accurate script ops r =
    sig_op_count_loop-weights (length script) accurate 0 0xff r (omega arith) (omega arith)
    ∙ ap (λ n. n % 2 ^ 32) (omega arith)
