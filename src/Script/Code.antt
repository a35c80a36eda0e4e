-- ===== src/Script/Code.antt =====
-- `CScript` of src/MCP/MCP06/script.h and script.cpp. A script is the list of its bytes, and an
-- iterator into it the list of the bytes from there to the end.
pub mod Reads
pub mod Scans
pub mod SigOps
pub mod Deletes
use metachain.Base.{
  ℕ, zero, suc, ◌+◌, ◌-◌, ◌*◌, ◌/◌, ◌%◌, ◌^◌, Bool, true, false, not, ◌&&◌, ◌||◌, Option, none,
  some, List, [], ◌∷◌, ◌++◌, ltb, leb, ◌==◌, if◌then◌else◌, length, take, drop, list_eq,
}
use metachain.Script.Opcode.{
  code, op_0, op_1, op_16, op_pushdata1, op_pushdata2, op_pushdata4, op_checksig, op_checksigverify,
  op_checkmultisig, op_checkmultisigverify, op_nop10, op_return, op_invalidopcode,
}
use mathlib.Core.Option

abbrev pub max_script_element_size : ℕ
max_script_element_size = 520

abbrev pub max_ops_per_script : ℕ
max_ops_per_script = 201

abbrev pub max_pubkeys_per_multisig : ℕ
max_pubkeys_per_multisig = 20

abbrev pub max_script_size : ℕ
max_script_size = 10000

abbrev pub max_stack_size : ℕ
max_stack_size = 1000

-- MAX_OPCODE
abbrev pub max_opcode : ℕ
max_opcode = code op_nop10

-- `WriteLE16` and `WriteLE32`: the low `k` bytes, lowest first.
unfoldable pub write_le : ℕ → ℕ → List ℕ
write_le zero n = []
write_le (suc k) n = (n % 256) ∷ write_le k (n / 256)

unfoldable pub read_le : List ℕ → ℕ
read_le [] = 0
read_le (b ∷ bs) = b + 256 * read_le bs

-- `operator<<(const std::vector<unsigned char>&)`: what it appends.
unfoldable pub push_data : List ℕ → List ℕ
unfolding write_le code
push_data b =
    if ltb (length b) (code op_pushdata1)
    then length b ∷ b
    else if leb (length b) 0xff
    then code op_pushdata1 ∷ length b ∷ b
    else if leb (length b) 0xffff
    then code op_pushdata2 ∷ (write_le 2 (length b) ++ b)
    else code op_pushdata4 ∷ (write_le 4 (length b) ++ b)

-- The negation of `end() - pc < k`. The difference is an int32_t (src/MCP/MCP06/prevector.h), which is
-- negative from 2^31 bytes on.
abbrev pub has_bytes : ℕ → List ℕ → Bool
has_bytes k pc = ltb (length pc) (2 ^ 31) && leb k (length pc)

-- The operand of a push: `size` bytes at `pc`.
unfoldable pub operand : ℕ → ℕ → List ℕ → Option (ℕ × List ℕ × List ℕ)
operand opcode size pc =
    if has_bytes size pc then some (opcode, take size pc, drop size pc) else none

-- A size of `k` bytes at `pc`, and the operand behind it.
unfoldable pub sized_operand : ℕ → ℕ → List ℕ → Option (ℕ × List ℕ × List ℕ)
unfolding operand read_le
sized_operand opcode k pc =
    if has_bytes k pc then operand opcode (read_le (take k pc)) (drop k pc) else none

-- `GetOp2`: the opcode, the bytes that it pushes, and the iterator behind it; `none` is `false`.
unfoldable pub get_op : List ℕ → Option (ℕ × List ℕ × List ℕ)
unfolding operand sized_operand code
get_op [] = none
get_op (opcode ∷ pc) =
    if not (has_bytes 1 (opcode ∷ pc))
    then none
    else if leb opcode (code op_pushdata4)
    then if ltb opcode (code op_pushdata1)
      then operand opcode opcode pc
      else if opcode == code op_pushdata1
      then sized_operand opcode 1 pc
      else if opcode == code op_pushdata2
      then sized_operand opcode 2 pc
      else sized_operand opcode 4 pc
    else some (opcode, [], pc)

-- The inner `while` of `FindAndDelete`: the copies of `b` at `pc` are skipped and counted. Each copy
-- is not empty, so `length pc` rounds are enough.
unfoldable pub is_copy : List ℕ → List ℕ → Bool
is_copy b pc = leb (length b) (length pc) && list_eq (take (length b) pc) b

unfoldable pub skip_copies : ℕ → List ℕ → List ℕ → ℕ × List ℕ
skip_copies zero b pc = (0, pc)
skip_copies (suc f) b pc = elim (is_copy b pc) [
  | true ↦ let (n, pc') = skip_copies f b (drop (length b) pc) in (suc n, pc')
  | false ↦ (0, pc)
]

-- The outer loop: the bytes of each instruction are kept, the copies in front of it are not.
unfoldable pub find_and_delete_loop : ℕ → List ℕ → List ℕ → ℕ × List ℕ
find_and_delete_loop zero b pc = (0, pc)
find_and_delete_loop (suc f) b pc =
    let (n, pc') = skip_copies (length pc) b pc in
    elim (get_op pc') [
      | none ↦ (n, pc')
      | some (opcode, vch, rest) ↦
          let (m, result) = find_and_delete_loop f b rest in
          (n + m, take (length pc' - length rest) pc' ++ result)
    ]

-- The script is replaced only if a copy was found.
unfoldable pub replace_script : List ℕ → ℕ × List ℕ → ℕ × List ℕ
replace_script script (n, result) = if ltb 0 n then (n, result) else (0, script)

-- `FindAndDelete`: how many copies it deleted, and the script afterwards.
unfoldable pub find_and_delete : List ℕ → List ℕ → ℕ × List ℕ
find_and_delete b script =
    if length b == 0
    then (0, script)
    else replace_script script (find_and_delete_loop (suc (length script)) b script)

-- What `DecodeOP_N` returns for an opcode from OP_1 to OP_16.
abbrev pub op_number : ℕ → ℕ
op_number opcode = opcode - (code op_1 - 1)

-- The body of the loop of `GetSigOpCount(bool fAccurate)`: the count, an unsigned int, after one more
-- opcode.
unfoldable pub count_op : Bool → ℕ → ℕ → ℕ → ℕ
unfolding code
count_op accurate n last opcode =
    if opcode == code op_checksig || opcode == code op_checksigverify
    then (n + 1) % 2 ^ 32
    else if opcode == code op_checkmultisig || opcode == code op_checkmultisigverify
    then if accurate && (leb (code op_1) last && leb last (code op_16))
      then (n + op_number last) % 2 ^ 32
      else (n + max_pubkeys_per_multisig) % 2 ^ 32
    else n

-- The loop. An instruction takes a byte at least, so as many rounds as there are bytes are enough,
-- here and below.
unfoldable pub sig_op_count_loop : ℕ → Bool → ℕ → ℕ → List ℕ → ℕ
sig_op_count_loop zero accurate n last pc = n
sig_op_count_loop (suc f) accurate n last pc = elim (get_op pc) [
  | none ↦ n
  | some (opcode, vch, rest) ↦
      sig_op_count_loop f accurate (count_op accurate n last opcode) opcode rest
]

unfoldable pub get_sig_op_count : Bool → List ℕ → ℕ
unfolding sig_op_count_loop count_op code
get_sig_op_count accurate script =
    sig_op_count_loop (length script) accurate 0 (code op_invalidopcode) script

-- P2SH is switched off in the source.
unfoldable pub is_pay_to_script_hash : List ℕ → Bool
is_pay_to_script_hash script = false

-- The loop of `GetSigOpCount(const CScript& scriptSig)`: what `scriptSig` pushes last; `none` where
-- the source returns 0 from the loop.
unfoldable pub last_push_loop : ℕ → List ℕ → List ℕ → Option (List ℕ)
unfolding code
last_push_loop f vdata [] = some vdata
last_push_loop zero vdata (b ∷ pc) = none
last_push_loop (suc f) vdata (b ∷ pc) = elim (get_op (b ∷ pc)) [
  | none ↦ none
  | some (opcode, vch, rest) ↦ if ltb (code op_16) opcode then none else last_push_loop f vch rest
]

unfoldable pub get_sig_op_count_with : List ℕ → List ℕ → ℕ
unfolding is_pay_to_script_hash last_push_loop get_sig_op_count
get_sig_op_count_with script_sig script =
    if not (is_pay_to_script_hash script)
    then get_sig_op_count true script
    else elim (last_push_loop (length script_sig) [] script_sig) [
      | none ↦ 0
      | some vdata ↦ get_sig_op_count true vdata
    ]

-- The loops of `IsPushOnly` and `HasValidOps`.
unfoldable pub is_push_only_loop : ℕ → List ℕ → Bool
unfolding code
is_push_only_loop f [] = true
is_push_only_loop zero (b ∷ pc) = false
is_push_only_loop (suc f) (b ∷ pc) = elim (get_op (b ∷ pc)) [
  | none ↦ false
  | some (opcode, vch, rest) ↦ if ltb (code op_16) opcode then false else is_push_only_loop f rest
]

unfoldable pub is_push_only : List ℕ → Bool
unfolding is_push_only_loop
is_push_only script = is_push_only_loop (length script) script

unfoldable pub has_valid_ops_loop : ℕ → List ℕ → Bool
unfolding code
has_valid_ops_loop f [] = true
has_valid_ops_loop zero (b ∷ pc) = false
has_valid_ops_loop (suc f) (b ∷ pc) = elim (get_op (b ∷ pc)) [
  | none ↦ false
  | some (opcode, vch, rest) ↦
      if ltb max_opcode opcode || ltb max_script_element_size (length vch)
      then false
      else has_valid_ops_loop f rest
]

unfoldable pub has_valid_ops : List ℕ → Bool
unfolding has_valid_ops_loop
has_valid_ops script = has_valid_ops_loop (length script) script

unfoldable pub is_unspendable : List ℕ → Bool
unfolding code
is_unspendable [] = false
is_unspendable (b ∷ bs) = b == code op_return || ltb max_script_size (length (b ∷ bs))
