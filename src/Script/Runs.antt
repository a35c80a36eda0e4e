-- ===== src/Script/Runs.antt =====
-- The script engine on concrete inputs: tests, and its theorems where their conditions hold.
use metachain.Base.{
  ◌==◌, replicate, length-replicate, All-replicate, list_eq, ℕ, ◌%◌, ◌^◌, ◌≤◌, ◌<◌, ◌≡◌, refl, ◌≢◌,
  ◌↔◌, true, false, not, some, List, [], ◌∷◌, ◌++◌, arith,
}
use metachain.Base.Bytes.{IsByte, IsBytes}
use metachain.Base.Int.{pos, negsuc}
use metachain.Script.Opcode.{code, find_code, of_code}
use metachain.Script.Outcome.{Ensures, OnOk, ok}
use metachain.Script.Num.{
  back, le_value, set_vch, abs_bytes, add_sign, serialize, is_minimal, script_num, eq,
}
use metachain.Script.Num.RoundTrip.{set_vch-serialize, script_num-serialize}
use metachain.Script.Num.Minimal.{serialize-script_num}
use metachain.Script.Code.{
  push_data, operand, sized_operand, get_op, is_copy, skip_copies, find_and_delete_loop,
  replace_script, find_and_delete, get_sig_op_count, has_valid_ops,
}
use metachain.Script.Code.Reads.{push_opcode, get_op-push_data}
use metachain.Script.Code.Scans.{AllOps, ParsesInto, IsValidOp, has_valid_ops_iff, Parses}
use metachain.Script.Code.SigOps.{weights, get_sig_op_count_sum, read_next, read_stop}
use metachain.Script.Code.Deletes.{find_and_delete-Deleted, Deleted}
use metachain.Script.Encoding.{cast_to_bool, is_valid_signature_encoding, check_minimal_push}
use metachain.Script.Encoding.Der.{is_valid_signature_encoding_iff, IsDer}
use metachain.Script.Encoding.Truth.{cast_to_bool_iff}
use metachain.Script.Encoding.Minimal.{is_small, check_minimal_push_iff}
use metachain.Script.Checker.{Tx, Crypto, Checker}
use metachain.Script.Stack.{Stack, pick}
use metachain.Script.Stack.Algebra.{pick_result, pick-pick_result}
use metachain.Script.Machine.{
  on_stack, take_condition, exec_if, flip_branch, end_branch, on_branches, multisig_loop, check_sig,
}
use metachain.Script.Machine.Elements.{IsDigest, Digests}
use metachain.Script.Machine.Signatures.{Unverified, check_sig_refuses}
use metachain.Script.Interp.{
  is_disabled, push_number, all_true, exec, perform, count_ops, step, eval_loop, eval_script,
}
use metachain.Script.Interp.Limits.{IsResult}
use metachain.Script.Interp.Total.{eval_script-IsResult}
use metachain.Script.Interp.Syntax.{counted, nesting, IsAllowed, eval_script-Parses}
use metachain.Script.Literal.{push_int64}
use metachain.Script.Literal.Runs.{Puts, get_op-push_int64}
use metachain.Script.Verify.{verify_script}
use metachain.Script.Verify.Result.{Accepted, verify_script-Accepted, verify_script_clean_p2sh}
use metachain.Script.Flags

abbrev sample_crypto : Crypto
sample_crypto = record {
  ripemd160 = λ vch. replicate 20 7;
  sha1 = λ vch. replicate 20 8;
  sha256 = λ vch. replicate 32 9;
  hash256 = λ vch. replicate 32 10;
  verify = λ key hash sig. list_eq key sig;
}

abbrev sample_tx : Tx
sample_tx = record { vec_in_size = 1; vec_out_size = 1; lock_time = 0; hash = replicate 32 3 }

abbrev sample : Checker
sample = record { crypto = sample_crypto; tx = some sample_tx; n_in = 0 }

replicate-IsDigest : (n b : ℕ) → b < 256 → IsDigest n (replicate n b)
replicate-IsDigest n b h = (All-replicate IsByte n b h, length-replicate n b)

sample-Digests : Digests sample_crypto
sample-Digests = record {
  ripemd160_size = λ vch. replicate-IsDigest 20 7 (omega arith);
  sha1_size = λ vch. replicate-IsDigest 20 8 (omega arith);
  sha256_size = λ vch. replicate-IsDigest 32 9 (omega arith);
  hash256_size = λ vch. replicate-IsDigest 32 10 (omega arith);
}

-- 1 2 ADD 3 NUMEQUAL, and a script of a conditional.
abbrev sum_script : List ℕ
sum_script = 0x51 ∷ 0x52 ∷ 0x93 ∷ 0x53 ∷ 0x9c ∷ []

abbrev if_script : List ℕ
if_script = 0x51 ∷ 0x63 ∷ 0x52 ∷ 0x67 ∷ 0x53 ∷ 0x68 ∷ []

sum_script-IsBytes : IsBytes sum_script
sum_script-IsBytes = ground arith

if_script-IsBytes : IsBytes if_script
if_script-IsBytes = ground arith

if_runs :
    eval_script sample 0 if_script [] []
    ≡ ok (record {
      stack = (2 ∷ []) ∷ [];
      alt_stack = [];
      exec_stack = [];
      op_count = 3;
      code_hash = if_script;
    })
unfolding eval_script eval_loop step perform exec count_ops get_op operand sized_operand is_disabled
    of_code find_code code all_true push_number on_stack serialize add_sign abs_bytes exec_if
    take_condition on_branches flip_branch end_branch cast_to_bool
if_runs = refl

eval_script-IsResult_example : Ensures IsResult (eval_script sample 0 sum_script [] [])
eval_script-IsResult_example =
    eval_script-IsResult sample 0 sample-Digests sum_script [] [] sum_script-IsBytes tt tt
      (omega arith)

verify_script-Accepted_example :
    Ensures (Accepted sample 0) (verify_script sample 0 sum_script if_script [] [])
verify_script-Accepted_example =
    verify_script-Accepted sample 0 sample-Digests sum_script if_script sum_script-IsBytes
      if_script-IsBytes

verify_script_clean_p2sh_example :
    verify_script sample 0x101 sum_script if_script [] [] ≢ ok ((1 ∷ []) ∷ [])
verify_script_clean_p2sh_example =
    verify_script_clean_p2sh sample 0x101 sample-Digests sum_script if_script ((1 ∷ []) ∷ [])
      sum_script-IsBytes if_script-IsBytes (unfold Flags.has in refl) (unfold Flags.has in refl)

eval_script-Parses_example :
    (ops : List (ℕ × List ℕ)) × Parses if_script ops
    × AllOps IsAllowed ops
    × (nesting 0 ops ≡ some 0)
    × (counted ops ≤ 201)
eval_script-Parses_example =
    eval_script-Parses sample 0 sample-Digests if_script [] [] _ if_script-IsBytes tt tt
      (omega arith) if_runs

abbrev signed_stack : Stack
signed_stack = replicate 65 4 ∷ (7 ∷ 1 ∷ []) ∷ []

check_sig_refuses_example :
    OnOk (Unverified true) (check_sig sample 0 true [] signed_stack)
    × OnOk (λ b. b ≡ (1 == 0)) (multisig_loop sample 0 2 [] signed_stack 1 0 1 1)
check_sig_refuses_example = check_sig_refuses sample 0 true [] signed_stack 2 1 0 1 1

abbrev sample_signature : List ℕ
sample_signature = 0x30 ∷ 6 ∷ 2 ∷ 1 ∷ 5 ∷ 2 ∷ 1 ∷ 7 ∷ 1 ∷ []

is_valid_signature_encoding_iff_example :
    (is_valid_signature_encoding sample_signature ≡ true) ↔ IsDer sample_signature
is_valid_signature_encoding_iff_example = is_valid_signature_encoding_iff sample_signature

set_vch-serialize_example : set_vch (serialize (negsuc 254)) ≡ negsuc 254
set_vch-serialize_example = set_vch-serialize (negsuc 254) (omega arith)

script_num-serialize_example : script_num true (serialize (pos 128)) ≡ ok (pos 128)
script_num-serialize_example = script_num-serialize true (pos 128) (omega arith)

serialize-script_num_example : serialize (negsuc 127) ≡ 128 ∷ 128 ∷ []
serialize-script_num_example =
    serialize-script_num (128 ∷ 128 ∷ []) (ground arith)
      (unfold script_num is_minimal set_vch le_value back in refl)

get_op-push_data_example :
    get_op (push_data (7 ∷ 8 ∷ []) ++ (0x51 ∷ []))
    ≡ some (push_opcode (7 ∷ 8 ∷ []), 7 ∷ 8 ∷ [], 0x51 ∷ [])
get_op-push_data_example =
    get_op-push_data (7 ∷ 8 ∷ []) (0x51 ∷ []) (unfold push_data in omega arith)

abbrev deletable : List ℕ
deletable = 0x51 ∷ 1 ∷ 7 ∷ 1 ∷ 7 ∷ 0xac ∷ []

find_and_delete-Deleted_example :
    Deleted
      (1 ∷ 7 ∷ [])
      deletable
      (find_and_delete (1 ∷ 7 ∷ []) deletable).0
      (find_and_delete (1 ∷ 7 ∷ []) deletable).1
find_and_delete-Deleted_example = find_and_delete-Deleted (1 ∷ 7 ∷ []) deletable (omega arith)

deletes : find_and_delete (1 ∷ 7 ∷ []) deletable ≡ (2, 0x51 ∷ 0xac ∷ [])
unfolding find_and_delete find_and_delete_loop skip_copies is_copy replace_script get_op operand
    sized_operand code
deletes = refl

has_valid_ops_iff_example : (has_valid_ops if_script ≡ true) ↔ ParsesInto IsValidOp if_script
has_valid_ops_iff_example = has_valid_ops_iff if_script

get_sig_op_count_sum_example :
    get_sig_op_count true (0x52 ∷ 0xae ∷ 0xad ∷ [])
    ≡ weights true 0xff ((0x52, []) ∷ (0xae, []) ∷ (0xad, []) ∷ []) % 2 ^ 32
get_sig_op_count_sum_example =
    get_sig_op_count_sum true (0x52 ∷ 0xae ∷ 0xad ∷ []) ((0x52, []) ∷ (0xae, []) ∷ (0xad, []) ∷ [])
      (read_next {pc = 0x52 ∷ 0xae ∷ 0xad ∷ []} {vch = []} {rest = 0xae ∷ 0xad ∷ []} {opcode = 0x52}
        (unfold get_op code in refl)
        (read_next {pc = 0xae ∷ 0xad ∷ []} {vch = []} {rest = 0xad ∷ []} {opcode = 0xae}
          (unfold get_op code in refl)
          (read_next {pc = 0xad ∷ []} {vch = []} {rest = []} {opcode = 0xad}
            (unfold get_op code in refl) (read_stop {pc = []} (unfold get_op in refl)))))

cast_to_bool_iff_example : cast_to_bool (0 ∷ 0x80 ∷ []) ≡ not (eq (set_vch (0 ∷ 0x80 ∷ [])) (pos 0))
cast_to_bool_iff_example = cast_to_bool_iff (0 ∷ 0x80 ∷ []) (ground arith) (omega arith)

check_minimal_push_iff_example :
    (check_minimal_push (17 ∷ []) 1 ≡ true) ↔ (1 ≡ push_opcode (17 ∷ []))
check_minimal_push_iff_example =
    check_minimal_push_iff (17 ∷ []) 1 (unfold is_small in refl) (omega arith)

pick-pick_result_example :
    pick true false (serialize (pos 1) ∷ (5 ∷ []) ∷ (6 ∷ []) ∷ [])
    ≡ pick_result false 1 ((5 ∷ []) ∷ (6 ∷ []) ∷ [])
pick-pick_result_example = pick-pick_result true false 1 ((5 ∷ []) ∷ (6 ∷ []) ∷ []) (omega arith)

get_op-push_int64_example :
    (opcode : ℕ) × (vch : List ℕ) × (get_op (push_int64 (pos 17) ++ []) ≡ some (opcode, vch, []))
    × Puts (pos 17) opcode vch
get_op-push_int64_example = get_op-push_int64 (pos 17) [] (omega arith) (omega arith)
