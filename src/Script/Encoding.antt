-- ===== src/Script/Encoding.antt =====
-- The encodings that the script engine checks (src/MCP/MCP06/scriptFunctions.cpp). Each check of a
-- signature or a key that reports to `serror` is an outcome.
pub mod Der
pub mod Truth
pub mod Minimal
use metachain.Base.{
  ℕ, zero, suc, ◌+◌, ◌-◌, Bool, true, false, not, ◌&&◌, ◌||◌, List, [], ◌∷◌, bit_and, bit_or, ltb,
  leb, ◌==◌, if◌then◌else◌, length, get_or,
}
use metachain.Base.Bytes.{high_bit}
use metachain.Script.Flags
use metachain.Script.Num.{back}
use metachain.Script.Outcome.{Outcome, ok, err, ◌>>◌, require, sig_der, sig_hashtype, pubkeytype}
use metachain.Script.Opcode.{code, op_0, op_1, op_1negate, op_pushdata1, op_pushdata2}

-- 0x80 as the last byte is a negative zero.
unfoldable pub cast_to_bool : List ℕ → Bool
cast_to_bool [] = false
cast_to_bool (b ∷ []) = if b == 0 then false else not (b == 0x80)
cast_to_bool (b ∷ c ∷ bs) = if b == 0 then cast_to_bool (c ∷ bs) else true

-- The three tests that `IsValidSignatureEncoding` makes of R, at index 4, and of S.
unfoldable pub is_integer : List ℕ → ℕ → ℕ → Bool
is_integer sig i len =
    if len == 0
    then false
    else if high_bit (get_or sig i 0)
    then false
    else not (ltb 1 len && (get_or sig i 0 == 0 && not (high_bit (get_or sig (i + 1) 0))))

-- An index is read after the test that it lies within the signature.
unfoldable pub is_valid_signature_encoding : List ℕ → Bool
is_valid_signature_encoding sig =
    let len_r = get_or sig 3 0 in
    let len_s = get_or sig (5 + len_r) 0 in
    if ltb (length sig) 9
    then false
    else if ltb 73 (length sig)
    then false
    else if not (get_or sig 0 0 == 0x30)
    then false
    else if not (get_or sig 1 0 == length sig - 3)
    then false
    else if leb (length sig) (5 + len_r)
    then false
    else if not (len_r + len_s + 7 == length sig)
    then false
    else if not (get_or sig 2 0 == 0x02)
    then false
    else if not (is_integer sig 4 len_r)
    then false
    else if not (get_or sig (len_r + 4) 0 == 0x02)
    then false
    else is_integer sig (len_r + 6) len_s

-- The test for a low S is missing in the source.
unfoldable pub is_low_der_signature : List ℕ → Outcome (Unit {0})
is_low_der_signature sig = require (is_valid_signature_encoding sig) sig_der

abbrev pub hash_all : ℕ
hash_all = 1

abbrev pub hash_single : ℕ
hash_single = 3

-- `HASH_ANYONECANPAY`, the top bit, is masked out.
unfoldable pub is_defined_hashtype_signature : List ℕ → Bool
is_defined_hashtype_signature sig =
    let hash_type = bit_and (back 0 sig) 0x7f in
    if length sig == 0 then false else not (ltb hash_type hash_all || ltb hash_single hash_type)

unfoldable pub check_signature_encoding : List ℕ → ℕ → Outcome (Unit {0})
check_signature_encoding sig flags =
    let der = Flags.has flags (bit_or Flags.dersig (bit_or Flags.low_s Flags.strictenc)) in
    if length sig == 0
    then ok tt
    else if der && not (is_valid_signature_encoding sig)
    then err sig_der
    else (if Flags.has flags Flags.low_s then is_low_der_signature sig else ok tt)
      >> require (not (Flags.has flags Flags.strictenc && not (is_defined_hashtype_signature sig)))
          sig_hashtype

unfoldable pub is_compressed_or_uncompressed_pub_key : List ℕ → Bool
is_compressed_or_uncompressed_pub_key key =
    let first = get_or key 0 0 in
    if ltb (length key) 33
    then false
    else if first == 0x04
    then length key == 65
    else if first == 0x02 || first == 0x03
    then length key == 33
    else false

unfoldable pub is_compressed_pub_key : List ℕ → Bool
is_compressed_pub_key key =
    if not (length key == 33) then false else get_or key 0 0 == 0x02 || get_or key 0 0 == 0x03

unfoldable pub check_pub_key_encoding : List ℕ → ℕ → Outcome (Unit {0})
check_pub_key_encoding key flags =
    require
      (not (Flags.has flags Flags.strictenc && not (is_compressed_or_uncompressed_pub_key key)))
      pubkeytype

-- Whether `opcode` is the shortest push of `vch`.
unfoldable pub check_minimal_push : List ℕ → ℕ → Bool
unfolding code
check_minimal_push vch opcode =
    let first = get_or vch 0 0 in
    if length vch == 0
    then opcode == code op_0
    else if length vch == 1 && (leb 1 first && leb first 16)
    then opcode == code op_1 + (first - 1)
    else if length vch == 1 && first == 0x81
    then opcode == code op_1negate
    else if leb (length vch) 75
    then opcode == length vch
    else if leb (length vch) 255
    then opcode == code op_pushdata1
    else if leb (length vch) 65535
    then opcode == code op_pushdata2
    else true
