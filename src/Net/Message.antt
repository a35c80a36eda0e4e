-- ===== src/Net/Message.antt =====
-- `netMessage` of src/network/netMessage.cpp: the header, and the reading of a message that arrives in
-- pieces.
use metachain.Base.{
  ltb, leb, ◌==◌, if◌then◌else◌, ltb→lt, lt→ltb, ==_iff, Bool-cases, Option-cases, if_both, length,
  get_elem?, get_or, take, drop, replicate, All, length-append, length-take, length-drop,
  length-replicate, take-append-drop, take-append, drop-append, take-append_of_length,
  drop-append_of_length, take-append_le, drop-append_le, take-append_add, drop-append_add, take_all,
  All-append, All-append_inv, All-take, All-drop, All-replicate, All-get_elem?, list_eq,
  list_eq_sound, list_eq_refl, ℕ, zero, suc, ◌+◌, ◌-◌, ◌*◌, ◌/◌, ◌%◌, ◌^◌, ◌≤◌, ◌<◌, bit_and,
  bit_or, ◌≡◌, refl, sym, ap, ◌∙◌, subst, ◌≢◌, ◌↔◌, ◌⊎◌, inl, inr, Bool, true, false, not, ◌&&◌,
  ◌||◌, Option, none, some, List, [], ◌∷◌, ◌++◌, map, arith,
}
use metachain.Script.Code.{
  max_script_element_size, max_ops_per_script, max_pubkeys_per_multisig, max_script_size,
  max_stack_size, max_opcode, write_le, read_le, push_data, operand, sized_operand, get_op, is_copy,
  skip_copies, find_and_delete_loop, replace_script, find_and_delete, op_number, count_op,
  sig_op_count_loop, get_sig_op_count, is_pay_to_script_hash, last_push_loop, get_sig_op_count_with,
  is_push_only_loop, is_push_only, has_valid_ops_loop, has_valid_ops, is_unspendable,
}
pub mod Pieces

-- `sizeof(sHeader)`: two numbers of 32 bits and one of 16, a checksum of 4 bytes, and 2 bytes of
-- padding behind.
abbrev pub header_size : ℕ
header_size = 16

abbrev pub checksum_size : ℕ
checksum_size = 4

abbrev pub max_payload_size : ℕ
max_payload_size = 33554432

-- The memory of an `sHeader` on a little-endian machine, and its fields in it.
unfoldable pub payload_size : List ℕ → ℕ
payload_size header = read_le (take 4 header)

unfoldable pub checksum : List ℕ → List ℕ
checksum header = take checksum_size (drop 10 header)

-- `m_uiPosition` is the number of bytes in `header`, or in `payload` once the header is complete; the
-- hasher has been fed the payload, and `m_pBuffer` holds both.
pub record NetMessage : Type 0 where
  pub header : List ℕ
  pub payload : List ℕ
  pub header_complete : Bool
  pub complete : Bool

-- The default constructor.
abbrev pub empty_message : NetMessage
empty_message = record { header = []; payload = []; header_complete = false; complete = false }

-- The bytes that are missing from the header, or from the payload.
unfoldable pub remaining : NetMessage → ℕ
remaining m =
    if m.header_complete
    then payload_size m.header - length m.payload
    else header_size - length m.header

-- `readData`, once the bytes that it takes are known. `none` is -1.
unfoldable pub absorb_header : NetMessage → List ℕ → Option NetMessage
absorb_header m chunk =
    let header = m.header ++ chunk in
    if ltb (length header) header_size
    then some (record m { header = header })
    else if ltb max_payload_size (payload_size header)
    then none
    else some
        (record m { header = header; header_complete = true; complete = payload_size header == 0 })

-- The return value goes with the message.
unfoldable pub took : ℕ → Option NetMessage → Option (ℕ × NetMessage)
took n none = none
took n (some m) = some (n, m)

module _ (hash256 : List ℕ → List ℕ) where
  unfoldable pub absorb_payload : NetMessage → List ℕ → Option NetMessage
  absorb_payload m chunk =
      let payload = m.payload ++ chunk in
      if not (payload_size m.header == length payload)
      then some (record m { payload = payload })
      else if list_eq (take checksum_size (hash256 payload)) (checksum m.header)
      then some (record m { payload = payload; complete = true })
      else none

  unfoldable pub absorb : NetMessage → List ℕ → Option NetMessage
  absorb m chunk = if m.header_complete then absorb_payload m chunk else absorb_header m chunk

  -- `readData`: how many bytes it took, and the message with them.
  unfoldable pub read_data : NetMessage → List ℕ → Option (ℕ × NetMessage)
  read_data m bytes = let chunk = take (remaining m) bytes in took (length chunk) (absorb m chunk)

  -- The constructor for sending: the checksum, the header with the contents of its padding, and the
  -- package.
  unfoldable pub make_checksum : List ℕ → List ℕ
  make_checksum payload =
      if ltb 0 (length payload)
      then take checksum_size (hash256 payload)
      else replicate checksum_size 0

  unfoldable pub make_header : ℕ → List ℕ → List ℕ → List ℕ
  make_header subject payload padding =
      (write_le 4 (length payload) ++ (write_le 4 0 ++ write_le 2 subject))
      ++ (make_checksum payload ++ padding)

  unfoldable pub get_package : ℕ → List ℕ → List ℕ → List ℕ
  get_package subject payload padding = make_header subject payload padding ++ payload
