-- ===== src/Script/Opcode.antt =====
-- `opcodetype` of src/MCP/MCP06/script.h: the enumerators and their values. An enumerator that has
-- two names there has the first one here; a byte that is no enumerator, such as a direct push of 1
-- to 75 bytes, is `other`.
use metachain.Base.{ℕ, ◌≡◌, refl, List, [], ◌∷◌, arith, ◌==◌, if◌then◌else◌}

pub data Opcode : Type 0 where
  op_0 op_pushdata1 op_pushdata2 op_pushdata4 op_1negate op_reserved op_1 op_2 op_3 op_4 op_5 :
      Opcode
  op_6 op_7 op_8 op_9 op_10 op_11 op_12 op_13 op_14 op_15 op_16 op_nop op_ver op_if op_notif :
      Opcode
  op_verif op_vernotif op_else op_endif op_verify op_return op_toaltstack op_fromaltstack : Opcode
  op_2drop op_2dup op_3dup op_2over op_2rot op_2swap op_ifdup op_depth op_drop op_dup op_nip :
      Opcode
  op_over op_pick op_roll op_rot op_swap op_tuck op_cat op_substr op_left op_right op_size : Opcode
  op_invert op_and op_or op_xor op_equal op_equalverify op_reserved1 op_reserved2 op_1add : Opcode
  op_1sub op_2mul op_2div op_negate op_abs op_not op_0notequal op_add op_sub op_mul op_div : Opcode
  op_mod op_lshift op_rshift op_booland op_boolor op_numequal op_numequalverify op_numnotequal :
      Opcode
  op_lessthan op_greaterthan op_lessthanorequal op_greaterthanorequal op_min op_max op_within :
      Opcode
  op_ripemd160 op_sha1 op_sha256 op_hash256 op_sha3_256 op_sha3_512 op_sha3_cshake : Opcode
  op_codeseparator op_checksig op_checksigverify op_checkmultisig op_checkmultisigverify : Opcode
  op_nop1 op_checklocktimeverify op_checksequenceverify op_nop4 op_nop5 op_nop6 op_nop7 : Opcode
  op_nop8 op_nop9 op_nop10 op_smallinteger op_pubkeys op_pubkeyhash op_pubkey op_invalidopcode :
      Opcode
  other : ℕ → Opcode

unfoldable pub code : Opcode → ℕ
code op_0 = 0x00
code op_pushdata1 = 0x4c
code op_pushdata2 = 0x4d
code op_pushdata4 = 0x4e
code op_1negate = 0x4f
code op_reserved = 0x50
code op_1 = 0x51
code op_2 = 0x52
code op_3 = 0x53
code op_4 = 0x54
code op_5 = 0x55
code op_6 = 0x56
code op_7 = 0x57
code op_8 = 0x58
code op_9 = 0x59
code op_10 = 0x5a
code op_11 = 0x5b
code op_12 = 0x5c
code op_13 = 0x5d
code op_14 = 0x5e
code op_15 = 0x5f
code op_16 = 0x60
code op_nop = 0x61
code op_ver = 0x62
code op_if = 0x63
code op_notif = 0x64
code op_verif = 0x65
code op_vernotif = 0x66
code op_else = 0x67
code op_endif = 0x68
code op_verify = 0x69
code op_return = 0x6a
code op_toaltstack = 0x6b
code op_fromaltstack = 0x6c
code op_2drop = 0x6d
code op_2dup = 0x6e
code op_3dup = 0x6f
code op_2over = 0x70
code op_2rot = 0x71
code op_2swap = 0x72
code op_ifdup = 0x73
code op_depth = 0x74
code op_drop = 0x75
code op_dup = 0x76
code op_nip = 0x77
code op_over = 0x78
code op_pick = 0x79
code op_roll = 0x7a
code op_rot = 0x7b
code op_swap = 0x7c
code op_tuck = 0x7d
code op_cat = 0x7e
code op_substr = 0x7f
code op_left = 0x80
code op_right = 0x81
code op_size = 0x82
code op_invert = 0x83
code op_and = 0x84
code op_or = 0x85
code op_xor = 0x86
code op_equal = 0x87
code op_equalverify = 0x88
code op_reserved1 = 0x89
code op_reserved2 = 0x8a
code op_1add = 0x8b
code op_1sub = 0x8c
code op_2mul = 0x8d
code op_2div = 0x8e
code op_negate = 0x8f
code op_abs = 0x90
code op_not = 0x91
code op_0notequal = 0x92
code op_add = 0x93
code op_sub = 0x94
code op_mul = 0x95
code op_div = 0x96
code op_mod = 0x97
code op_lshift = 0x98
code op_rshift = 0x99
code op_booland = 0x9a
code op_boolor = 0x9b
code op_numequal = 0x9c
code op_numequalverify = 0x9d
code op_numnotequal = 0x9e
code op_lessthan = 0x9f
code op_greaterthan = 0xa0
code op_lessthanorequal = 0xa1
code op_greaterthanorequal = 0xa2
code op_min = 0xa3
code op_max = 0xa4
code op_within = 0xa5
code op_ripemd160 = 0xa6
code op_sha1 = 0xa7
code op_sha256 = 0xa8
code op_hash256 = 0xaa
code op_sha3_256 = 0xba
code op_sha3_512 = 0xbb
code op_sha3_cshake = 0xbc
code op_codeseparator = 0xab
code op_checksig = 0xac
code op_checksigverify = 0xad
code op_checkmultisig = 0xae
code op_checkmultisigverify = 0xaf
code op_nop1 = 0xb0
code op_checklocktimeverify = 0xb1
code op_checksequenceverify = 0xb2
code op_nop4 = 0xb3
code op_nop5 = 0xb4
code op_nop6 = 0xb5
code op_nop7 = 0xb6
code op_nop8 = 0xb7
code op_nop9 = 0xb8
code op_nop10 = 0xb9
code op_smallinteger = 0xfa
code op_pubkeys = 0xfb
code op_pubkeyhash = 0xfd
code op_pubkey = 0xfe
code op_invalidopcode = 0xff
code (other n) = n

-- Every enumerator.
abbrev pub opcodes : List Opcode
opcodes =
    op_0 ∷ op_pushdata1 ∷ op_pushdata2 ∷ op_pushdata4 ∷ op_1negate ∷ op_reserved ∷ op_1 ∷ op_2
    ∷ op_3 ∷ op_4 ∷ op_5 ∷ op_6 ∷ op_7 ∷ op_8 ∷ op_9 ∷ op_10 ∷ op_11 ∷ op_12 ∷ op_13 ∷ op_14 ∷ op_15
    ∷ op_16 ∷ op_nop ∷ op_ver ∷ op_if ∷ op_notif ∷ op_verif ∷ op_vernotif ∷ op_else ∷ op_endif
    ∷ op_verify ∷ op_return ∷ op_toaltstack ∷ op_fromaltstack ∷ op_2drop ∷ op_2dup ∷ op_3dup
    ∷ op_2over ∷ op_2rot ∷ op_2swap ∷ op_ifdup ∷ op_depth ∷ op_drop ∷ op_dup ∷ op_nip ∷ op_over
    ∷ op_pick ∷ op_roll ∷ op_rot ∷ op_swap ∷ op_tuck ∷ op_cat ∷ op_substr ∷ op_left ∷ op_right
    ∷ op_size ∷ op_invert ∷ op_and ∷ op_or ∷ op_xor ∷ op_equal ∷ op_equalverify ∷ op_reserved1
    ∷ op_reserved2 ∷ op_1add ∷ op_1sub ∷ op_2mul ∷ op_2div ∷ op_negate ∷ op_abs ∷ op_not
    ∷ op_0notequal ∷ op_add ∷ op_sub ∷ op_mul ∷ op_div ∷ op_mod ∷ op_lshift ∷ op_rshift ∷ op_booland
    ∷ op_boolor ∷ op_numequal ∷ op_numequalverify ∷ op_numnotequal ∷ op_lessthan ∷ op_greaterthan
    ∷ op_lessthanorequal ∷ op_greaterthanorequal ∷ op_min ∷ op_max ∷ op_within ∷ op_ripemd160
    ∷ op_sha1 ∷ op_sha256 ∷ op_hash256 ∷ op_sha3_256 ∷ op_sha3_512 ∷ op_sha3_cshake
    ∷ op_codeseparator ∷ op_checksig ∷ op_checksigverify ∷ op_checkmultisig ∷ op_checkmultisigverify
    ∷ op_nop1 ∷ op_checklocktimeverify ∷ op_checksequenceverify ∷ op_nop4 ∷ op_nop5 ∷ op_nop6
    ∷ op_nop7 ∷ op_nop8 ∷ op_nop9 ∷ op_nop10 ∷ op_smallinteger ∷ op_pubkeys ∷ op_pubkeyhash
    ∷ op_pubkey ∷ op_invalidopcode ∷ []

unfoldable pub find_code : ℕ → List Opcode → Opcode
unfolding code
find_code n [] = other n
find_code n (o ∷ os) = if code o == n then o else find_code n os

-- The cast `(opcodetype)opcode`.
unfoldable pub of_code : ℕ → Opcode
unfolding find_code
of_code n = find_code n opcodes

code-find_code : (n : ℕ) (os : List Opcode) → code (find_code n os) ≡ n
unfolding find_code code
code-find_code n [] = refl
code-find_code n (o ∷ os) = ground (arith, code-find_code n os)

-- The cast keeps the number.
pub code-of_code : (n : ℕ) → code (of_code n) ≡ n
unfolding of_code
code-of_code n = code-find_code n opcodes
