-- ===== src/Script/Checker.antt =====
-- `signatureChecker` of src/MCP/MCP06/signatureChecker.cpp, `signatureHash` of scriptFunctions.cpp, and
-- what they use of `Account` of src/MCP/MCP01/Account.cpp.
use metachain.Base.{
  ℕ, Bool, false, not, ◌&&◌, ◌||◌, List, [], ◌∷◌, bit_and, leb, ltb, ◌==◌, if◌then◌else◌, replicate,
  length, take, Option, none, some,
}
use metachain.Script.Outcome.{Outcome, ok, undefined, ◌>>=◌}
use metachain.Base.Int.{ℤ, pos, ltb_ℤ, leb_ℤ}
use metachain.Script.Num.{back}
use metachain.Script.Encoding.{hash_single}

-- What the engine reads of the transaction that it checks: the sizes of `vecIn` and `vecOut`, the lock
-- time, and its member `hash`: `signatureHash` discards what `calcHash` computes, and returns the member.
pub record Tx : Type 0 where
  pub vec_in_size : ℕ
  pub vec_out_size : ℕ
  pub lock_time : ℕ
  pub hash : List ℕ

-- The hash functions of src/crypto, and the part of `Account::verify` behind the first test of
-- `verifyWalletAddress`, which calls an elliptic-curve library. The hash functions and the library come
-- from other projects: each is any function of bytes.
pub record Crypto : Type 0 where
  pub ripemd160 : List ℕ → List ℕ
  pub sha1 : List ℕ → List ℕ
  pub sha256 : List ℕ → List ℕ
  pub hash256 : List ℕ → List ℕ
  -- The key, the hash that is signed, and the signature.
  pub verify : List ℕ → List ℕ → List ℕ → Bool

-- A `signatureChecker`: the transaction, `nIn`, and the functions that it uses. The transaction is `none`
-- where `txTo` was never set, as in the default constructor, which `scriptInterpreter` uses.
pub record Checker : Type 0 where
  pub crypto : Crypto
  pub tx : Option Tx
  pub n_in : ℕ

-- `uint256S("00..01")`, lowest byte first.
abbrev pub one_hash : List ℕ
one_hash = 1 ∷ replicate 31 0

unfoldable pub signature_hash : List ℕ → Tx → ℕ → ℕ → List ℕ
signature_hash script_code tx n_in hash_type =
    if leb tx.vec_in_size n_in
    then one_hash
    else if bit_and hash_type 0x1f == hash_single && leb tx.vec_out_size n_in
    then one_hash
    else tx.hash

-- A vector without its last element.
unfoldable pub pop_back : List ℕ → List ℕ
pop_back [] = []
pop_back (b ∷ []) = []
pop_back (b ∷ c ∷ bs) = b ∷ pop_back (c ∷ bs)

-- The members `m_keyPub` and `m_strWalletAddress` of an account.
pub record Account : Type 0 where
  pub key_pub : List ℕ
  pub wallet_address : List ℕ

-- `Account(vchPubKey)`: it copies 65 bytes, however many there are, and leaves the address empty. The last
-- of the 65 goes past `m_keyPub`, into the member behind it.
unfoldable pub account_of : List ℕ → Outcome Account
account_of vch =
    if ltb (length vch) 65
    then undefined
    else ok (record { key_pub = take 65 vch; wallet_address = [] })

-- `Account::verify`: `verifyWalletAddress` refuses an address of fewer than 70 characters first.
unfoldable pub verify_account : Crypto → Account → List ℕ → List ℕ → Bool
verify_account crypto account hash sig =
    if ltb (length account.wallet_address) 70 then false else crypto.verify account.key_pub hash sig

unfoldable pub check_signature : Checker → List ℕ → List ℕ → List ℕ → Outcome Bool
unfolding account_of verify_account signature_hash
check_signature c sig key script_code = do
  account ← account_of key
  if length sig == 0 then ok false else elim c.tx [
    | none ↦ undefined
    | some tx ↦ ok (
        verify_account c.crypto account (signature_hash script_code tx c.n_in (back 0 sig))
          (pop_back sig))
  ]

abbrev pub locktime_threshold : ℕ
locktime_threshold = 500000000

unfoldable pub check_lock_time : Checker → ℤ → Outcome Bool
check_lock_time c lock_time = elim c.tx [
  | none ↦ undefined
  | some tx ↦
      let below = ltb tx.lock_time locktime_threshold in
      let same_kind =
        (below && ltb_ℤ lock_time (pos locktime_threshold))
        || (not below && leb_ℤ (pos locktime_threshold) lock_time) in
      ok (if not same_kind then false else not (ltb_ℤ (pos tx.lock_time) lock_time))
]
