-- ===== src/Script/Machine/Elements.antt =====
-- The operations of `evalScript` on signatures and hashes (src/MCP/MCP06/scriptInterpreter.cpp), and the
-- elements that they leave on the stack.
use metachain.Base.{
  ltb, leb, ◌==◌, if◌then◌else◌, Bool-cases, length, get_elem?, ℕ, zero, suc, ◌+◌, ◌-◌, ◌≤◌, ◌<◌,
  ◌≡◌, refl, inl, inr, Bool, true, false, List, [], ◌∷◌, arith,
}
use metachain.Base.Bytes.{IsBytes}
use metachain.Script.Opcode.{Opcode}
use metachain.Script.Outcome.{
  require, or_fail, Ensures, Ensures-bind, Ensures-mono, Ends, Ensures->>, require-Ends,
  Ensures-require, Ensures-or_fail, ScriptError, Outcome, unknown_error, op_count, sig_count,
  pubkey_count, checkmultisigverify, ok,
}
use metachain.Script.Num.{script_num}
use metachain.Script.Encoding.{
  is_low_der_signature, check_signature_encoding, check_pub_key_encoding,
}
use metachain.Script.Code.{max_ops_per_script, max_pubkeys_per_multisig}
use metachain.Script.Checker.{account_of, check_signature, Crypto, Checker}
use metachain.Script.Stack.{Stack}
use metachain.Script.Stack.Elements.{IsElement, IsStack, script_num-Ensures}
use metachain.Script.Machine.{
  push_result, hash_of, hash_top, check_sig, delete_signatures, multisig_loop, clean_up, pop_dummy,
  count_at, check_multisig,
}
use metachain.Script.Flags

abbrev pub IsDigest : ℕ → List ℕ → Type 0
IsDigest n vch = IsBytes vch × (length vch ≡ n)

-- What the engine relies on of the hash functions: the sizes of their results.
pub record Digests (c : Crypto) : Type 0 where
  pub ripemd160_size : (vch : List ℕ) → IsDigest 20 (c.ripemd160 vch)
  pub sha1_size : (vch : List ℕ) → IsDigest 20 (c.sha1 vch)
  pub sha256_size : (vch : List ℕ) → IsDigest 32 (c.sha256 vch)
  pub hash256_size : (vch : List ℕ) → IsDigest 32 (c.hash256 vch)

check_signature_encoding-Ends :
    (sig : List ℕ) (flags : ℕ) → Ends (check_signature_encoding sig flags)
unfolding check_signature_encoding is_low_der_signature
check_signature_encoding-Ends sig flags = ground arith

check_pub_key_encoding-Ends : (key : List ℕ) (flags : ℕ) → Ends (check_pub_key_encoding key flags)
unfolding check_pub_key_encoding
check_pub_key_encoding-Ends key flags = ground arith

push_result-IsStack :
    (v : Bool) (e : ScriptError) (b : Bool) (s : Stack)
    → IsStack s
    → Ensures IsStack (push_result v e b s)
unfolding push_result
push_result-IsStack v e b s h = ground arith

check_signature-Ends : (c : Checker) (sig key code : List ℕ) → Ends (check_signature c sig key code)
unfolding check_signature account_of
check_signature-Ends c sig key code = ground arith

module _ (c : Checker) (flags : ℕ) where
  hash_of-IsElement :
      Digests c.crypto → (op : Opcode) (vch : List ℕ) → IsElement (hash_of c flags op vch)
  unfolding hash_of
  hash_of-IsElement d op vch =
      ground (arith, d.ripemd160_size vch, d.sha1_size vch, d.sha256_size vch, d.hash256_size vch)

  pub hash_top-IsStack :
      Digests c.crypto
      → (op : Opcode) (s : Stack) → IsStack s
      → Ensures IsStack (hash_top c flags op s)
  unfolding hash_top
  hash_top-IsStack d op [] h = tt
  hash_top-IsStack d op (x ∷ s) h = (hash_of-IsElement d op x, h.1)

  pub check_sig-IsStack :
      (v : Bool) (code : List ℕ) (s : Stack)
      → IsStack s
      → Ensures IsStack (check_sig c flags v code s)
  unfolding check_sig
  check_sig-IsStack v code [] h = tt
  check_sig-IsStack v code (x ∷ []) h = tt
  check_sig-IsStack v code (key ∷ sig ∷ s) h =
      Ensures->> IsStack _ _ (check_signature_encoding-Ends sig flags) (
        Ensures->> IsStack _ _ (check_pub_key_encoding-Ends key flags) (
          Ensures-bind (λ _. Unit) IsStack (check_signature c sig key _) _
            (check_signature-Ends c sig key _)
            (λ b _. Ensures->> IsStack _ _ (require-Ends _ _) (push_result-IsStack v _ b s h.1.1))))

  delete_signatures-Ends :
      (n i : ℕ) (s : Stack) (code : List ℕ) → Ends (delete_signatures c flags n i s code)
  unfolding delete_signatures
  delete_signatures-Ends zero i s code = tt
  delete_signatures-Ends (suc n) i s code =
      Ensures-bind (λ _. Unit) (λ _. Unit) (or_fail (get_elem? s i) unknown_error) _
        (Ensures-or_fail (λ _. Unit) (get_elem? s i) _ (λ _ _. tt))
        (λ sig _. delete_signatures-Ends n (i + 1) s _)

  early_exit-Ends :
      (b : Bool) (m : Outcome Bool)
      → (b ≡ false → Ends m)
      → Ends (elim b [ true ↦ ok false | false ↦ m ])
  early_exit-Ends true m h = tt
  early_exit-Ends false m h = h refl

  -- Each round uses a key up, so the fuel is enough.
  multisig_loop-Ends :
      (f : ℕ) (script : List ℕ) (s : Stack) (i j n k : ℕ)
      → k < f
      → n ≤ k
      → Ends (multisig_loop c flags f script s i j n k)
  unfolding multisig_loop
  multisig_loop-Ends zero script s i j n k lt le = absurd (omega arith)
  multisig_loop-Ends (suc f) script s i j n k lt le = elim (Bool-cases (n == 0)) [
    | inl e ↦ rw (e, multisig_loop) tt
    | inr e ↦
        rw (e, multisig_loop)
          (Ensures-bind (λ _. Unit) (λ _. Unit) (or_fail (get_elem? s i) unknown_error) _
            (Ensures-or_fail (λ _. Unit) (get_elem? s i) _ (λ _ _. tt))
            (λ sig _.
              Ensures-bind (λ _. Unit) (λ _. Unit) (or_fail (get_elem? s j) unknown_error) _
                (Ensures-or_fail (λ _. Unit) (get_elem? s j) _ (λ _ _. tt))
                (λ key _.
                  Ensures->> (λ _. Unit) _ _ (check_signature_encoding-Ends sig flags)
                    (Ensures->> (λ _. Unit) _ _ (check_pub_key_encoding-Ends key flags)
                      (Ensures-bind (λ _. Unit) (λ _. Unit) (check_signature c sig key script) _
                        (check_signature-Ends c sig key script)
                        (λ fok _.
                          let n' = (if fok then n - 1 else n) in
                          early_exit-Ends (ltb (k - 1) n') _ (λ e'.
                            multisig_loop-Ends f script s _ (j + 1) n' (k - 1) (ground arith)
                              (ground arith))))))))
  ]

  clean_up-IsStack :
      (b : Bool) (n i : ℕ) (s : Stack) → IsStack s → Ensures IsStack (clean_up c flags b n i s)
  unfolding clean_up
  clean_up-IsStack b zero i s h = h
  clean_up-IsStack b (suc n) i [] h = tt
  clean_up-IsStack b (suc n) i (x ∷ s) h =
      Ensures->> IsStack _ _ (require-Ends _ _) (clean_up-IsStack b n (i - 1) s h.1)

  pop_dummy-IsStack : (s : Stack) → IsStack s → Ensures IsStack (pop_dummy c flags s)
  unfolding pop_dummy
  pop_dummy-IsStack [] h = tt
  pop_dummy-IsStack (x ∷ s) h = ground arith

  count_at-le :
      (i most : ℕ) (e : ScriptError) (s : Stack)
      → Ensures (λ n. n ≤ most) (count_at c flags i most e s)
  unfolding count_at
  count_at-le i most e s =
      Ensures-bind (λ _. Unit) (λ n. n ≤ most) (or_fail (get_elem? s i) unknown_error) _
        (Ensures-or_fail (λ _. Unit) (get_elem? s i) _ (λ _ _. tt))
        (λ vch _.
          Ensures-bind (λ _. Unit) (λ n. n ≤ most)
            (script_num (Flags.has flags Flags.minimaldata) vch) _
            (Ensures-mono _ (λ _. Unit) (script_num _ vch) (script_num-Ensures _ vch) (λ _ _. tt))
            (λ bn _. ground arith))

  pub check_multisig-Ensures :
      (v : Bool) (script : List ℕ) (n : ℕ) (s : Stack)
      → IsStack s
      → Ensures (λ r. (r.0 ≤ 201) × IsStack r.1) (check_multisig c flags v script n s)
  unfolding check_multisig
  check_multisig-Ensures v script n s h = Ensures->> Result _ _ (require-Ends _ _) (
      Ensures-bind (λ k. k ≤ 20) Result (count_at c flags 0 max_pubkeys_per_multisig pubkey_count s)
        _ (count_at-le 0 20 pubkey_count s)
        (λ k hk.
          Ensures-bind (λ _. leb (n + k) 201 ≡ true) Result
            (require (leb (n + k) max_ops_per_script) op_count) _
            (Ensures-require (leb (n + k) 201) _)
            (λ _ le. Ensures->> Result _ _ (require-Ends _ _) (
              Ensures-bind (λ m. m ≤ k) Result (count_at c flags (k + 1) k sig_count s) _
                (count_at-le (k + 1) k sig_count s)
                (λ m hm. Ensures->> Result _ _ (require-Ends _ _) (
                  Ensures-bind (λ _. Unit) Result (delete_signatures c flags m (k + 2) s script) _
                    (delete_signatures-Ends m (k + 2) s script)
                    (λ code _.
                      Ensures-bind (λ _. Unit) Result
                        (multisig_loop c flags (k + 1) code s (k + 2) 1 m k) _
                        (multisig_loop-Ends (k + 1) code s (k + 2) 1 m k (omega arith) hm)
                        (λ b _.
                          Ensures-bind IsStack Result (clean_up c flags b (k + m + 2) (k + 2) s) _
                            (clean_up-IsStack b (k + m + 2) (k + 2) s h)
                            (λ rest hr.
                              Ensures-bind IsStack Result (pop_dummy c flags rest) _
                                (pop_dummy-IsStack rest hr)
                                (λ rest' hr'.
                                  Ensures-bind IsStack Result
                                    (push_result v checkmultisigverify b rest') _
                                    (push_result-IsStack v _ b rest' hr')
                                    (λ r hr''. (ground arith, hr''))))))))))))
    where
      Result : ℕ × Stack → Type 0
      Result r = (r.0 ≤ 201) × IsStack r.1
