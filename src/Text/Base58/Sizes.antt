-- ===== src/Text/Base58/Sizes.antt =====
-- The sizes that src/MCP/MCP01/base58.cpp allocates, which are enough.
use native.Mathlib.Nat.{pow-succ', pow-zero, mul-le-mul, mul_assoc}
use metachain.Base.{
  all_below, all_below_at, leb, ℕ, zero, suc, ◌+◌, ◌*◌, ◌/◌, ◌%◌, ◌^◌, ◌≤◌, ◌<◌, ◌≡◌, refl, ap, sym,
  ◌∙◌, subst, Bool, true, arith,
}

pow_add : (b i j : ℕ) → b ^ (i + j) ≡ b ^ i * b ^ j
pow_add b zero j = rw (pow-zero b) (
    let e : b ^ (0 + j) ≡ 1 * b ^ j =
      ap (λ n. b ^ n) (let z : 0 + j ≡ j = omega arith in z) ∙ omega arith in
    e)
pow_add b (suc i) j =
    ap (λ n. b ^ n) (let z : suc i + j ≡ suc (i + j) = omega arith in z)
    ∙ pow-succ' b (i + j)
    ∙ ap (λ n. b * n) (pow_add b i j)
    ∙ sym (mul_assoc b (b ^ i) (b ^ j))
    ∙ ap (λ n. n * b ^ j) (sym (pow-succ' b i))

leb→le : (a b : ℕ) → leb a b ≡ true → a ≤ b
leb→le a b h = ground arith

-- If `a ^ p ≤ b ^ q`, and the claim holds of the numbers under `p`, it holds of all.
module _ (a b p q : ℕ) (block : a ^ p ≤ b ^ q)
    (shift : (n : ℕ) → (p + n) * q / p ≡ q + n * q / p) where
  next_block : (n : ℕ) → a ^ n ≤ b ^ (n * q / p + 1) → a ^ (p + n) ≤ b ^ ((p + n) * q / p + 1)
  next_block n h =
      let e : (p + n) * q / p + 1 ≡ q + (n * q / p + 1) = omega (arith, shift n) in
      let m = mul-le-mul block h in rw (e, pow_add a p n, pow_add b q (n * q / p + 1)) m

  blocks : (k r : ℕ) → a ^ r ≤ b ^ (r * q / p + 1) → a ^ (k * p + r) ≤ b ^ ((k * p + r) * q / p + 1)
  blocks zero r h =
      subst (λ n. a ^ n ≤ b ^ (n * q / p + 1)) (let z : r ≡ 0 * p + r = omega arith in z) h
  blocks (suc k) r h =
      subst (λ n. a ^ n ≤ b ^ (n * q / p + 1))
        (let z : p + (k * p + r) ≡ suc k * p + r = omega arith in z)
        (next_block (k * p + r) (blocks k r h))

encode_test : ℕ → Bool
encode_test r = leb (256 ^ r) (58 ^ (r * 138 / 100 + 1))

decode_test : ℕ → Bool
decode_test r = leb (58 ^ r) (256 ^ (r * 733 / 1000 + 1))

encode_tests : all_below encode_test 100 ≡ true
unfolding all_below encode_test
encode_tests = refl

decode_tests : all_below decode_test 1000 ≡ true
unfolding all_below decode_test
decode_tests = refl

encode_rest : (r : ℕ) → r < 100 → 256 ^ r ≤ 58 ^ (r * 138 / 100 + 1)
encode_rest r h = leb→le _ _ (unfold encode_test in all_below_at encode_test 100 r h encode_tests)

decode_rest : (r : ℕ) → r < 1000 → 58 ^ r ≤ 256 ^ (r * 733 / 1000 + 1)
decode_rest r h = leb→le _ _ (unfold decode_test in all_below_at decode_test 1000 r h decode_tests)

-- `n` bytes fit into the digits of base 58 that `encode` allocates.
pub encode_room : (n : ℕ) → 256 ^ n ≤ 58 ^ (n * 138 / 100 + 1)
encode_room n =
    subst (λ k. 256 ^ k ≤ 58 ^ (k * 138 / 100 + 1))
      (let e : n / 100 * 100 + n % 100 ≡ n = omega arith in e)
      (blocks 256 58 100 138 (leb→le (256 ^ 100) (58 ^ 138) refl) (λ k. omega arith) (n / 100)
        (n % 100) (encode_rest (n % 100) (omega arith)))

-- `n` digits of base 58 fit into the bytes that `decode` allocates.
pub decode_room : (n : ℕ) → 58 ^ n ≤ 256 ^ (n * 733 / 1000 + 1)
decode_room n =
    subst (λ k. 58 ^ k ≤ 256 ^ (k * 733 / 1000 + 1))
      (let e : n / 1000 * 1000 + n % 1000 ≡ n = omega arith in e)
      (blocks 58 256 1000 733 (leb→le (58 ^ 1000) (256 ^ 733) refl) (λ k. omega arith) (n / 1000)
        (n % 1000) (decode_rest (n % 1000) (omega arith)))
