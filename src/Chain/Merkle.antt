-- ===== src/Chain/Merkle.antt =====
-- `crBlock::calcMerkleRoot` of src/MCP/MCP03/crBlock.cpp. A hash is the list of its 32 bytes; the vector
-- `leaves` is a list that starts at its back.
use mathlib.Core.List.{reverse, reverse-cons}
use metachain.Base.{
  ◌==◌, if◌then◌else◌, ltb, length, length-append, take, replicate, ℕ, zero, suc, ◌%◌, ◌≤◌, ◌<◌,
  ◌≡◌, refl, ap, not, ◌&&◌, ◌||◌, Option, none, some, List, [], ◌∷◌, ◌++◌, arith, ◌∙◌,
}

-- `undefined` is a `back` of the empty vector; `unfinished` is a loop of the model that is out of fuel.
pub data Root : Type 0 where
  root : List ℕ → Root
  undefined unfinished : Root

-- `cmb`: the second hash is put at 31, over the last byte of the first, and the byte at 63 is left as it
-- was, `junk`.
unfoldable pub combine : ℕ → List ℕ → List ℕ → List ℕ
combine junk a b = take 31 a ++ (b ++ (junk ∷ []))

-- `push_back(back())`, for an even number above 1 and for 1, or, for `tmp`, for an even number only.
unfoldable pub pad_leaves : List (List ℕ) → List (List ℕ)
pad_leaves [] = []
pad_leaves (l ∷ ls) =
    let n = length (l ∷ ls) in if n == 1 || (ltb 1 n && n % 2 == 0) then l ∷ l ∷ ls else l ∷ ls

unfoldable pub pad_tmp : List (List ℕ) → List (List ℕ)
pad_tmp [] = []
pad_tmp (l ∷ ls) =
    let n = length (l ∷ ls) in if not (n == 1) && n % 2 == 0 then l ∷ l ∷ ls else l ∷ ls

length-reverse {ℓ} : {A : Type ℓ} (xs : List A) → length (reverse xs) ≡ length xs
length-reverse [] = refl
length-reverse (x ∷ xs) =
    ap length (reverse-cons x xs)
    ∙ omega (arith, length-append (reverse xs) (x ∷ []), length-reverse xs)

several {ℓ} : {A : Type ℓ} (n : ℕ) (x y : A) → x ≡ (if ltb 0 (suc n) then x else y)
several n x y = ground arith

padded :
    (ls : List (List ℕ))
    → 2 ≤ length ls
    → (2 ≤ length (pad_leaves ls)) × (length (pad_leaves ls) % 2 ≡ 1)
unfolding pad_leaves
padded [] two = absurd (omega arith)
padded (l ∷ ls) two = ground arith

module _ (hash256 : List ℕ → List ℕ) (junk : ℕ) where
  -- The inner loop, which takes two hashes from the back at a time; `none` is undefined.
  unfoldable pub pairs : List (List ℕ) → List (List ℕ) → Option (List (List ℕ))
  unfolding combine
  pairs tmp [] = some tmp
  pairs tmp (a ∷ []) = none
  pairs tmp (a ∷ b ∷ ls) = pairs (hash256 (combine junk a b) ∷ tmp) ls

  -- The outer loop.
  unfoldable pub merge : ℕ → List (List ℕ) → Root
  unfolding pairs pad_tmp
  merge f [] = undefined
  merge f (l ∷ []) = root l
  merge zero (a ∷ b ∷ ls) = unfinished
  merge (suc f) (a ∷ b ∷ ls) = elim (pairs [] (a ∷ b ∷ ls)) [
    | none ↦ undefined
    | some tmp ↦ merge f (pad_tmp tmp)
  ]

  -- Of the hashes of the block's transactions, in their order. Without any, the root is null.
  unfoldable pub calc_merkle_root : List (List ℕ) → Root
  unfolding merge pad_leaves
  calc_merkle_root [] = root (replicate 32 0)
  calc_merkle_root (h ∷ hs) =
      let leaves = pad_leaves (reverse (h ∷ hs)) in merge (length leaves) leaves

  pairs_odd : (tmp ls : List (List ℕ)) → length ls % 2 ≡ 1 → pairs tmp ls ≡ none
  unfolding pairs
  pairs_odd tmp [] h = absurd (omega arith)
  pairs_odd tmp (a ∷ []) h = refl
  pairs_odd tmp (a ∷ b ∷ ls) h = pairs_odd (hash256 (combine junk a b) ∷ tmp) ls (omega (arith, h))

  merge_odd :
      (f : ℕ) (ls : List (List ℕ))
      → 0 < f
      → 2 ≤ length ls
      → length ls % 2 ≡ 1
      → merge f ls ≡ undefined
  unfolding merge
  merge_odd zero ls fuel two odd = absurd (omega arith)
  merge_odd (suc f) [] fuel two odd = absurd (omega arith)
  merge_odd (suc f) (a ∷ []) fuel two odd = absurd (omega arith)
  merge_odd (suc f) (a ∷ b ∷ ls) fuel two odd = rw (pairs_odd [] (a ∷ b ∷ ls) odd, merge) refl

  merge_padded :
      (ls : List (List ℕ))
      → 2 ≤ length ls
      → merge (length (pad_leaves ls)) (pad_leaves ls) ≡ undefined
  merge_padded ls two =
      let (some_left, odd) = padded ls two in
      merge_odd (length (pad_leaves ls)) (pad_leaves ls) (omega (arith, some_left)) some_left odd

  -- Whatever the hashes are, the root of two transactions or more is undefined; that of one is the hash of
  -- its hash twice, over a byte that is not set.
  pub calc_merkle_root_defined :
      (h : List ℕ) (hs : List (List ℕ))
      → calc_merkle_root (h ∷ hs)
        ≡ (if ltb 0 (length hs) then undefined else root (hash256 (combine junk h h)))
  unfolding calc_merkle_root
  calc_merkle_root_defined h [] = unfold merge in unfold pairs in refl
  calc_merkle_root_defined h (k ∷ hs) =
      merge_padded (reverse (h ∷ k ∷ hs)) (omega (arith, length-reverse (h ∷ k ∷ hs)))
      ∙ several (length hs) undefined (root (hash256 (combine junk h h)))
