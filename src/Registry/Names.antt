-- ===== src/Registry/Names.antt =====
-- The names of chains as strings in memory (src/MCP/MCP02/SubChain.cpp).
use metachain.Base.{length, ℕ, zero, suc, ◌≡◌, refl, ap, List, [], ◌∷◌, ◌++◌, arith}
use metachain.Registry.{CreateSubchain, c_string, strncpy, name_of, copy_arrays}

c_string-cons :
    (c : ℕ) (xs ys : List ℕ) → c_string xs ≡ c_string ys → c_string (c ∷ xs) ≡ c_string (c ∷ ys)
unfolding c_string
c_string-cons zero xs ys e = refl
c_string-cons (suc c) xs ys e = ap (λ cs. suc c ∷ cs) e

c_string-strncpy : (n : ℕ) (xs : List ℕ) → length xs ≡ n → c_string (strncpy n xs) ≡ c_string xs
unfolding strncpy c_string
c_string-strncpy zero [] e = refl
c_string-strncpy zero (x ∷ xs) e = absurd (omega (arith, e))
c_string-strncpy (suc n) [] e = absurd (omega (arith, e))
c_string-strncpy (suc n) (zero ∷ xs) e = refl
c_string-strncpy (suc n) (suc c ∷ xs) e =
    ap (λ cs. suc c ∷ cs) (c_string-strncpy n xs (omega (arith, e)))

-- An array that is copied and is followed by the same string.
c_string-array :
    (n : ℕ) (xs ys rest : List ℕ)
    → length xs ≡ n
    → c_string rest ≡ c_string ys
    → c_string (strncpy n (xs ++ ys) ++ rest) ≡ c_string (xs ++ ys)
unfolding strncpy c_string
c_string-array zero [] ys rest e h = h
c_string-array zero (x ∷ xs) ys rest e h = absurd (omega (arith, e))
c_string-array (suc n) [] ys rest e h = absurd (omega (arith, e))
c_string-array (suc n) (zero ∷ xs) ys rest e h = refl
c_string-array (suc n) (suc c ∷ xs) ys rest e h =
    ap (λ cs. suc c ∷ cs) (c_string-array n xs ys rest (omega (arith, e)) h)

-- The arrays of a payload have the sizes of their declarations.
pub record IsPayload (a : CreateSubchain) : Type 0 where
  pub name_size : length a.chain_name ≡ 5
  pub class_size : length a.class_name ≡ 50
  pub pop_size : length a.pop_name ≡ 5

pub name_of-copy_arrays : (a : CreateSubchain) → IsPayload a → name_of (copy_arrays a) ≡ name_of a
unfolding name_of copy_arrays
name_of-copy_arrays a h =
    c_string-array 5 a.chain_name (a.class_name ++ a.pop_name)
      (strncpy 50 (a.class_name ++ a.pop_name) ++ strncpy 5 a.pop_name) h.name_size
      (c_string-array 50 a.class_name a.pop_name (strncpy 5 a.pop_name) h.class_size
        (c_string-strncpy 5 a.pop_name h.pop_size))
