-- ===== src/Registry/Lookup.antt =====
-- Names and numbers of chains (src/MCP/MCP02/SubChainManager.cpp).
use metachain.Base.{
  ◌==◌, ==_iff, list_eq, list_eq_refl, ℕ, ◌≤◌, ◌≡◌, refl, ap, sym, ◌∙◌, subst, inl, inr, Bool-cases,
  true, false, List, [], ◌∷◌, arith,
}
use metachain.Registry.{SubChain, name_of, Chains, no_chain, chain_identifier, chain_name_at}
use metachain.Registry.Distinct.{
  is_named, is_key, IsRegistry, both_false, other_true, either_true, unlike,
}

found :
    (name : List ℕ) (k : ℕ) (c : SubChain) (m : Chains)
    → list_eq (name_of c.arrays) name ≡ true
    → chain_identifier name ((k, c) ∷ m) ≡ c.identifier
unfolding chain_identifier
found name k c m same = rw (same) refl

passed :
    (name : List ℕ) (k : ℕ) (c : SubChain) (m : Chains)
    → list_eq (name_of c.arrays) name ≡ false
    → chain_identifier name ((k, c) ∷ m) ≡ chain_identifier name m
unfolding chain_identifier
passed name k c m differs = rw (differs) refl

pub unnamed :
    (name : List ℕ) (m : Chains) (b : ℕ)
    → IsRegistry b m
    → b ≤ no_chain
    → chain_identifier name m ≡ no_chain
    → is_named name m ≡ false
unnamed name [] b h small e = refl
unnamed name ((k, c) ∷ m) b (hi, (hb, (hk, (hn, hs)))) small e =
    elim (Bool-cases (list_eq (name_of c.arrays) name)) [
      | inl same ↦ absurd (omega (arith, hi, hb, small, e, found name k c m same))
      | inr differs ↦
          both_false _ _ differs (unnamed name m b hs small (sym (passed name k c m differs) ∙ e))
    ]

name_here :
    (k j : ℕ) (c : SubChain) (m : Chains)
    → (k == j) ≡ true
    → chain_name_at k ((j, c) ∷ m) ≡ name_of c.arrays
unfolding chain_name_at
name_here k j c m same = rw (same) refl

name_later :
    (k j : ℕ) (c : SubChain) (m : Chains)
    → (k == j) ≡ false
    → chain_name_at k ((j, c) ∷ m) ≡ chain_name_at k m
unfolding chain_name_at
name_later k j c m differs = rw (differs) refl

-- The name of a key is the name of a chain.
is_named-chain_name_at :
    (k : ℕ) (m : Chains) → is_key k m ≡ true → is_named (chain_name_at k m) m ≡ true
unfolding chain_name_at
is_named-chain_name_at k [] h = cc
is_named-chain_name_at k ((j, c) ∷ m) h = elim (Bool-cases (k == j)) [
  | inl same ↦ rw (same, list_eq_refl (name_of c.arrays)) refl
  | inr differs ↦
      subst (λ n. is_named n ((j, c) ∷ m) ≡ true) (sym (name_later k j c m differs))
        (either_true _ _ (is_named-chain_name_at k m (other_true _ _ differs h)))
]

-- Among chains with distinct names, the number of a chain leads to its name, and that back to the
-- number.
pub chain_identifier-chain_name_at :
    (k bound : ℕ) (m : Chains)
    → IsRegistry bound m
    → is_key k m ≡ true
    → chain_identifier (chain_name_at k m) m ≡ k
chain_identifier-chain_name_at k bound [] h key = cc
chain_identifier-chain_name_at k bound ((j, c) ∷ m) (hi, (hb, (hk, (hn, hs)))) key =
    elim (Bool-cases (k == j)) [
      | inl same ↦
          found (chain_name_at k ((j, c) ∷ m)) j c m (
            subst (λ n. list_eq (name_of c.arrays) n ≡ true) (sym (name_here k j c m same))
              (list_eq_refl (name_of c.arrays)))
          ∙ hi
          ∙ sym ((==_iff k j).0 same)
      | inr differs ↦
          let later = other_true _ _ differs key in
          let e = name_later k j c m differs in
          let apart =
            unlike (name_of c.arrays) (chain_name_at k m) m hn (is_named-chain_name_at k m later) in
          ap (λ n. chain_identifier n ((j, c) ∷ m)) e
          ∙ passed (chain_name_at k m) j c m apart
          ∙ chain_identifier-chain_name_at k bound m hs later
    ]
