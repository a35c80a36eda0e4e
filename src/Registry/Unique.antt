-- ===== src/Registry/Unique.antt =====
-- Adding a chain (src/MCP/MCP02/SubChainManager.cpp).
use metachain.Base.{
  ◌==◌, if◌then◌else◌, if_both, ℕ, ◌+◌, ◌%◌, ◌<◌, ◌≡◌, refl, sym, subst, Bool, true, false, not,
  arith,
}
use metachain.Storage.{Storage, register_sc}
use metachain.Registry.{
  CreateSubchain, SubChain, name_of, copy_arrays, class_of, pop_of, insert, no_chain,
  chain_identifier, has_name, Settings, Manager, is_sub_chain_allowed, open_db, init_sub_chain,
  added, add_sub_chain,
}
use metachain.Registry.Names.{IsPayload, name_of-copy_arrays}
use metachain.Registry.Distinct.{
  is_named, IsRegistry, IsRegistry-weaken, IsRegistry-append, insert-append,
}
use metachain.Registry.Lookup.{unnamed}

free_of : (n : ℕ) → not (n == no_chain) ≡ false → n ≡ no_chain
free_of n h = ground arith

module _ (t : Settings) (p : CreateSubchain) (sizes : IsPayload p) where
  abbrev IsKept : ℕ × Manager → Type 0
  IsKept r = IsRegistry r.1.next_ci r.1.chains

  inserted-IsRegistry :
      (m : Manager) (next : ℕ)
      → next ≡ m.next_ci + 1
      → is_named (name_of p) m.chains ≡ false
      → IsRegistry m.next_ci m.chains
      → IsRegistry next
          (insert m.next_ci (record { identifier = m.next_ci; arrays = copy_arrays p }) m.chains)
  inserted-IsRegistry m next e free h =
      let c : SubChain = record { identifier = m.next_ci; arrays = copy_arrays p } in
      let free' =
        subst (λ n. is_named n m.chains ≡ false) (sym (name_of-copy_arrays p sizes)) free in
      subst (λ b. IsRegistry b (insert m.next_ci c m.chains)) (sym e)
        (subst (IsRegistry (m.next_ci + 1)) (sym (insert-append m.next_ci c m.chains h))
          (IsRegistry-append m.next_ci c m.chains refl free' h))

  init-IsKept :
      (m : Manager) (next : ℕ) (done : Bool) (s : Storage)
      → next ≡ m.next_ci + 1
      → is_named (name_of p) m.chains ≡ false
      → IsRegistry m.next_ci m.chains
      → IsKept (
          added t p (
            if done
            then (m.next_ci, record m { next_ci = next; storage = s })
            else (no_chain, record m { next_ci = next; storage = s })))
  init-IsKept m next false s e free h =
      IsRegistry-weaken m.next_ci next m.chains (omega (arith, e)) h
  init-IsKept m next true s e free h =
      if_both IsKept (m.next_ci == no_chain)
        (λ last. IsRegistry-weaken m.next_ci next m.chains (omega (arith, e)) h)
        (λ id. inserted-IsRegistry m next e free h)

  added-IsKept :
      (m : Manager)
      → m.next_ci < no_chain
      → is_named (name_of p) m.chains ≡ false
      → IsRegistry m.next_ci m.chains
      → IsKept (added t p (init_sub_chain t m))
  unfolding init_sub_chain
  added-IsKept m few free h =
      let r = register_sc t.environment m.next_ci (open_db m.next_ci m.storage) in
      init-IsKept m ((m.next_ci + 1) % 65536) r.0 r.1 (omega (arith, few)) free h

  -- Adding a chain, whether it is added or refused, keeps identifiers and names of chains distinct: no
  -- chain takes a name, as the memory of its arrays spells it, or a number that another chain has.
  -- (The number of chains that were ever made stays below 65535.)
  pub add_sub_chain-IsRegistry :
      (create : Bool) (m : Manager)
      → m.next_ci < no_chain
      → IsRegistry m.next_ci m.chains
      → IsRegistry (add_sub_chain t create p m).1.next_ci (add_sub_chain t create p m).1.chains
  unfolding add_sub_chain
  add_sub_chain-IsRegistry create m few h =
      if_both IsKept (not create) (λ e. h)
        (λ e1.
          if_both IsKept (not (is_sub_chain_allowed t (name_of p))) (λ e. h)
            (λ e2.
              if_both IsKept (not (chain_identifier (name_of p) m.chains == no_chain)) (λ e. h)
                (λ e3.
                  if_both IsKept (not (has_name (class_of p) t.classes)) (λ e. h)
                    (λ e4.
                      if_both IsKept (not (has_name (pop_of p) t.pops)) (λ e. h)
                        (λ e5.
                          added-IsKept m few
                            (unnamed (name_of p) m.chains m.next_ci h (omega (arith, few))
                              (free_of _ e3))
                            h)))))
