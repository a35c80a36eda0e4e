-- ===== src/Registry/Runs.antt =====
-- The registry of chains on concrete inputs.
use metachain.Base.{replicate, ℕ, ◌≡◌, refl, true, none, List, [], ◌∷◌, ◌++◌, arith}
use metachain.Storage.{open_raw_file, write_raw, register_sc}
use metachain.Registry.{
  CreateSubchain, c_string, strncpy, name_of, class_of, pop_of, copy_arrays, insert,
  chain_identifier, chain_name_at, Settings, Manager, is_sub_chain_allowed, init_sub_chain,
  add_sub_chain,
}
use metachain.Registry.Names.{IsPayload}
use metachain.Registry.Distinct.{is_key, IsRegistry}
use metachain.Registry.Lookup.{chain_identifier-chain_name_at}
use metachain.Registry.Unique.{add_sub_chain-IsRegistry}

-- "TRUST" and "MINE".
abbrev trust : List ℕ
trust = 84 ∷ 82 ∷ 85 ∷ 83 ∷ 84 ∷ []

abbrev mine : List ℕ
mine = 77 ∷ 73 ∷ 78 ∷ 69 ∷ []

abbrev pos : List ℕ
pos = 80 ∷ 111 ∷ 83 ∷ []

abbrev payload : List ℕ → CreateSubchain
payload name = record {
  chain_name = name;
  class_name = mine ++ replicate 46 0;
  pop_name = pos ++ (0 ∷ 0 ∷ []);
}

abbrev settings : Settings
settings = record {
  environment = record {
    can_open = λ p. true;
    can_create = λ c. true;
    full_node = true;
    file_size_max = 1000;
  };
  blacklist = [];
  whitelist = (42 ∷ []) ∷ [];
  classes = mine ∷ [];
  pops = pos ∷ [];
  archive = λ p. p.chain_name;
}

abbrev empty_manager : Manager
empty_manager = record {
  chains = [];
  next_ci = 0;
  storage = record { files = λ p. none; dbs = λ c. none; chains = λ c. none };
}

abbrev with_mine : ℕ × Manager
with_mine = add_sub_chain settings true (payload (mine ++ (0 ∷ []))) empty_manager

abbrev with_both : ℕ × Manager
with_both = add_sub_chain settings true (payload trust) with_mine.1

adds_mine : ◌≡◌ {A = ℕ × ℕ} (with_mine.0, chain_identifier mine with_mine.1.chains) (0, 0)
unfolding add_sub_chain is_sub_chain_allowed init_sub_chain register_sc open_raw_file write_raw
    c_string strncpy name_of class_of pop_of copy_arrays insert chain_identifier
adds_mine = refl

-- The same name again is refused.
refuses_twice : (add_sub_chain settings true (payload (mine ++ (0 ∷ []))) with_mine.1).0 ≡ 65535
unfolding add_sub_chain is_sub_chain_allowed init_sub_chain register_sc open_raw_file write_raw
    c_string strncpy name_of class_of pop_of copy_arrays insert chain_identifier
refuses_twice = refl

-- A name that fills its array runs into the name of the class: "TRUST" is not found, "TRUSTMINE" is.
full_name :
    ◌≡◌ {A = ℕ × ℕ}
      (
        chain_identifier trust with_both.1.chains,
        chain_identifier (trust ++ mine) with_both.1.chains,
      )
      (65535, 1)
unfolding add_sub_chain is_sub_chain_allowed init_sub_chain register_sc open_raw_file write_raw
    c_string strncpy name_of class_of pop_of copy_arrays insert chain_identifier
full_name = refl

mine-IsPayload : IsPayload (payload (mine ++ (0 ∷ [])))
mine-IsPayload = record { name_size = refl; class_size = refl; pop_size = refl }

add_sub_chain-IsRegistry_example : IsRegistry with_mine.1.next_ci with_mine.1.chains
add_sub_chain-IsRegistry_example =
    add_sub_chain-IsRegistry settings (payload (mine ++ (0 ∷ []))) mine-IsPayload true empty_manager
      (omega arith) tt

with_mine-is_key : is_key 0 with_mine.1.chains ≡ true
unfolding add_sub_chain is_sub_chain_allowed init_sub_chain register_sc open_raw_file write_raw
    c_string strncpy name_of class_of pop_of copy_arrays insert chain_identifier
with_mine-is_key = refl

with_mine-IsRegistry : IsRegistry with_mine.1.next_ci with_mine.1.chains
with_mine-IsRegistry =
    add_sub_chain-IsRegistry settings (payload (mine ++ (0 ∷ []))) mine-IsPayload true empty_manager
      (omega arith) tt

chain_identifier-chain_name_at_example :
    chain_identifier (chain_name_at 0 with_mine.1.chains) with_mine.1.chains ≡ 0
chain_identifier-chain_name_at_example =
    chain_identifier-chain_name_at 0 with_mine.1.next_ci with_mine.1.chains with_mine-IsRegistry
      with_mine-is_key
