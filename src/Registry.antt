-- ===== src/Registry.antt =====
-- The registry of sub chains: `SubChainManager` and `SubChain::init` of src/MCP/MCP02.
pub mod Names
pub mod Distinct
pub mod Lookup
pub mod Unique
mod Runs
use metachain.Base.{
  ltb, ◌==◌, if◌then◌else◌, list_eq, replicate, ℕ, zero, suc, ◌+◌, ◌%◌, Bool, true, false, not,
  ◌&&◌, ◌||◌, Option, none, some, List, [], ◌∷◌, ◌++◌,
}
use metachain.Storage.{BlockDb, Storage, set_db, Environment, write_raw, register_sc}

-- The payload of a block that creates a chain: three arrays of chars, of `MAX_CHAINNAME_LENGTH`,
-- `MAX_SUBCHAIN_CLASSNAME_LENGTH` and `MAX_POP_NAME`, one behind the other.
pub record CreateSubchain : Type 0 where
  pub chain_name : List ℕ
  pub class_name : List ℕ
  pub pop_name : List ℕ

-- `SubChain` has the same arrays, in the same order.
pub record SubChain : Type 0 where
  pub identifier : ℕ
  pub arrays : CreateSubchain

-- A C string that starts in some memory.
unfoldable pub c_string : List ℕ → List ℕ
c_string [] = []
c_string (zero ∷ cs) = []
c_string (suc c ∷ cs) = suc c ∷ c_string cs

unfoldable pub strncpy : ℕ → List ℕ → List ℕ
strncpy zero cs = []
strncpy (suc n) [] = zero ∷ strncpy n []
strncpy (suc n) (zero ∷ cs) = zero ∷ strncpy n []
strncpy (suc n) (suc c ∷ cs) = suc c ∷ strncpy n cs

-- The strings that start at each array: one that its array does not end goes on in the next.
abbrev pub name_memory : CreateSubchain → List ℕ
name_memory a = a.chain_name ++ (a.class_name ++ a.pop_name)

unfoldable pub name_of : CreateSubchain → List ℕ
unfolding c_string
name_of a = c_string (name_memory a)

unfoldable pub class_of : CreateSubchain → List ℕ
unfolding c_string
class_of a = c_string (a.class_name ++ a.pop_name)

unfoldable pub pop_of : CreateSubchain → List ℕ
unfolding c_string
pop_of a = c_string a.pop_name

unfoldable pub copy_arrays : CreateSubchain → CreateSubchain
unfolding strncpy
copy_arrays a = record {
  chain_name = strncpy 5 (name_memory a);
  class_name = strncpy 50 (a.class_name ++ a.pop_name);
  pop_name = strncpy 5 a.pop_name;
}

-- `m_mapSubChains`, in the order of its keys.
abbrev pub Chains : Type 0
Chains = List (ℕ × SubChain)

unfoldable pub insert : ℕ → SubChain → Chains → Chains
insert k c [] = (k, c) ∷ []
insert k c ((j, d) ∷ m) =
    let rest = insert k c m in
    if k == j then (k, c) ∷ m else if ltb k j then (k, c) ∷ (j, d) ∷ m else (j, d) ∷ rest

abbrev pub no_chain : ℕ
no_chain = 65535

-- `getChainIdentifier` of a name, and of a number.
unfoldable pub chain_identifier : List ℕ → Chains → ℕ
unfolding name_of
chain_identifier name [] = no_chain
chain_identifier name ((k, c) ∷ m) =
    let rest = chain_identifier name m in
    if list_eq (name_of c.arrays) name then c.identifier else rest

unfoldable pub chain_name_at : ℕ → Chains → List ℕ
unfolding name_of
chain_name_at k [] = []
chain_name_at k ((j, c) ∷ m) =
    let rest = chain_name_at k m in if k == j then name_of c.arrays else rest

abbrev pub has_name : List ℕ → List (List ℕ) → Bool
has_name name [] = false
has_name name (n ∷ ns) = list_eq n name || has_name name ns

-- "*", and the lists of the settings, whose entries are trimmed.
abbrev pub wildcard : List ℕ
wildcard = 42 ∷ []

abbrev pub allowed_by : Bool → List ℕ → List (List ℕ) → Bool → Bool
allowed_by verdict name [] otherwise = otherwise
allowed_by verdict name (entry ∷ es) otherwise =
    if list_eq entry wildcard || list_eq entry name
    then verdict
    else allowed_by verdict name es otherwise

-- What the manager is set up with: names of the factories, and `archive`, the archive of a block.
pub record Settings : Type 0 where
  pub environment : Environment
  pub blacklist : List (List ℕ)
  pub whitelist : List (List ℕ)
  pub classes : List (List ℕ)
  pub pops : List (List ℕ)
  pub archive : CreateSubchain → List ℕ

-- `next_ci` is the value of `MC_NEXT_CI` in the meta database.
pub record Manager : Type 0 where
  pub chains : Chains
  pub next_ci : ℕ
  pub storage : Storage

abbrev pub new_db : BlockDb
new_db = record { last_block = none; file = λ n. none; offset = λ n. none; block_size = λ n. none }

-- `createDBEngine` opens the database of a chain.
abbrev pub open_db : ℕ → Storage → Storage
open_db ci s = set_db ci (elim (s.dbs ci) [ none ↦ new_db | some db ↦ db ]) s

module _ (t : Settings) where
  unfoldable pub is_sub_chain_allowed : List ℕ → Bool
  is_sub_chain_allowed name =
      allowed_by false name t.blacklist (allowed_by true name t.whitelist false)

  -- `SubChain::init`: the identifier, or `no_chain`.
  unfoldable pub init_sub_chain : Manager → ℕ × Manager
  unfolding register_sc
  init_sub_chain m =
      let id = m.next_ci in
      let (done, storage) = register_sc t.environment id (open_db id m.storage) in
      let m' : Manager = record m { next_ci = (id + 1) % 65536; storage = storage } in
      if done then (id, m') else (no_chain, m')

  abbrev pub added : CreateSubchain → ℕ × Manager → ℕ × Manager
  added p (id, m) = if id == no_chain then (no_chain, m) else (
    id,
    record m {
      chains = insert id (record { identifier = id; arrays = copy_arrays p }) m.chains;
      storage = (write_raw t.environment 0 (t.archive p) m.storage).1;
    },
  )

  -- `addSubChain`; `create` is whether the action of the block is CREATE_SUBCHAIN.
  unfoldable pub add_sub_chain : (create : Bool) → CreateSubchain → Manager → ℕ × Manager
  unfolding is_sub_chain_allowed name_of class_of pop_of chain_identifier init_sub_chain insert
      copy_arrays write_raw
  add_sub_chain create p m =
      if not create
      then (no_chain, m)
      else if not (is_sub_chain_allowed (name_of p))
      then (no_chain, m)
      else if not (chain_identifier (name_of p) m.chains == no_chain)
      then (no_chain, m)
      else if not (has_name (class_of p) t.classes)
      then (no_chain, m)
      else if not (has_name (pop_of p) t.pops)
      then (no_chain, m)
      else added p (init_sub_chain m)
