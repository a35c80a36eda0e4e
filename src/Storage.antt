-- ===== src/Storage.antt =====
-- The raw files of a node (src/io/StorageManager.cpp) and the index of blocks in the database of a chain.
pub mod Blocks
pub mod Entries
pub mod Writes
mod Runs
use metachain.Base.{
  ltb, leb, ◌==◌, if◌then◌else◌, length, take, drop, ℕ, ◌+◌, ◌-◌, ◌%◌, ◌^◌, Bool, true, false, not,
  ◌&&◌, Option, none, some, List, [], ◌∷◌, ◌++◌,
}

-- A raw file: the chain, which names its directory, and `uiRawFileCounter`, which names the file.
abbrev pub RawPath : Type 0
RawPath = ℕ × ℕ

abbrev pub path_eq : RawPath → RawPath → Bool
path_eq p q = p.0 == q.0 && p.1 == q.1

-- `smSC`.
pub record RawChain : Type 0 where
  pub is_open : Bool
  pub file_path : RawPath
  pub raw_file_size : ℕ
  pub raw_file_counter : ℕ

-- The entries "last_block" and, by the number of a block, "mbl.<n>.file", ".offset" and ".length".
pub record BlockDb : Type 0 where
  pub last_block : Option ℕ
  pub file : ℕ → Option RawPath
  pub offset : ℕ → Option ℕ
  pub block_size : ℕ → Option ℕ

-- The raw files, the database of each chain, and `m_umapSC`.
pub record Storage : Type 0 where
  pub files : RawPath → Option (List ℕ)
  pub dbs : ℕ → Option BlockDb
  pub chains : ℕ → Option RawChain

abbrev pub set_file : RawPath → List ℕ → Storage → Storage
set_file path bytes s = record s { files = λ p. if path_eq p path then some bytes else s.files p }

abbrev pub set_db : ℕ → BlockDb → Storage → Storage
set_db ci db s = record s { dbs = λ c. if c == ci then some db else s.dbs c }

abbrev pub set_chain : ℕ → RawChain → Storage → Storage
set_chain ci chain s = record s { chains = λ c. if c == ci then some chain else s.chains c }

-- What a file holds; nothing, if it does not exist.
abbrev pub bytes_of : Option (List ℕ) → List ℕ
bytes_of none = []
bytes_of (some bytes) = bytes

abbrev pub last_of : Option ℕ → ℕ
last_of none = 0
last_of (some n) = n

-- `db->get("last_block", 0) + 1`, as an unsigned int.
abbrev pub next_number : BlockDb → ℕ
next_number db = (last_of db.last_block + 1) % 2 ^ 32

abbrev pub put_entry : ℕ → RawPath → (offset len : ℕ) → BlockDb → BlockDb
put_entry n path offset len db = record db {
  file = λ m. if m == n then some path else db.file m;
  offset = λ m. if m == n then some offset else db.offset m;
  block_size = λ m. if m == n then some len else db.block_size m;
}

-- `smSC` after a block is written, and when it goes on to the next file.
abbrev pub added_chain : List ℕ → RawChain → RawChain
added_chain raw chain = record chain { raw_file_size = (chain.raw_file_size + length raw) % 2 ^ 64 }

abbrev pub next_file : List ℕ → RawChain → RawChain
next_file raw chain = record (added_chain raw chain) {
  raw_file_counter = (chain.raw_file_counter + 1) % 2 ^ 32;
}

-- The block in the file, and its entries in the index.
abbrev pub put_block : (ci n : ℕ) → List ℕ → BlockDb → RawChain → Storage → Storage
put_block ci n raw db chain s =
    set_db ci (put_entry n chain.file_path (added_chain raw chain).raw_file_size (length raw) db) (
      set_chain ci (added_chain raw chain)
        (set_file chain.file_path (bytes_of (s.files chain.file_path) ++ raw) s))

-- `can_open` is whether the system opens a file for output, `can_create` whether it creates the
-- directory of a chain, and `file_size_max` is `m_uimRawFileSizeMax`.
pub record Environment : Type 0 where
  pub can_open : RawPath → Bool
  pub can_create : ℕ → Bool
  pub full_node : Bool
  pub file_size_max : ℕ

module _ (e : Environment) where
  -- Opening for output creates a file that does not exist.
  abbrev pub opened : ℕ → RawChain → Storage → Bool × Storage
  opened ci chain s =
      let path : RawPath = (ci, chain.raw_file_counter) in
      let bytes = bytes_of (s.files path) in
      let chain' = record chain { file_path = path; raw_file_size = length bytes } in
      if e.can_open path
      then (true, set_file path bytes (set_chain ci (record chain' { is_open = true }) s))
      else (false, set_chain ci (record chain' { is_open = false }) s)

  abbrev pub open_found : ℕ → Option RawChain → Storage → Bool × Storage
  open_found ci none s = (false, s)
  open_found ci (some chain) s = opened ci chain s

  unfoldable pub open_raw_file : ℕ → Storage → Bool × Storage
  open_raw_file ci s = open_found ci (s.chains ci) s

  abbrev pub append_block : (ci n : ℕ) → List ℕ → BlockDb → RawChain → Storage → Bool × Storage
  append_block ci n raw db chain s =
      if leb e.file_size_max (added_chain raw chain).raw_file_size
      then open_raw_file ci (set_chain ci (next_file raw chain) (put_block ci n raw db chain s))
      else (true, put_block ci n raw db chain s)

  abbrev pub append_opened :
      (ci n : ℕ) → List ℕ → BlockDb → Option RawChain → Bool × Storage → Bool × Storage
  append_opened ci n raw db chain (false, s) = (false, s)
  append_opened ci n raw db none (true, s) = (false, s)
  append_opened ci n raw db (some chain) (true, s) = append_block ci n raw db chain s

  abbrev pub write_chain :
      (ci n : ℕ) → List ℕ → BlockDb → Option RawChain → Storage → Bool × Storage
  write_chain ci n raw db none s = (false, s)
  write_chain ci n raw db (some chain) s =
      if chain.is_open
      then append_block ci n raw db chain s
      else (let (done, s') = open_raw_file ci s in
          append_opened ci n raw db (s'.chains ci) (done, s'))

  abbrev pub put_last : (ci n : ℕ) → Option BlockDb → Storage → Storage
  put_last ci n none s = s
  put_last ci n (some db) s = set_db ci (record db { last_block = some n }) s

  -- `db->write("last_block", …)` at the end.
  abbrev pub count_block : (ci n : ℕ) → Bool × Storage → Bool × Storage
  count_block ci n (false, s) = (false, s)
  count_block ci n (true, s) = (true, put_last ci n (s.dbs ci) s)

  abbrev pub write_with : ℕ → List ℕ → Option BlockDb → Storage → Bool × Storage
  write_with ci raw none s = (false, s)
  write_with ci raw (some db) s =
      let n = next_number db in
      count_block ci n (if e.full_node then write_chain ci n raw db (s.chains ci) s else (true, s))

  -- `writeRaw`: its result, and the storage behind.
  unfoldable pub write_raw : ℕ → List ℕ → Storage → Bool × Storage
  unfolding open_raw_file
  write_raw ci raw s = write_with ci raw (s.dbs ci) s

  abbrev pub new_chain : RawChain
  new_chain = record {
    is_open = false;
    file_path = (0, 0);
    raw_file_size = 0;
    raw_file_counter = 0;
  }

  abbrev pub register_new : ℕ → Storage → Bool × Storage
  register_new ci s =
      if e.full_node
      then if e.can_create ci then (true, (open_raw_file ci s).1) else (false, s)
      else (true, s)

  -- `registerSC`; `can_create` also stands for a directory that is there.
  unfoldable pub register_sc : ℕ → Storage → Bool × Storage
  unfolding open_raw_file
  register_sc ci s = elim (s.chains ci) [
    | some chain ↦ (false, s)
    | none ↦ register_new ci (set_chain ci new_chain s)
  ]
