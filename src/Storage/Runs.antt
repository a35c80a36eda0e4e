-- ===== src/Storage/Runs.antt =====
-- The storage on concrete inputs.
use metachain.Base.{if◌then◌else◌, ◌≡◌, refl, true, false, Option, none, some, [], ◌∷◌, arith}
use metachain.Storage.{
  path_eq, RawChain, BlockDb, Storage, Environment, open_raw_file, write_raw, register_sc,
}
use metachain.Storage.Blocks.{Holds}
use metachain.Storage.Writes.{write_raw-Holds}

-- A full node that goes on to a new file at three bytes.
abbrev node : Environment
node = record { can_open = λ p. true; can_create = λ c. true; full_node = true; file_size_max = 3 }

abbrev client : Environment
client = record node { full_node = false }

abbrev empty_db : BlockDb
empty_db = record {
  last_block = none;
  file = λ n. none;
  offset = λ n. none;
  block_size = λ n. none;
}

abbrev fresh : Storage
fresh = record { files = λ p. none; dbs = λ c. some empty_db; chains = λ c. none }

abbrev registered : Storage
registered = (register_sc node 7 fresh).1

abbrev two_blocks : Storage
two_blocks = (write_raw node 7 (8 ∷ 9 ∷ []) (write_raw node 7 (1 ∷ 2 ∷ 3 ∷ []) registered).1).1

abbrev index_of : Option BlockDb → BlockDb
index_of none = empty_db
index_of (some db) = db

first_file : two_blocks.files (7, 0) ≡ some (1 ∷ 2 ∷ 3 ∷ [])
unfolding write_raw open_raw_file register_sc
first_file = refl

-- The second block is in the next file, and its offset is where it ends.
second_file : two_blocks.files (7, 1) ≡ some (8 ∷ 9 ∷ [])
unfolding write_raw open_raw_file register_sc
second_file = refl

second_entry : (index_of (two_blocks.dbs 7)).file 2 ≡ some (7, 1)
second_entry = unfold write_raw open_raw_file register_sc in refl

second_offset : (index_of (two_blocks.dbs 7)).offset 2 ≡ some 2
second_offset = unfold write_raw open_raw_file register_sc in refl

-- A client counts the blocks.
client_counts : (index_of ((write_raw client 7 (1 ∷ []) fresh).1.dbs 7)).last_block ≡ some 1
client_counts = unfold write_raw in refl

abbrev open_chain : RawChain
open_chain = record { is_open = true; file_path = (7, 0); raw_file_size = 0; raw_file_counter = 0 }

abbrev open_storage : Storage
open_storage = record {
  files = λ p. if path_eq p (7, 0) then some [] else none;
  dbs = λ c. some empty_db;
  chains = λ c. some open_chain;
}

abbrev held : Holds open_storage 7 []
held = record {
  db = empty_db;
  chain = open_chain;
  content = [];
  has_db = refl;
  has_chain = refl;
  is_open = refl;
  has_file = refl;
  sized = refl;
  counted = refl;
  indexed = tt;
}

write_raw-Holds_example :
    ((write_raw node 7 (1 ∷ 2 ∷ 3 ∷ []) open_storage).0 ≡ true)
    × Holds (write_raw node 7 (1 ∷ 2 ∷ 3 ∷ []) open_storage).1 7 ((1 ∷ 2 ∷ 3 ∷ []) ∷ [])
write_raw-Holds_example =
    write_raw-Holds node (λ p. refl) refl 7 (1 ∷ 2 ∷ 3 ∷ []) open_storage [] held (omega arith)
      (omega arith)
