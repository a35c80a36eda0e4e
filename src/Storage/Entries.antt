-- ===== src/Storage/Entries.antt =====
-- The entry of a block that `writeRaw` stores, and those before (src/io/StorageManager.cpp).
use metachain.Base.{
  ==_refl, ◌==◌, if◌then◌else◌, length, take, drop, length-append, drop-append_of_length, take_all,
  ℕ, ◌+◌, ◌-◌, ◌<◌, ◌≡◌, refl, sym, ap, ◌∙◌, false, Option, some, List, [], ◌∷◌, ◌++◌, arith,
}
use metachain.Storage.{RawPath, path_eq, BlockDb, bytes_of, put_entry}
use metachain.Storage.Blocks.{
  IsAt, IsIndexed, path_eq_refl, files_grow, IsAt-grow, IsAt-entry, IsIndexed-map, IsIndexed-append,
}

below_other : (m n : ℕ) → m < n → (m == n) ≡ false
below_other m n h = ground arith

module _ (files : RawPath → Option (List ℕ)) (db : BlockDb) (n : ℕ) (path : RawPath)
    (content raw : List ℕ) where
  abbrev pub grown : RawPath → Option (List ℕ)
  grown p = if path_eq p path then some (content ++ raw) else files p

  last_reads :
      take (length raw) (drop (length (content ++ raw) - length raw) (content ++ raw)) ≡ raw
  last_reads =
      let start : length content ≡ length (content ++ raw) - length raw =
        omega (arith, length-append content raw) in
      ap (take (length raw))
        (drop-append_of_length (length (content ++ raw) - length raw) content raw start)
      ∙ take_all (length raw) raw (omega arith)

  written :
      (size : ℕ)
      → size ≡ length (content ++ raw)
      → IsAt grown (put_entry n path size (length raw) db) n raw
  written size e = record {
    path = path;
    end = length (content ++ raw);
    content = content ++ raw;
    in_file = rw (==_refl n) refl;
    at_offset = rw (==_refl n) (ap some e);
    of_size = rw (==_refl n) refl;
    exists' = rw (path_eq_refl path) refl;
    inside = omega arith;
    fits = omega (arith, length-append content raw);
    reads = last_reads;
  }

  older :
      (size : ℕ)
      → files path ≡ some content
      → (m : ℕ) (b : List ℕ) → m < n
      → IsAt files db m b
      → IsAt grown (put_entry n path size (length raw) db) m b
  older size has m b below a =
      let other = below_other m n below in
      IsAt-entry grown db (put_entry n path size (length raw) db) m b (rw (other) refl)
        (rw (other) refl) (rw (other) refl)
        (IsAt-grow files grown db m b
          (files_grow files path (content ++ raw) raw (ap (λ o. bytes_of o ++ raw) (sym has))) a)

  pub all_written :
      (size : ℕ) (blocks : List (List ℕ))
      → files path ≡ some content
      → size ≡ length (content ++ raw)
      → 1 + length blocks ≡ n
      → IsIndexed files db 1 blocks
      → IsIndexed grown (put_entry n path size (length raw) db) 1 (blocks ++ (raw ∷ []))
  all_written size blocks has e count h =
      IsIndexed-append grown (put_entry n path size (length raw) db) 1 n blocks raw count
        (IsIndexed-map files grown db (put_entry n path size (length raw) db) n (older size has) 1
          blocks (omega (arith, count)) h)
        (written size e)
