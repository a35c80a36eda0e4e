-- ===== src/Storage/Writes.antt =====
-- What `writeRaw` stores (src/io/StorageManager.cpp).
use metachain.Base.{
  ==_refl, leb, if◌then◌else◌, if_both, length, length-append, ℕ, ◌+◌, ◌^◌, ◌<◌, ◌≡◌, refl, sym, ap,
  ◌∙◌, subst, Bool, true, false, some, List, [], ◌∷◌, ◌++◌, arith,
}
use metachain.Storage.{
  RawPath, RawChain, BlockDb, Storage, set_file, set_db, set_chain, bytes_of, next_number,
  put_entry, Environment, open_raw_file, added_chain, next_file, put_block, append_block, put_last,
  count_block, write_with, write_chain, write_raw,
}
use metachain.Storage.Blocks.{
  IsIndexed, Holds, path_eq_refl, append_nil, files_grow, IsAt-grow, IsAt-entry, IsIndexed-map,
}
use metachain.Storage.Entries.{all_written}

length-snoc : (xs : List (List ℕ)) (x : List ℕ) → length (xs ++ (x ∷ [])) ≡ length xs + 1
length-snoc xs x = length-append xs (x ∷ [])

if_true {ℓ} : {A : Type ℓ} (b : Bool) (x y : A) → b ≡ true → (if b then x else y) ≡ x
if_true true x y h = refl
if_true false x y h = cc

Holds-counted :
    (s : Storage) (ci n : ℕ) (blocks : List (List ℕ)) (db : BlockDb) (chain : RawChain)
    (content : List ℕ)
    → s.chains ci ≡ some chain
    → chain.is_open ≡ true
    → s.files chain.file_path ≡ some content
    → chain.raw_file_size ≡ length content
    → n ≡ length blocks
    → IsIndexed s.files db 1 blocks
    → Holds (set_db ci (record db { last_block = some n }) s) ci blocks
Holds-counted s ci n blocks db chain content hc ho hf hs count h = record {
  db = record db { last_block = some n };
  chain = chain;
  content = content;
  has_db = rw (==_refl ci) refl;
  has_chain = hc;
  is_open = ho;
  has_file = hf;
  sized = hs;
  counted = count;
  indexed =
      IsIndexed-map s.files s.files db (record db { last_block = some n }) (1 + length blocks)
        (λ m b below a.
          IsAt-entry s.files db (record db { last_block = some n }) m b refl refl refl a)
        1 blocks (omega arith) h;
}

module _ (e : Environment) (opens : (p : RawPath) → e.can_open p ≡ true)
    (full_node : e.full_node ≡ true) (ci : ℕ) (raw : List ℕ) (s : Storage) where
  abbrev IsDone : List (List ℕ) → Bool × Storage → Type 0
  IsDone blocks r = (r.0 ≡ true) × Holds r.1 ci blocks

  count_true :
      (n : ℕ) (db : BlockDb) (t : Storage)
      → t.dbs ci ≡ some db
      → count_block e ci n (true, t) ≡ (true, set_db ci (record db { last_block = some n }) t)
  count_true n db t h = ap (λ o. (true, put_last e ci n o t)) h

  opened_true :
      (chain : RawChain) (t : Storage)
      → t.chains ci ≡ some chain
      → (let path : RawPath = (ci, chain.raw_file_counter) in
          let bytes = bytes_of (t.files path) in
          open_raw_file e ci t ≡ (
            true,
            set_file path bytes (
                set_chain ci
                  (record chain { is_open = true; file_path = path; raw_file_size = length bytes })
                  t),
          ))
  unfolding open_raw_file
  opened_true chain t h = rw (h, opens (ci, chain.raw_file_counter)) refl

  module _ (n : ℕ) (blocks : List (List ℕ)) (db : BlockDb) (chain : RawChain)
      (ho : chain.is_open ≡ true)
      (hf : s.files chain.file_path ≡ some (bytes_of (s.files chain.file_path)))
      (hs : chain.raw_file_size ≡ length (bytes_of (s.files chain.file_path)))
      (bound : chain.raw_file_size + length raw < 2 ^ 64) (count : 1 + length blocks ≡ n)
      (h : IsIndexed s.files db 1 blocks) where
    abbrev content : List ℕ
    content = bytes_of (s.files chain.file_path)

    abbrev index : BlockDb
    index = put_entry n chain.file_path (added_chain raw chain).raw_file_size (length raw) db

    abbrev stored : Storage
    stored = put_block ci n raw db chain s

    size_written : (added_chain raw chain).raw_file_size ≡ length (content ++ raw)
    size_written = omega (arith, hs, bound, length-append content raw)

    stored-IsIndexed : IsIndexed stored.files index 1 (blocks ++ (raw ∷ []))
    stored-IsIndexed =
        all_written s.files db n chain.file_path content raw (added_chain raw chain).raw_file_size
          blocks hf size_written count h

    all_counted : n ≡ length (blocks ++ (raw ∷ []))
    all_counted = omega (arith, count, length-snoc blocks raw)

    room-IsDone : IsDone (blocks ++ (raw ∷ [])) (count_block e ci n (true, stored))
    room-IsDone =
        subst (IsDone (blocks ++ (raw ∷ [])))
          (sym (count_true n index stored (rw (==_refl ci) refl)))
          (
            refl,
            Holds-counted stored ci n (blocks ++ (raw ∷ [])) index (added_chain raw chain)
                (content ++ raw) (rw (==_refl ci) refl) ho (rw (path_eq_refl chain.file_path) refl)
                size_written all_counted stored-IsIndexed,
          )

    abbrev turned : Storage
    turned = set_chain ci (next_file raw chain) stored

    abbrev new_path : RawPath
    new_path = (ci, (next_file raw chain).raw_file_counter)

    abbrev new_bytes : List ℕ
    new_bytes = bytes_of (stored.files new_path)

    abbrev reopened : Storage
    reopened = set_file new_path new_bytes (
        set_chain ci
          (record (next_file raw chain) {
            is_open = true;
            file_path = new_path;
            raw_file_size = length new_bytes;
          })
          turned)

    reopened-IsIndexed : IsIndexed reopened.files index 1 (blocks ++ (raw ∷ []))
    reopened-IsIndexed =
        IsIndexed-map stored.files reopened.files index index (1 + length (blocks ++ (raw ∷ [])))
          (λ m b below a.
            IsAt-grow stored.files reopened.files index m b
              (files_grow stored.files new_path new_bytes [] (append_nil new_bytes)) a)
          1 (blocks ++ (raw ∷ [])) (omega arith) stored-IsIndexed

    full-IsDone : IsDone (blocks ++ (raw ∷ [])) (count_block e ci n (open_raw_file e ci turned))
    full-IsDone =
        subst (λ r. IsDone (blocks ++ (raw ∷ [])) (count_block e ci n r))
          (sym (opened_true (next_file raw chain) turned (rw (==_refl ci) refl)))
          (subst (IsDone (blocks ++ (raw ∷ [])))
            (sym (count_true n index reopened (rw (==_refl ci) refl)))
            (
              refl,
              Holds-counted reopened ci n (blocks ++ (raw ∷ [])) index
                  (record (next_file raw chain) {
                    is_open = true;
                    file_path = new_path;
                    raw_file_size = length new_bytes;
                  })
                  new_bytes (rw (==_refl ci) refl) refl (rw (path_eq_refl new_path) refl) refl
                  all_counted reopened-IsIndexed,
            ))

    append-IsDone :
        IsDone (blocks ++ (raw ∷ [])) (count_block e ci n (append_block e ci n raw db chain s))
    append-IsDone =
        if_both (λ r. IsDone (blocks ++ (raw ∷ [])) (count_block e ci n r))
          (leb e.file_size_max (added_chain raw chain).raw_file_size) (λ full. full-IsDone)
          (λ room. room-IsDone)

  write_raw-append :
      (db : BlockDb) (chain : RawChain)
      → s.dbs ci ≡ some db
      → s.chains ci ≡ some chain
      → chain.is_open ≡ true
      → write_raw e ci raw s
        ≡ count_block e ci (next_number db) (append_block e ci (next_number db) raw db chain s)
  unfolding write_raw
  write_raw-append db chain hd hc ho =
      let n = next_number db in
      ap (λ o. write_with e ci raw o s) hd
      ∙ ap (count_block e ci n)
          (if_true e.full_node (write_chain e ci n raw db (s.chains ci) s) (true, s) full_node)
      ∙ ap (λ o. count_block e ci n (write_chain e ci n raw db o s)) hc
      ∙ ap (count_block e ci n) (if_true chain.is_open _ _ ho)

  -- A full node that can open its raw files stores every block that it is given: `writeRaw` succeeds, and
  -- the index leads from the block's number to its bytes, and from each earlier number to the bytes of
  -- its block, whether the file is full then or not, as long as numbers stay below 2^32 and sizes of
  -- files below 2^64. The offset of an entry is where the block ends.
  pub write_raw-Holds :
      (blocks : List (List ℕ)) (h : Holds s ci blocks)
      → length blocks + 1 < 2 ^ 32
      → h.chain.raw_file_size + length raw < 2 ^ 64
      → ((write_raw e ci raw s).0 ≡ true) × Holds (write_raw e ci raw s).1 ci (blocks ++ (raw ∷ []))
  unfolding write_raw
  write_raw-Holds blocks h few bound =
      let has = h.has_file ∙ ap some (sym (ap bytes_of h.has_file)) in
      let sized = h.sized ∙ ap length (sym (ap bytes_of h.has_file)) in
      let number : 1 + length blocks ≡ next_number h.db = omega (arith, h.counted, few) in
      subst (IsDone (blocks ++ (raw ∷ [])))
        (sym (write_raw-append h.db h.chain h.has_db h.has_chain h.is_open))
        (append-IsDone (next_number h.db) blocks h.db h.chain h.is_open has sized bound number
          h.indexed)
