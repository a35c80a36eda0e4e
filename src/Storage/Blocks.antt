-- ===== src/Storage/Blocks.antt =====
-- The blocks of a chain in the raw files (src/io/StorageManager.cpp).
use metachain.Base.{
  if◌then◌else◌, length, take, drop, length-append, length-drop, drop-append_le, take-append_le, ℕ,
  ◌+◌, ◌-◌, ◌≤◌, ◌<◌, ◌≡◌, refl, sym, ap, ◌∙◌, subst, inl, inr, true, Option, some, List, [], ◌∷◌,
  ◌++◌, arith, Bool-cases,
}
use metachain.Storage.{RawPath, path_eq, RawChain, BlockDb, Storage, bytes_of, last_of}

-- Block `n` stands in the file of its entry, in the bytes before the offset.
pub record IsAt (files : RawPath → Option (List ℕ)) (db : BlockDb) (n : ℕ) (block : List ℕ)
    : Type 0 where
  pub path : RawPath
  pub end : ℕ
  pub content : List ℕ
  pub in_file : db.file n ≡ some path
  pub at_offset : db.offset n ≡ some end
  pub of_size : db.block_size n ≡ some (length block)
  pub exists' : files path ≡ some content
  pub inside : end ≤ length content
  pub fits : length block ≤ end
  pub reads : take (length block) (drop (end - length block) content) ≡ block

-- The blocks from number `n` on.
abbrev pub IsIndexed : (RawPath → Option (List ℕ)) → BlockDb → ℕ → List (List ℕ) → Type 0
IsIndexed files db n [] = Unit {0}
IsIndexed files db n (b ∷ bs) = IsAt files db n b × IsIndexed files db (n + 1) bs

-- The storage holds these blocks of a chain, and its file is open.
pub record Holds (s : Storage) (ci : ℕ) (blocks : List (List ℕ)) : Type 0 where
  pub db : BlockDb
  pub chain : RawChain
  pub content : List ℕ
  pub has_db : s.dbs ci ≡ some db
  pub has_chain : s.chains ci ≡ some chain
  pub is_open : chain.is_open ≡ true
  pub has_file : s.files chain.file_path ≡ some content
  pub sized : chain.raw_file_size ≡ length content
  pub counted : last_of db.last_block ≡ length blocks
  pub indexed : IsIndexed s.files db 1 blocks

still_reads :
    (b content tail : List ℕ) (end : ℕ)
    → end ≤ length content
    → length b ≤ end
    → take (length b) (drop (end - length b) content) ≡ b
    → take (length b) (drop (end - length b) (content ++ tail)) ≡ b
still_reads b content tail end inside fits reads =
    ap (take (length b)) (drop-append_le (end - length b) content tail (omega (arith, inside)))
    ∙ take-append_le (length b) (drop (end - length b) content) tail
        (omega (arith, length-drop (end - length b) content, inside, fits))
    ∙ reads

path_eq_sound : (p q : RawPath) → path_eq p q ≡ true → p ≡ q
path_eq_sound (a, b) (c, d) h =
    let first : a ≡ c = ground arith in let second : b ≡ d = ground arith in cc

pub path_eq_refl : (p : RawPath) → path_eq p p ≡ true
path_eq_refl p = ground arith

pub append_nil : (xs : List ℕ) → xs ≡ xs ++ []
append_nil [] = refl
append_nil (x ∷ xs) = ap (λ ys. x ∷ ys) (append_nil xs)

-- A file that is written at its end keeps what it had, and the other files stay.
grow_here :
    (files : RawPath → Option (List ℕ)) (p path : RawPath) (w tail c : List ℕ)
    → w ≡ bytes_of (files path) ++ tail
    → files p ≡ some c
    → p ≡ path
    → some w ≡ some (c ++ tail)
grow_here files p path w tail c e h same =
    ap some (e ∙ ap (λ o. bytes_of o ++ tail) (ap files (sym same) ∙ h))

pub files_grow :
    (files : RawPath → Option (List ℕ)) (path : RawPath) (w tail : List ℕ)
    → w ≡ bytes_of (files path) ++ tail
    → (p : RawPath) (c : List ℕ) → files p ≡ some c
    → (t : List ℕ) × ((if path_eq p path then some w else files p) ≡ some (c ++ t))
files_grow files path w tail e p c h = elim (Bool-cases (path_eq p path)) [
  | inl same ↦ (tail, (rw (same) (grow_here files p path w tail c e h (path_eq_sound p path same))))
  | inr other ↦ ([], (rw (other) (h ∙ ap some (append_nil c))))
]

pub IsAt-grow :
    (files files' : RawPath → Option (List ℕ)) (db : BlockDb) (n : ℕ) (b : List ℕ)
    → ((p : RawPath) (c : List ℕ) → files p ≡ some c → (t : List ℕ) × (files' p ≡ some (c ++ t)))
    → IsAt files db n b
    → IsAt files' db n b
IsAt-grow files files' db n b grows a =
    let (t, h) = grows a.path a.content a.exists' in
    record {
      path = a.path;
      end = a.end;
      content = a.content ++ t;
      in_file = a.in_file;
      at_offset = a.at_offset;
      of_size = a.of_size;
      exists' = h;
      inside = omega (arith, a.inside, length-append a.content t);
      fits = a.fits;
      reads = still_reads b a.content t a.end a.inside a.fits a.reads;
    }

pub IsAt-entry :
    (files : RawPath → Option (List ℕ)) (db db' : BlockDb) (n : ℕ) (b : List ℕ)
    → db'.file n ≡ db.file n
    → db'.offset n ≡ db.offset n
    → db'.block_size n ≡ db.block_size n
    → IsAt files db n b
    → IsAt files db' n b
IsAt-entry files db db' n b ef eo es a = record {
  path = a.path;
  end = a.end;
  content = a.content;
  in_file = ef ∙ a.in_file;
  at_offset = eo ∙ a.at_offset;
  of_size = es ∙ a.of_size;
  exists' = a.exists';
  inside = a.inside;
  fits = a.fits;
  reads = a.reads;
}

pub IsIndexed-map :
    (files files' : RawPath → Option (List ℕ)) (db db' : BlockDb) (m : ℕ)
    → ((n : ℕ) (b : List ℕ) → n < m → IsAt files db n b → IsAt files' db' n b)
    → (n : ℕ) (bs : List (List ℕ)) → n + length bs ≤ m
    → IsIndexed files db n bs
    → IsIndexed files' db' n bs
IsIndexed-map files files' db db' m f n [] le h = tt
IsIndexed-map files files' db db' m f n (b ∷ bs) le (h, hs) = (
  f n b (omega (arith, le)) h,
  IsIndexed-map files files' db db' m f (n + 1) bs (omega (arith, le)) hs,
)

pub IsIndexed-append :
    (files : RawPath → Option (List ℕ)) (db : BlockDb) (n m : ℕ) (bs : List (List ℕ)) (b : List ℕ)
    → n + length bs ≡ m
    → IsIndexed files db n bs
    → IsAt files db m b
    → IsIndexed files db n (bs ++ (b ∷ []))
IsIndexed-append files db n m [] b e h k =
    (subst (λ i. IsAt files db i b) (let z : m ≡ n = omega (arith, e) in z) k, tt)
IsIndexed-append files db n m (x ∷ bs) b e (h, hs) k =
    (h, IsIndexed-append files db (n + 1) m bs b (omega (arith, e)) hs k)
