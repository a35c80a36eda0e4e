-- ===== src/Script/Encoding/Der.antt =====
-- `IsValidSignatureEncoding` (src/MCP/MCP06/scriptFunctions.cpp) against the format that its comment
-- gives: 0x30 [total-length] 0x02 [R-length] [R] 0x02 [S-length] [S] [sighash].
use metachain.Base.{
  ℕ, suc, ◌+◌, ◌-◌, ◌≤◌, ◌<◌, ◌≡◌, ◌↔◌, refl, sym, ap, ◌∙◌, true, false, List, [], ◌∷◌, ◌++◌, arith,
  length, get_or, take, drop, length-append, length-take, length-drop, take-append-drop,
}
use mathlib.Core.List.{append_assoc}
use metachain.Base.Bytes.{high_bit}
use metachain.Script.Encoding.{is_integer, is_valid_signature_encoding}

-- A positive integer, most significant byte first, in as few bytes as possible: the first byte has
-- its top bit clear, and is 0 only where the next byte has its top bit set.
abbrev pub IsDerInteger : List ℕ → Type 0
IsDerInteger [] = ⊥
IsDerInteger (b ∷ []) = high_bit b ≡ false
IsDerInteger (b ∷ c ∷ bs) = (high_bit b ≡ false) × (b ≡ 0 → high_bit c ≡ true)

abbrev pub der_signature : List ℕ → List ℕ → ℕ → List ℕ
der_signature r s hash_type =
    0x30
    ∷ (length r + length s + 4)
    ∷ 0x02
    ∷ length r
    ∷ (r ++ (0x02 ∷ length s ∷ (s ++ (hash_type ∷ []))))

get_or-append : (xs ys : List ℕ) (i d : ℕ) → get_or (xs ++ ys) (length xs + i) d ≡ get_or ys i d
get_or-append [] ys i d = ap (λ (n : ℕ). get_or ys n d) (omega arith)
get_or-append (x ∷ xs) ys i d =
    let e : suc (length xs) + i ≡ suc (length xs + i) = omega arith in
    rw e (get_or-append xs ys i d)

get_or-append_at :
    (xs ys : List ℕ) (i k : ℕ) → k ≡ length xs + i → get_or (xs ++ ys) k 0 ≡ get_or ys i 0
get_or-append_at xs ys i k e = rw e (get_or-append xs ys i 0)

is_integer-front :
    (front r rest : List ℕ)
    → (is_integer (front ++ (r ++ rest)) (length front) (length r) ≡ true) ↔ IsDerInteger r
unfolding is_integer
is_integer-front front [] rest = (λ h. ground arith, λ h. absurd h)
is_integer-front front (b ∷ []) rest =
    let first = get_or-append_at front (b ∷ rest) 0 (length front) (omega arith) in
    (λ h. ground (arith, first), λ h. ground (arith, first))
is_integer-front front (b ∷ c ∷ bs) rest =
    let first = get_or-append_at front (b ∷ c ∷ (bs ++ rest)) 0 (length front) (omega arith) in
    let second = get_or-append_at front (b ∷ c ∷ (bs ++ rest)) 1 (length front + 1) refl in
    (λ h. ground (arith, first, second), λ h. ground (arith, first, second))

is_integer-eq :
    (sig front r rest : List ℕ) (i n : ℕ)
    → sig ≡ front ++ (r ++ rest)
    → i ≡ length front
    → n ≡ length r
    → is_integer sig i n ≡ is_integer (front ++ (r ++ rest)) (length front) (length r)
is_integer-eq sig front r rest i n e f g = rw (e, f, g)

-- What the bytes of a signature of that format are, by index.
module _ (r s : List ℕ) (h : ℕ) where
  at_s_type : get_or (der_signature r s h) (length r + 4) 0 ≡ 0x02
  at_s_type =
      get_or-append_at (0x30 ∷ (length r + length s + 4) ∷ 0x02 ∷ length r ∷ r) _ 0 (length r + 4)
        (omega arith)

  at_s_length : get_or (der_signature r s h) (5 + length r) 0 ≡ length s
  at_s_length =
      get_or-append_at (0x30 ∷ (length r + length s + 4) ∷ 0x02 ∷ length r ∷ r) _ 1 (5 + length r)
        (omega arith)

  length-der_signature : length (der_signature r s h) ≡ length r + length s + 7
  length-der_signature =
      omega (arith, length-append r (0x02 ∷ length s ∷ (s ++ (h ∷ []))), length-append s (h ∷ []))

  r_integer : (is_integer (der_signature r s h) 4 (length r) ≡ true) ↔ IsDerInteger r
  r_integer =
      is_integer-front (0x30 ∷ (length r + length s + 4) ∷ 0x02 ∷ length r ∷ []) r
        (0x02 ∷ length s ∷ (s ++ (h ∷ [])))

  s_integer : (is_integer (der_signature r s h) (length r + 6) (length s) ≡ true) ↔ IsDerInteger s
  s_integer =
      let front : List ℕ =
        0x30 ∷ (length r + length s + 4) ∷ 0x02 ∷ length r ∷ (r ++ (0x02 ∷ length s ∷ [])) in
      let e =
        is_integer-eq (der_signature r s h) front s (h ∷ []) (length r + 6) (length s)
          (simp append_assoc) (omega (arith, length-append r (0x02 ∷ length s ∷ []))) refl in
      let (to, from) = is_integer-front front s (h ∷ []) in (λ x. to (sym e ∙ x), λ x. e ∙ from x)

IsDerInteger-length : (r : List ℕ) → IsDerInteger r → 0 < length r
IsDerInteger-length [] d = absurd d
IsDerInteger-length (b ∷ bs) d = omega arith

-- A byte string of the format.
pub record IsDer (sig : List ℕ) : Type 0 where
  pub r : List ℕ
  pub s : List ℕ
  pub hash_type : ℕ
  pub layout : sig ≡ der_signature r s hash_type
  pub r_integer : IsDerInteger r
  pub s_integer : IsDerInteger s
  pub short : length r + length s ≤ 66

der_signature-valid :
    (r s : List ℕ) (h : ℕ)
    → IsDerInteger r
    → IsDerInteger s
    → length r + length s ≤ 66
    → is_valid_signature_encoding (der_signature r s h) ≡ true
unfolding is_valid_signature_encoding
der_signature-valid r s h dr ds l = ground (
  arith,
  length-der_signature r s h,
  at_s_type r s h,
  at_s_length r s h,
  (r_integer r s h).1 dr,
  (s_integer r s h).1 ds,
  IsDerInteger-length r dr,
  IsDerInteger-length s ds,
)

split_at :
    (n k : ℕ) (xs : List ℕ)
    → length xs ≡ n + k
    → (front : List ℕ) × (rest : List ℕ) × (xs ≡ front ++ rest)
      × (length front ≡ n)
      × (length rest ≡ k)
split_at n k xs e = (
  take n xs,
  drop n xs,
  sym (take-append-drop n xs),
  omega (arith, length-take n xs),
  omega (arith, length-drop n xs),
)

two_and_rest :
    (k : ℕ) (xs : List ℕ)
    → length xs ≡ k + 2
    → (a : ℕ) × (b : ℕ) × (rest : List ℕ) × (xs ≡ a ∷ b ∷ rest) × (length rest ≡ k)
two_and_rest k [] e = absurd (omega arith)
two_and_rest k (a ∷ []) e = absurd (omega arith)
two_and_rest k (a ∷ b ∷ rest) e = (a, b, rest, refl, omega arith)

one_only : (xs : List ℕ) → length xs ≡ 1 → (a : ℕ) × (xs ≡ a ∷ [])
one_only [] e = absurd (omega arith)
one_only (a ∷ []) e = (a, refl)
one_only (a ∷ b ∷ xs) e = absurd (omega arith)

-- Any byte string with the sizes that the tests compare.
pieces :
    (d n : ℕ) (t : List ℕ)
    → length t ≡ d + (n + 3)
    → (r : List ℕ) × (s : List ℕ) × (e : ℕ) × (f : ℕ) × (h : ℕ) × (t
        ≡ r ++ (e ∷ f ∷ (s ++ (h ∷ []))))
      × (length r ≡ d)
      × (length s ≡ n)
pieces d n t l =
    let (r, u, eu, lr, lu) = split_at d (n + 3) t l in
    let (e, f, v, ev, lv) = two_and_rest (n + 1) u (omega arith) in
    let (s, w, ew, ls, lw) = split_at n 1 v lv in
    let (h, eh) = one_only w lw in
    let layout = eu ∙ ap (λ z. r ++ z) (ev ∙ ap (λ z. e ∷ f ∷ z) (ew ∙ ap (λ z. s ++ z) eh)) in
    (r, s, e, f, h, layout, lr, ls)

-- What the tests say of a signature that passes them.
record Checks (sig : List ℕ) (len_r len_s : ℕ) : Type 0 where
  long : 9 ≤ length sig
  compound : get_or sig 0 0 ≡ 0x30
  total : get_or sig 1 0 ≡ length sig - 3
  sizes : len_r + len_s + 7 ≡ length sig
  short : length sig ≤ 73
  r_type : get_or sig 2 0 ≡ 0x02
  r_valid : is_integer sig 4 len_r ≡ true
  s_type : get_or sig (len_r + 4) 0 ≡ 0x02
  s_valid : is_integer sig (len_r + 6) len_s ≡ true

valid-Checks :
    (sig : List ℕ)
    → is_valid_signature_encoding sig ≡ true
    → Checks sig (get_or sig 3 0) (get_or sig (5 + get_or sig 3 0) 0)
unfolding is_valid_signature_encoding
valid-Checks sig v = ground arith

der_bytes :
    {a b c d e f : ℕ} (r s : List ℕ) (h : ℕ)
    → a ≡ 0x30
    → b ≡ length r + length s + 4
    → c ≡ 0x02
    → d ≡ length r
    → e ≡ 0x02
    → f ≡ length s
    → a ∷ b ∷ c ∷ d ∷ (r ++ (e ∷ f ∷ (s ++ (h ∷ [])))) ≡ der_signature r s h
der_bytes r s h pa pb pc pd pe pf = rw (pa, pb, pc, pd, pe, pf)

from_pieces :
    (a b c d e f h : ℕ) (r s sig : List ℕ)
    → sig ≡ a ∷ b ∷ c ∷ d ∷ (r ++ (e ∷ f ∷ (s ++ (h ∷ []))))
    → length r ≡ d
    → length s ≡ get_or sig (5 + d) 0
    → Checks sig d (get_or sig (5 + d) 0)
    → IsDer sig
from_pieces a b c d e f h r s sig layout lr ls k =
    let at_e : get_or sig (d + 4) 0 ≡ e =
      rw layout
        (get_or-append_at (a ∷ b ∷ c ∷ d ∷ r) (e ∷ f ∷ (s ++ (h ∷ []))) 0 (d + 4) (omega arith)) in
    let at_f : get_or sig (5 + d) 0 ≡ f =
      rw layout
        (get_or-append_at (a ∷ b ∷ c ∷ d ∷ r) (e ∷ f ∷ (s ++ (h ∷ []))) 1 (5 + d) (omega arith)) in
    let at_a : get_or sig 0 0 ≡ a = ap (λ (l : List ℕ). get_or l 0 0) layout in
    let at_b : get_or sig 1 0 ≡ b = ap (λ (l : List ℕ). get_or l 1 0) layout in
    let at_c : get_or sig 2 0 ≡ c = ap (λ (l : List ℕ). get_or l 2 0) layout in
    let whole : sig ≡ der_signature r s h =
      layout
      ∙ der_bytes r s h (omega arith) (omega arith) (omega arith) (omega arith) (omega arith)
          (omega arith) in
    let valid_r : is_integer (der_signature r s h) 4 (length r) ≡ true =
      rw (sym whole, lr) k.r_valid in
    let valid_s : is_integer (der_signature r s h) (length r + 6) (length s) ≡ true =
      rw (sym whole, lr, ls) k.s_valid in
    record {
      r = r;
      s = s;
      hash_type = h;
      layout = whole;
      r_integer = (r_integer r s h).0 valid_r;
      s_integer = (s_integer r s h).0 valid_s;
      short = omega arith;
    }

IsDer-valid : (sig : List ℕ) → IsDer sig → is_valid_signature_encoding sig ≡ true
IsDer-valid sig d =
    ap is_valid_signature_encoding d.layout
    ∙ der_signature-valid d.r d.s d.hash_type d.r_integer d.s_integer d.short

valid-IsDer : (sig : List ℕ) → is_valid_signature_encoding sig ≡ true → IsDer sig
valid-IsDer [] v = absurd (unfold is_valid_signature_encoding in cc)
valid-IsDer (a ∷ []) v = absurd (omega (arith, (valid-Checks _ v).long))
valid-IsDer (a ∷ b ∷ []) v = absurd (omega (arith, (valid-Checks _ v).long))
valid-IsDer (a ∷ b ∷ c ∷ []) v = absurd (omega (arith, (valid-Checks _ v).long))
valid-IsDer (a ∷ b ∷ c ∷ d ∷ t) v =
    let k = valid-Checks (a ∷ b ∷ c ∷ d ∷ t) v in
    let n : ℕ = get_or (a ∷ b ∷ c ∷ d ∷ t) (5 + d) 0 in
    let (r, s, e, f, h, layout, lr, ls) = pieces d n t (omega (arith, k.sizes)) in
    from_pieces a b c d e f h r s _ (ap (λ (l : List ℕ). a ∷ b ∷ c ∷ d ∷ l) layout) lr ls k

-- `IsValidSignatureEncoding` holds exactly of the byte strings of the DER format with a hash type
-- behind: a compound of two positive integers R and S, each in as few bytes as possible, whose
-- lengths are consistent and which take 66 bytes at most together.
pub is_valid_signature_encoding_iff :
    (sig : List ℕ) → (is_valid_signature_encoding sig ≡ true) ↔ IsDer sig
is_valid_signature_encoding_iff sig = (valid-IsDer sig, IsDer-valid sig)
