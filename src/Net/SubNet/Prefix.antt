-- ===== src/Net/SubNet/Prefix.antt =====
-- A subnet with a prefix's length matches the addresses that agree with it in their first bits
-- (src/network/CSubnet.cpp).
use Prim.Native.Nat.{min}
use mathlib.Core.List.{append-nil}
use metachain.Base.{
  ==_iff, length-take, take-append, drop-append, take-append_of_length, drop-append_of_length,
  all_below, all_below_at, leb, if◌then◌else◌, Bool-cases, length, take, drop, replicate, list_eq,
  list_eq_sound, take-append_le, take-append_add, ℕ, zero, suc, ◌+◌, ◌-◌, ◌*◌, ◌≤◌, ◌≡◌, ◌↔◌, refl,
  ap, sym, ◌∙◌, Bool, true, false, not, ◌&&◌, List, [], ◌∷◌, ◌++◌, arith, inl, inr,
}
use metachain.Base.Int.{pos}
use metachain.Base.Bytes.{IsBytes}
use metachain.Net.Address.{NetAddr, is_valid}
use metachain.Net.Address.Bits.{
  byte_bits, bits, left_true, right_true, first_bits, masked_iff, length-byte_bits,
}
use metachain.Net.SubNet.{
  clear_from, mask_ip, start_offset, in_range, from_prefix, masked_eq, matches,
}

-- The mask of the first `n` bits in `k` bytes.
prefix_mask : ℕ → ℕ → List ℕ
prefix_mask zero n = []
prefix_mask (suc k) n = first_bits (if leb 8 n then 8 else n) ∷ prefix_mask k (n - 8)

clears : ℕ → Bool
clears n = list_eq (clear_from (128 - n) n (replicate 16 255)) (prefix_mask 16 n)

all_clear : all_below clears 129 ≡ true
unfolding all_below clears clear_from prefix_mask
all_clear = refl

clear_from-prefix_mask :
    (n : ℕ) → n ≤ 128 → clear_from (128 - n) n (replicate 16 255) ≡ prefix_mask 16 n
clear_from-prefix_mask n h =
    list_eq_sound (clear_from (128 - n) n (replicate 16 255)) (prefix_mask 16 n)
      (unfold clears in all_below_at clears 129 n (omega arith) all_clear)

abbrev head_bits : ℕ → ℕ
head_bits n = if leb 8 n then 8 else n

take_all_bits : (b : ℕ) → take 8 (byte_bits b) ≡ byte_bits b
unfolding byte_bits
take_all_bits b = refl

-- The first bits of a byte, and those of the rest.
take-bits :
    (n b : ℕ) (bs : List ℕ)
    → take n (bits (b ∷ bs)) ≡ take (head_bits n) (byte_bits b) ++ take (n - 8) (bits bs)
unfolding bits
take-bits n b bs = elim (Bool-cases (leb 8 n)) [
  | inl e ↦ rw e (
      ap (λ k. take k (byte_bits b ++ bits bs))
        (let z : n ≡ length (byte_bits b) + (n - 8) = ground (arith, length-byte_bits b) in z)
      ∙ take-append_add (byte_bits b) (bits bs) (n - 8)
      ∙ ap (λ xs. xs ++ take (n - 8) (bits bs)) (sym (take_all_bits b)))
  | inr e ↦ rw e (
      take-append_le n (byte_bits b) (bits bs) (ground (arith, length-byte_bits b))
      ∙ sym (append-nil (take n (byte_bits b)))
      ∙ ap (λ k. take n (byte_bits b) ++ take k (bits bs)) (let z : 0 ≡ n - 8 = ground arith in z))
]

append_parts {ℓ} :
    {A : Type ℓ} (xs ys as' bs : List A)
    → length xs ≡ length ys
    → xs ++ as' ≡ ys ++ bs
    → (xs ≡ ys) × (as' ≡ bs)
append_parts xs ys as' bs n e = (
  sym (take-append xs as')
      ∙ ap (take (length xs)) e
      ∙ take-append_of_length (length xs) ys bs (sym n),
  sym (drop-append xs as')
      ∙ ap (drop (length xs)) e
      ∙ drop-append_of_length (length xs) ys bs (sym n),
)

length-head : (n x y : ℕ) → length (take n (byte_bits x)) ≡ length (take n (byte_bits y))
length-head n x y =
    length-take n (byte_bits x)
    ∙ ap (min n) (length-byte_bits x ∙ sym (length-byte_bits y))
    ∙ sym (length-take n (byte_bits y))

head_bits_le : (n : ℕ) → head_bits n ≤ 8
head_bits_le n = ground arith

both_true : (a b : Bool) → a ≡ true → b ≡ true → (a && b) ≡ true
both_true a b h k = ground arith

masked_eq-take :
    (k n : ℕ) (xs ys : List ℕ)
    → length xs ≡ k
    → length ys ≡ k
    → IsBytes xs
    → IsBytes ys
    → (masked_eq xs (prefix_mask k n) (mask_ip ys (prefix_mask k n)) ≡ true)
      ↔ (take n (bits xs) ≡ take n (bits ys))
unfolding masked_eq mask_ip prefix_mask
masked_eq-take zero n [] [] lx ly bx by' = ((λ h. refl), (λ h. refl))
masked_eq-take zero n (x ∷ xs) ys lx ly bx by' = absurd (omega (arith, lx))
masked_eq-take zero n [] (y ∷ ys) lx ly bx by' = absurd (omega (arith, ly))
masked_eq-take (suc k) n [] ys lx ly bx by' = absurd (omega (arith, lx))
masked_eq-take (suc k) n (x ∷ xs) [] lx ly bx by' = absurd (omega (arith, ly))
masked_eq-take (suc k) n (x ∷ xs) (y ∷ ys) lx ly bx by' =
    let rest = masked_eq-take k (n - 8) xs ys (omega (arith, lx)) (omega (arith, ly)) bx.1 by'.1 in
    let head = masked_iff (head_bits n) x y (head_bits_le n) bx.0 by'.0 in
    (
      (λ h.
          take-bits n x xs
          ∙ ap (λ bs. bs ++ take (n - 8) (bits xs)) (head.0 ((==_iff _ _).0 (left_true _ _ h)))
          ∙ ap (λ bs. take (head_bits n) (byte_bits y) ++ bs) (rest.0 (right_true _ _ h))
          ∙ sym (take-bits n y ys)),
      (λ e.
          let parts =
            append_parts _ _ _ _ (length-head (head_bits n) x y)
              (sym (take-bits n x xs) ∙ e ∙ take-bits n y ys) in
          both_true _ _ ((==_iff _ _).1 (head.1 parts.0)) (rest.1 parts.1)),
    )

first_le : (addr : NetAddr) (n : ℕ) → in_range addr (pos n) ≡ true → n + start_offset addr * 8 ≤ 128
first_le addr n h = ground arith

guarded : (v b : Bool) → (if not v then false else b) ≡ true → (v ≡ true) × (b ≡ true)
guarded v b h = ground arith

unguarded : (v b : Bool) → v ≡ true → b ≡ true → (if not v then false else b) ≡ true
unguarded v b h k = ground arith

matches-from_prefix :
    (addr a : NetAddr) (n : ℕ)
    → in_range addr (pos n) ≡ true
    → (let first = n + start_offset addr * 8 in
        matches (from_prefix addr (pos n)) a ≡ (
          if not (is_valid a)
          then false
          else masked_eq a.ip (prefix_mask 16 first) (mask_ip addr.ip (prefix_mask 16 first))))
unfolding matches from_prefix
matches-from_prefix addr a n range =
    rw
      (
        range,
        matches,
        from_prefix,
        clear_from-prefix_mask (n + start_offset addr * 8) (first_le addr n range),
      )
      refl

-- A subnet made of an address and a prefix's length in range matches exactly the valid addresses whose
-- first bits are those of its address: as many as the length says, behind the 96 bits of the
-- mapped range for an IPv4 address.
pub matches-from_prefix_iff :
    (addr a : NetAddr) (n : ℕ)
    → length addr.ip ≡ 16
    → length a.ip ≡ 16
    → IsBytes addr.ip
    → IsBytes a.ip
    → in_range addr (pos n) ≡ true
    → (matches (from_prefix addr (pos n)) a ≡ true) ↔ (
        (is_valid a ≡ true)
        × (take (n + start_offset addr * 8) (bits a.ip)
            ≡ take (n + start_offset addr * 8) (bits addr.ip)))
matches-from_prefix_iff addr a n la lb ba bb range =
    let e = matches-from_prefix addr a n range in
    let same = masked_eq-take 16 (n + start_offset addr * 8) a.ip addr.ip lb la bb ba in
    (
      (λ h. let (valid, m) = guarded _ _ (sym e ∙ h) in (valid, same.0 m)),
      (λ h. e ∙ unguarded _ _ h.0 (same.1 h.1)),
    )
