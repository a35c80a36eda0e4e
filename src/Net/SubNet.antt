-- ===== src/Net/SubNet.antt =====
-- `CSubNet` of src/network/CSubnet.cpp.
pub mod Prefix
use metachain.Base.{
  ltb, leb, ◌==◌, if◌then◌else◌, take, drop, replicate, get_or, list_eq, ℕ, zero, suc, ◌+◌, ◌-◌,
  ◌*◌, ◌/◌, ◌%◌, ◌^◌, bit_and, Bool, true, false, not, ◌&&◌, ◌||◌, List, [], ◌∷◌, ◌++◌,
}
use metachain.Base.Int.{ℤ, pos, negsuc}
use metachain.Net.Address.{NetAddr, is_ipv4, is_valid, init}

pub record SubNet : Type 0 where
  pub network : NetAddr
  pub netmask : List ℕ
  pub valid : Bool

abbrev pub empty : SubNet
empty = record { network = init; netmask = replicate 16 0; valid = false }

-- `netmask[i] &= ~(1 << k)`.
abbrev pub clear_bit : ℕ → ℕ → List ℕ → List ℕ
clear_bit i k [] = []
clear_bit zero k (m ∷ ms) = bit_and m (255 - 2 ^ k) ∷ ms
clear_bit (suc i) k (m ∷ ms) = m ∷ clear_bit i k ms

-- Clear bits [n..127]; `left` is how many they are.
unfoldable pub clear_from : (left n : ℕ) → List ℕ → List ℕ
clear_from zero n ms = ms
clear_from (suc left) n ms = clear_from left (n + 1) (clear_bit (n / 8) (7 - n % 8) ms)

-- `network.ip[x] &= netmask[x]`.
unfoldable pub mask_ip : List ℕ → List ℕ → List ℕ
mask_ip [] ms = []
mask_ip (b ∷ bs) [] = b ∷ bs
mask_ip (b ∷ bs) (m ∷ ms) = bit_and b m ∷ mask_ip bs ms

abbrev pub start_offset : NetAddr → ℕ
start_offset a = if is_ipv4 a then 12 else 0

abbrev pub in_range : NetAddr → ℤ → Bool
in_range a (pos n) = leb n (128 - start_offset a * 8)
in_range a (negsuc n) = false

abbrev pub prefix_of : ℤ → ℕ
prefix_of (pos n) = n
prefix_of (negsuc n) = 0

-- From a prefix's length, an int32_t.
unfoldable pub from_prefix : NetAddr → ℤ → SubNet
unfolding clear_from mask_ip
from_prefix addr mask =
    let first = prefix_of mask + start_offset addr * 8 in
    let netmask =
      if in_range addr mask
      then clear_from (128 - first) first (replicate 16 255)
      else replicate 16 255 in
    record {
      network = record addr { ip = mask_ip addr.ip netmask };
      netmask = netmask;
      valid = in_range addr mask;
    }

-- From a mask.
unfoldable pub from_mask : NetAddr → NetAddr → SubNet
unfolding mask_ip
from_mask addr mask =
    let start = start_offset addr in
    let netmask = replicate start 255 ++ drop start mask.ip in
    record {
      network = record addr { ip = mask_ip addr.ip netmask };
      netmask = netmask;
      valid = true;
    }

-- Of one address.
unfoldable pub from_address : NetAddr → SubNet
from_address addr = record { network = addr; netmask = replicate 16 255; valid = is_valid addr }

unfoldable pub masked_eq : List ℕ → List ℕ → List ℕ → Bool
masked_eq (b ∷ bs) (m ∷ ms) (n ∷ ns) = bit_and b m == n && masked_eq bs ms ns
masked_eq _ _ _ = true

-- `Match`.
unfoldable pub matches : SubNet → NetAddr → Bool
unfolding masked_eq
matches s addr =
    if not s.valid || not (is_valid addr) then false else masked_eq addr.ip s.netmask s.network.ip
