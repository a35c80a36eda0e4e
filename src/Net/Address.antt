-- ===== src/Net/Address.antt =====
-- `CNetAddr` of src/network/CNetAddr.cpp. An address is its 16 bytes in network byte order.
pub mod Bits
use metachain.Base.{
  ltb, leb, ◌==◌, if◌then◌else◌, take, drop, replicate, get_or, list_eq, ℕ, zero, suc, ◌+◌, ◌-◌,
  bit_and, Bool, true, false, not, ◌&&◌, ◌||◌, Option, none, some, List, [], ◌∷◌, ◌++◌,
}

pub record NetAddr : Type 0 where
  pub ip : List ℕ
  pub scope_id : ℕ

pub data Network : Type 0 where
  net_unroutable net_ipv4 net_ipv6 : Network

abbrev pub pch_ipv4 : List ℕ
pch_ipv4 = 0 ∷ 0 ∷ 0 ∷ 0 ∷ 0 ∷ 0 ∷ 0 ∷ 0 ∷ 0 ∷ 0 ∷ 0xff ∷ 0xff ∷ []

abbrev pub init : NetAddr
init = record { ip = replicate 16 0; scope_id = 0 }

-- `SetRaw` for IPv4, from 4 bytes, and for IPv6, from 16.
abbrev pub set_raw_ipv4 : List ℕ → NetAddr → NetAddr
set_raw_ipv4 bytes a = record a { ip = pch_ipv4 ++ take 4 bytes }

abbrev pub set_raw : List ℕ → NetAddr → NetAddr
set_raw bytes a = record a { ip = take 16 bytes }

abbrev pub get_byte : NetAddr → ℕ → ℕ
get_byte a n = get_or a.ip (15 - n) 0

-- `memcmp` with the first bytes.
abbrev pub starts : List ℕ → List ℕ → Bool
starts [] ip = true
starts (p ∷ ps) [] = false
starts (p ∷ ps) (b ∷ ip) = p == b && starts ps ip

unfoldable pub is_ipv4 : NetAddr → Bool
is_ipv4 a = starts pch_ipv4 a.ip

unfoldable pub is_rfc1918 : NetAddr → Bool
unfolding is_ipv4
is_rfc1918 a =
    is_ipv4 a
    && (get_byte a 3 == 10
        || (get_byte a 3 == 192 && get_byte a 2 == 168)
        || (get_byte a 3 == 172 && (leb 16 (get_byte a 2) && leb (get_byte a 2) 31)))

unfoldable pub is_rfc2544 : NetAddr → Bool
unfolding is_ipv4
is_rfc2544 a = is_ipv4 a && get_byte a 3 == 198 && (get_byte a 2 == 18 || get_byte a 2 == 19)

unfoldable pub is_rfc3927 : NetAddr → Bool
unfolding is_ipv4
is_rfc3927 a = is_ipv4 a && (get_byte a 3 == 169 && get_byte a 2 == 254)

unfoldable pub is_rfc6598 : NetAddr → Bool
unfolding is_ipv4
is_rfc6598 a = is_ipv4 a && get_byte a 3 == 100 && leb 64 (get_byte a 2) && leb (get_byte a 2) 127

unfoldable pub is_rfc5737 : NetAddr → Bool
unfolding is_ipv4
is_rfc5737 a =
    is_ipv4 a
    && ((get_byte a 3 == 192 && get_byte a 2 == 0 && get_byte a 1 == 2)
        || (get_byte a 3 == 198 && get_byte a 2 == 51 && get_byte a 1 == 100)
        || (get_byte a 3 == 203 && get_byte a 2 == 0 && get_byte a 1 == 113))

unfoldable pub is_rfc3849 : NetAddr → Bool
is_rfc3849 a =
    get_byte a 15 == 0x20 && get_byte a 14 == 0x01 && get_byte a 13 == 0x0d && get_byte a 12 == 0xb8

unfoldable pub is_rfc3964 : NetAddr → Bool
is_rfc3964 a = get_byte a 15 == 0x20 && get_byte a 14 == 0x02

unfoldable pub is_rfc6052 : NetAddr → Bool
is_rfc6052 a = starts (0 ∷ 0x64 ∷ 0xff ∷ 0x9b ∷ 0 ∷ 0 ∷ 0 ∷ 0 ∷ 0 ∷ 0 ∷ 0 ∷ 0 ∷ []) a.ip

unfoldable pub is_rfc4380 : NetAddr → Bool
is_rfc4380 a =
    get_byte a 15 == 0x20 && get_byte a 14 == 0x01 && get_byte a 13 == 0 && get_byte a 12 == 0

unfoldable pub is_rfc4862 : NetAddr → Bool
is_rfc4862 a = starts (0xfe ∷ 0x80 ∷ 0 ∷ 0 ∷ 0 ∷ 0 ∷ 0 ∷ 0 ∷ []) a.ip

unfoldable pub is_rfc4193 : NetAddr → Bool
is_rfc4193 a = bit_and (get_byte a 15) 0xfe == 0xfc

unfoldable pub is_rfc6145 : NetAddr → Bool
is_rfc6145 a = starts (0 ∷ 0 ∷ 0 ∷ 0 ∷ 0 ∷ 0 ∷ 0 ∷ 0 ∷ 0xff ∷ 0xff ∷ 0 ∷ 0 ∷ []) a.ip

unfoldable pub is_rfc4843 : NetAddr → Bool
is_rfc4843 a =
    get_byte a 15 == 0x20
    && get_byte a 14 == 0x01
    && get_byte a 13 == 0x00
    && bit_and (get_byte a 12) 0xf0 == 0x10

unfoldable pub is_local : NetAddr → Bool
unfolding is_ipv4
is_local a =
    (is_ipv4 a && (get_byte a 3 == 127 || get_byte a 3 == 0))
    || list_eq a.ip (replicate 15 0 ++ (1 ∷ []))

-- INADDR_NONE is 255.255.255.255.
unfoldable pub is_valid : NetAddr → Bool
unfolding is_rfc3849 is_ipv4
is_valid a =
    not (starts (drop 3 pch_ipv4) a.ip)
    && not (list_eq a.ip (replicate 16 0))
    && not (is_rfc3849 a)
    && not (
        is_ipv4 a
        && (list_eq (drop 12 a.ip) (replicate 4 255) || list_eq (drop 12 a.ip) (replicate 4 0)))

unfoldable pub is_routable : NetAddr → Bool
unfolding is_valid is_rfc1918 is_rfc2544 is_rfc3927 is_rfc4862 is_rfc6598 is_rfc5737 is_rfc4193
    is_rfc4843 is_local
is_routable a =
    is_valid a
    && not (
        is_rfc1918 a
        || is_rfc2544 a
        || is_rfc3927 a
        || is_rfc4862 a
        || is_rfc6598 a
        || is_rfc5737 a
        || is_rfc4193 a
        || is_rfc4843 a
        || is_local a)

unfoldable pub get_network : NetAddr → Network
unfolding is_routable is_ipv4
get_network a =
    if not (is_routable a) then net_unroutable else if is_ipv4 a then net_ipv4 else net_ipv6

-- `GetExtNetwork`; `none` is the null pointer.
pub data ExtNetwork : Type 0 where
  net : Network → ExtNetwork
  net_unknown net_teredo : ExtNetwork

unfoldable pub get_ext_network : Option NetAddr → ExtNetwork
unfolding is_rfc4380 get_network
get_ext_network none = net_unknown
get_ext_network (some a) = if is_rfc4380 a then net_teredo else net (get_network a)

pub data Reachability : Type 0 where
  reach_unreachable reach_default reach_teredo reach_ipv6_weak : Reachability
  reach_ipv4 reach_ipv6_strong reach_private : Reachability

-- The inner `switch` of each kind of partner.
abbrev pub reach_from_ipv4 : ExtNetwork → Reachability
reach_from_ipv4 (net net_ipv4) = reach_ipv4
reach_from_ipv4 _ = reach_default

abbrev pub reach_from_ipv6 : Bool → ExtNetwork → Reachability
reach_from_ipv6 tunnel net_teredo = reach_teredo
reach_from_ipv6 tunnel (net net_ipv4) = reach_ipv4
reach_from_ipv6 tunnel (net net_ipv6) = if tunnel then reach_ipv6_weak else reach_ipv6_strong
reach_from_ipv6 tunnel _ = reach_default

abbrev pub reach_from_other : ExtNetwork → Reachability
reach_from_other net_teredo = reach_teredo
reach_from_other (net net_ipv6) = reach_ipv6_weak
reach_from_other (net net_ipv4) = reach_ipv4
reach_from_other _ = reach_default

abbrev pub reach_from : ExtNetwork → Bool → ExtNetwork → Reachability
reach_from (net net_ipv4) tunnel ours = reach_from_ipv4 ours
reach_from (net net_ipv6) tunnel ours = reach_from_ipv6 tunnel ours
reach_from _ tunnel ours = reach_from_other ours

unfoldable pub get_reachability_from : NetAddr → Option NetAddr → Reachability
unfolding is_routable get_ext_network is_rfc3964 is_rfc6052 is_rfc6145
get_reachability_from a partner =
    if is_routable a
    then reach_from (get_ext_network partner) (is_rfc3964 a || is_rfc6052 a || is_rfc6145 a)
        (get_ext_network (some a))
    else reach_unreachable

-- `memcmp`.
abbrev pub bytes_lt : List ℕ → List ℕ → Bool
bytes_lt [] bs = false
bytes_lt (a ∷ as') [] = false
bytes_lt (a ∷ as') (b ∷ bs) = ltb a b || (a == b && bytes_lt as' bs)

abbrev pub addr_eq : NetAddr → NetAddr → Bool
addr_eq a b = list_eq a.ip b.ip

abbrev pub addr_lt : NetAddr → NetAddr → Bool
addr_lt a b = bytes_lt a.ip b.ip
