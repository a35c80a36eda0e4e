-- ===== src/Net/AddressRuns.antt =====
-- Addresses, subnets and services on concrete inputs.
use metachain.Base.{
  ltb, take, ℕ, ◌+◌, ◌*◌, ◌≡◌, ◌↔◌, refl, true, false, Bool, ◌&&◌, some, none, List, [], ◌∷◌, arith,
}
use metachain.Base.Int.{pos, negsuc}
use metachain.Base.Bytes.{IsBytes}
use metachain.Net.Address.{
  NetAddr, bytes_lt, init, set_raw_ipv4, is_valid, is_routable, is_local, get_network,
  net_unroutable, get_reachability_from, reach_ipv4, is_ipv4, is_rfc3849, is_rfc1918, is_rfc2544,
  is_rfc3927, is_rfc4862, is_rfc6598, is_rfc5737, is_rfc4193, is_rfc4843, is_rfc3964, is_rfc6052,
  is_rfc6145, is_rfc4380, get_ext_network,
}
use metachain.Net.Address.Bits.{bits}
use metachain.Net.SubNet.{start_offset, from_prefix, matches, masked_eq, mask_ip, clear_from}
use metachain.Net.SubNet.Prefix.{matches-from_prefix_iff}
use metachain.Net.Service.{Service, service_lt, get_key, get_sock_addr}
use metachain.Net.Service.Key.{service_lt-get_key}
use metachain.Net.Service.Sockets.{carried, then_set, set_sock_addr-get_sock_addr}

abbrev v4 : (a b c d : ℕ) → NetAddr
v4 a b c d = set_raw_ipv4 (a ∷ b ∷ c ∷ d ∷ []) init

routes : is_routable (v4 8 8 8 8) ≡ true
unfolding is_routable is_valid is_local is_ipv4 is_rfc3849 is_rfc1918 is_rfc2544 is_rfc3927
    is_rfc4862 is_rfc6598 is_rfc5737 is_rfc4193 is_rfc4843
routes = refl

private_network : get_network (v4 192 168 0 1) ≡ net_unroutable
unfolding get_network is_routable is_valid is_local is_ipv4 is_rfc3849 is_rfc1918 is_rfc2544
    is_rfc3927 is_rfc4862 is_rfc6598 is_rfc5737 is_rfc4193 is_rfc4843
private_network = refl

reaches : get_reachability_from (v4 8 8 8 8) (some (v4 9 9 9 9)) ≡ reach_ipv4
unfolding get_reachability_from get_ext_network get_network is_routable is_valid is_local is_ipv4
    is_rfc3849 is_rfc1918 is_rfc2544 is_rfc3927 is_rfc4862 is_rfc6598 is_rfc5737 is_rfc4193
    is_rfc4843 is_rfc3964 is_rfc6052 is_rfc6145 is_rfc4380
reaches = refl

-- 172.20.0.0/14 has 172.23.1.1 and does not have 172.24.1.1.
in_subnet : matches (from_prefix (v4 172 20 0 0) (pos 14)) (v4 172 23 1 1) ≡ true
unfolding matches masked_eq from_prefix mask_ip clear_from is_valid is_ipv4 is_rfc3849
in_subnet = refl

out_of_subnet : matches (from_prefix (v4 172 20 0 0) (pos 14)) (v4 172 24 1 1) ≡ false
unfolding matches masked_eq from_prefix mask_ip clear_from is_valid is_ipv4 is_rfc3849
out_of_subnet = refl

-- A length out of range matches nothing.
no_prefix : matches (from_prefix (v4 172 20 0 0) (negsuc 0)) (v4 172 20 0 0) ≡ false
unfolding matches masked_eq from_prefix mask_ip is_valid is_ipv4 is_rfc3849
no_prefix = refl

all_bytes : List ℕ → Bool
all_bytes [] = true
all_bytes (b ∷ bs) = ltb b 256 && all_bytes bs

all_bytes_sound : (bs : List ℕ) → all_bytes bs ≡ true → IsBytes bs
unfolding all_bytes
all_bytes_sound [] h = tt
all_bytes_sound (b ∷ bs) h = (ground arith, all_bytes_sound bs (ground arith))

v4-IsBytes : (a b c d : ℕ) → all_bytes (v4 a b c d).ip ≡ true → IsBytes (v4 a b c d).ip
v4-IsBytes a b c d h = all_bytes_sound (v4 a b c d).ip h

matches-from_prefix_iff_example :
    (matches (from_prefix (v4 172 20 0 0) (pos 14)) (v4 172 23 1 1) ≡ true) ↔ (
      (is_valid (v4 172 23 1 1) ≡ true)
      × (take (14 + start_offset (v4 172 20 0 0) * 8) (bits (v4 172 23 1 1).ip)
          ≡ take (14 + start_offset (v4 172 20 0 0) * 8) (bits (v4 172 20 0 0).ip)))
matches-from_prefix_iff_example =
    matches-from_prefix_iff (v4 172 20 0 0) (v4 172 23 1 1) 14 refl refl
      (v4-IsBytes 172 20 0 0 (unfold all_bytes in refl))
      (v4-IsBytes 172 23 1 1 (unfold all_bytes in refl)) (unfold is_ipv4 in refl)

abbrev peer : Service
peer = record { addr = v4 172 20 0 1; port = 27500 }

abbrev next_peer : Service
next_peer = record { addr = v4 172 20 0 1; port = 27648 }

service_lt-get_key_example : service_lt peer next_peer ≡ bytes_lt (get_key peer) (get_key next_peer)
service_lt-get_key_example = service_lt-get_key peer next_peer refl refl (omega arith) (omega arith)

set_sock_addr-get_sock_addr_example : then_set 7 (get_sock_addr peer 128) ≡ some (carried 7 peer)
set_sock_addr-get_sock_addr_example =
    set_sock_addr-get_sock_addr 7 peer 128 refl (omega arith) (omega arith)

-- A buffer that is too short.
short_buffer : get_sock_addr peer 15 ≡ none
unfolding get_sock_addr is_ipv4
short_buffer = refl
