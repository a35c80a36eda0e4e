-- ===== src/Net/Service/Sockets.antt =====
-- Socket addresses and back (src/network/CService.cpp).
use metachain.Base.{
  Bool-cases, inl, inr, ltb, if◌then◌else◌, length, length-drop, take_all, take, drop, ℕ, ◌≤◌, ◌<◌,
  ◌≡◌, refl, ap, sym, ◌∙◌, true, false, Option, none, some, List, [], ◌∷◌, ◌++◌, arith,
}
use metachain.Net.Address.{is_ipv4, starts, pch_ipv4}
use metachain.Net.Service.{Service, SockAddr, set_sock_addr, get_sock_addr, htons, ntohs}

-- What a service is after a socket address has carried it.
abbrev pub carried : (unset : ℕ) → Service → Service
carried unset s = record s {
  addr = record (s.addr) { scope_id = if is_ipv4 s.addr then unset else s.addr.scope_id };
}

abbrev pub then_set : (unset : ℕ) → Option (SockAddr × ℕ) → Option Service
then_set unset none = none
then_set unset (some (sock, len)) = set_sock_addr unset sock

ntohs-htons : (p : ℕ) → p < 65536 → ntohs (htons p) ≡ p
ntohs-htons p h = omega arith

geb_ltb : (a b : ℕ) → b ≤ a → ltb a b ≡ false
geb_ltb a b h = ground arith

starts-append : (ps ip : List ℕ) → starts ps ip ≡ true → ip ≡ ps ++ drop (length ps) ip
starts-append [] ip h = refl
starts-append (p ∷ ps) [] h = cc
starts-append (p ∷ ps) (b ∷ ip) h = ground (arith, starts-append ps ip)

last_four : (ip : List ℕ) → length ip ≡ 16 → take 4 (take 4 (drop 12 ip)) ≡ drop 12 ip
last_four ip l =
    let four : length (drop 12 ip) ≤ 4 = omega (arith, l, length-drop 12 ip) in
    ap (take 4) (take_all 4 (drop 12 ip) four) ∙ take_all 4 (drop 12 ip) four

abbrev service : (ip : List ℕ) (scope port : ℕ) → Service
service ip scope port = record { addr = record { ip = ip; scope_id = scope }; port = port }

same_service :
    (ip ip' : List ℕ) (scope port port' : ℕ)
    → ip ≡ ip'
    → port ≡ port'
    → service ip scope port ≡ service ip' scope port'
same_service ip ip' scope port port' e f = cc

over_ipv4 :
    (unset : ℕ) (s : Service) (addrlen : ℕ)
    → length s.addr.ip ≡ 16
    → s.port < 65536
    → 28 ≤ addrlen
    → is_ipv4 s.addr ≡ true
    → then_set unset (get_sock_addr s addrlen) ≡ some (carried unset s)
unfolding set_sock_addr get_sock_addr
over_ipv4 unset s addrlen l p h ipv4 =
    rw (ipv4, geb_ltb addrlen 16 (omega (arith, h)))
      (ap some (
        same_service _ _ _ _ _
          (ap (λ t. pch_ipv4 ++ t) (last_four s.addr.ip l)
            ∙ sym (starts-append pch_ipv4 s.addr.ip (unfold is_ipv4 in ipv4)))
          (ntohs-htons s.port p)))

over_ipv6 :
    (unset : ℕ) (s : Service) (addrlen : ℕ)
    → length s.addr.ip ≡ 16
    → s.port < 65536
    → 28 ≤ addrlen
    → is_ipv4 s.addr ≡ false
    → then_set unset (get_sock_addr s addrlen) ≡ some (carried unset s)
unfolding set_sock_addr get_sock_addr
over_ipv6 unset s addrlen l p h ipv6 =
    rw (ipv6, geb_ltb addrlen 28 h)
      (ap some (
        same_service _ _ _ _ _
          (ap (take 16) (take_all 16 s.addr.ip (omega (arith, l)))
            ∙ take_all 16 s.addr.ip (omega (arith, l)))
          (ntohs-htons s.port p)))

-- A buffer of at least 28 bytes receives any service, and the service set from it has its address and
-- its port; it has its scope too, unless the address is an IPv4 one.
pub set_sock_addr-get_sock_addr :
    (unset : ℕ) (s : Service) (addrlen : ℕ)
    → length s.addr.ip ≡ 16
    → s.port < 65536
    → 28 ≤ addrlen
    → then_set unset (get_sock_addr s addrlen) ≡ some (carried unset s)
set_sock_addr-get_sock_addr unset s addrlen l p h = elim (Bool-cases (is_ipv4 s.addr)) [
  | inl ipv4 ↦ over_ipv4 unset s addrlen l p h ipv4
  | inr ipv6 ↦ over_ipv6 unset s addrlen l p h ipv6
]
