-- ===== src/Net/Service.antt =====
-- `CService` of src/network/CService.cpp: an address with a port.
pub mod Key
pub mod Sockets
use metachain.Base.{
  ltb, leb, ◌==◌, if◌then◌else◌, take, drop, ℕ, ◌+◌, ◌*◌, ◌/◌, ◌%◌, bit_and, Bool, ◌&&◌, ◌||◌,
  Option, none, some, List, [], ◌∷◌, ◌++◌,
}
use metachain.Net.Address.{NetAddr, is_ipv4, init, set_raw_ipv4, set_raw, addr_eq, addr_lt}

pub record Service : Type 0 where
  pub addr : NetAddr
  pub port : ℕ

abbrev pub empty : Service
empty = record { addr = init; port = 0 }

unfoldable pub service_eq : Service → Service → Bool
service_eq a b = addr_eq a.addr b.addr && a.port == b.port

unfoldable pub service_lt : Service → Service → Bool
service_lt a b = addr_lt a.addr b.addr || (addr_eq a.addr b.addr && ltb a.port b.port)

unfoldable pub get_key : Service → List ℕ
get_key s = s.addr.ip ++ (s.port / 0x100 ∷ bit_and s.port 0x0ff ∷ [])

-- A `sockaddr`: its address and its port are bytes in network order.
pub data SockAddr : Type 0 where
  sock_in : (sin_addr sin_port : List ℕ) → SockAddr
  sock_in6 : (sin6_addr : List ℕ) (sin6_scope_id : ℕ) (sin6_port : List ℕ) → SockAddr
  sock_other : (sa_family : ℕ) → SockAddr

abbrev pub htons : ℕ → List ℕ
htons port = port / 256 ∷ port % 256 ∷ []

abbrev pub ntohs : List ℕ → ℕ
ntohs (high ∷ low ∷ rest) = high * 256 + low
ntohs _ = 0

-- `unset` is what `scopeId` holds when no constructor has written it: the one from an IPv4 address
-- does not.
abbrev pub from_in_addr : (unset : ℕ) → List ℕ → NetAddr
from_in_addr unset bytes = set_raw_ipv4 bytes (record { ip = []; scope_id = unset })

abbrev pub from_in6_addr : List ℕ → ℕ → NetAddr
from_in6_addr bytes scope = set_raw bytes (record { ip = []; scope_id = scope })

-- `SetSockAddr`; `none` is its `false`, which leaves the service as it was.
unfoldable pub set_sock_addr : (unset : ℕ) → SockAddr → Option Service
set_sock_addr unset (sock_in bytes port) =
    some (record { addr = from_in_addr unset bytes; port = ntohs port })
set_sock_addr unset (sock_in6 bytes scope port) =
    some (record { addr = from_in6_addr bytes scope; port = ntohs port })
set_sock_addr unset (sock_other family) = none

-- The sizes of the two structs.
abbrev pub sizeof_sockaddr_in : ℕ
sizeof_sockaddr_in = 16

abbrev pub sizeof_sockaddr_in6 : ℕ
sizeof_sockaddr_in6 = 28

-- `GetSockAddr` into a buffer of `addrlen` bytes: what it stores and the length it sets.
unfoldable pub get_sock_addr : Service → (addrlen : ℕ) → Option (SockAddr × ℕ)
unfolding is_ipv4
get_sock_addr s addrlen =
    if is_ipv4 s.addr
    then if ltb addrlen sizeof_sockaddr_in
      then none
      else some (sock_in (take 4 (drop 12 s.addr.ip)) (htons s.port), sizeof_sockaddr_in)
    else if ltb addrlen sizeof_sockaddr_in6
    then none
    else some (sock_in6 (take 16 s.addr.ip) s.addr.scope_id (htons s.port), sizeof_sockaddr_in6)
