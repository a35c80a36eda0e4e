-- ===== src/Net/Service/Key.antt =====
-- The order of `CService` (src/network/CService.cpp) and its key.
use metachain.Base.{
  all_below, all_below_at, ltb, ◌==◌, ==_iff, length, list_eq, ℕ, ◌/◌, ◌%◌, ◌<◌, ◌≡◌, refl, ap, sym,
  ◌∙◌, bit_and, true, false, ◌&&◌, ◌||◌, List, [], ◌∷◌, ◌++◌, arith,
}
use metachain.Net.Address.{bytes_lt, addr_eq, addr_lt}
use metachain.Net.Service.{Service, service_lt, get_key}

low_bytes : all_below (λ n. bit_and n 0xff == n % 256) 65536 ≡ true
unfolding all_below
low_bytes = refl

bit_and-low_byte : (n : ℕ) → n < 65536 → bit_and n 0xff ≡ n % 256
bit_and-low_byte n h =
    (==_iff _ _).0 (all_below_at (λ m. bit_and m 0xff == m % 256) 65536 n h low_bytes)

-- The two bytes of a port, in order.
port_lt :
    (p q : ℕ)
    → ltb p q ≡ (
        ltb (p / 256) (q / 256)
        || (p / 256 == q / 256 && (ltb (p % 256) (q % 256) || (p % 256 == q % 256 && false))))
port_lt p q = ground arith

port_bytes :
    (p q : ℕ)
    → p < 65536
    → q < 65536
    → ltb p q ≡ bytes_lt (p / 256 ∷ bit_and p 0xff ∷ []) (q / 256 ∷ bit_and q 0xff ∷ [])
port_bytes p q hp hq = rw (bit_and-low_byte p hp, bit_and-low_byte q hq) (port_lt p q)

-- Strings of one length compare by their fronts, then by what follows.
bytes_lt-append :
    (as' bs cs ds : List ℕ)
    → length as' ≡ length bs
    → bytes_lt (as' ++ cs) (bs ++ ds) ≡ (bytes_lt as' bs || (list_eq as' bs && bytes_lt cs ds))
bytes_lt-append [] [] cs ds e = refl
bytes_lt-append [] (b ∷ bs) cs ds e = absurd (omega (arith, e))
bytes_lt-append (a ∷ as') [] cs ds e = absurd (omega (arith, e))
bytes_lt-append (a ∷ as') (b ∷ bs) cs ds e =
    ground (arith, bytes_lt-append as' bs cs ds (omega (arith, e)))

-- Services are ordered as their keys are: by the 16 bytes of the address, then by the port.
pub service_lt-get_key :
    (a b : Service)
    → length a.addr.ip ≡ 16
    → length b.addr.ip ≡ 16
    → a.port < 65536
    → b.port < 65536
    → service_lt a b ≡ bytes_lt (get_key a) (get_key b)
unfolding service_lt get_key
service_lt-get_key a b la lb pa pb =
    ap (λ t. addr_lt a.addr b.addr || (addr_eq a.addr b.addr && t)) (port_bytes a.port b.port pa pb)
    ∙ sym (bytes_lt-append a.addr.ip b.addr.ip _ _ (la ∙ sym lb))
