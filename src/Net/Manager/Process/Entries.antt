-- ===== src/Net/Manager/Process/Entries.antt =====
-- Entries of peer lists that are received (src/network/NetworkManager.cpp).
use metachain.Base.{
  if_both, list_eq_sym, ◌≡◌, refl, sym, ap, ◌∙◌, subst, Bool, true, false, not, ◌&&◌, ◌||◌, List,
  [], ◌∷◌, ◌++◌, All, All-append, arith,
}
use metachain.Net.Address.{addr_eq, is_local}
use metachain.Net.Service.{Service, service_eq}
use metachain.Net.Manager.{Peer, new_peer, Config, is_known, is_banned}
use metachain.Net.Manager.Process.{add_entry}

abbrev pub addresses : List Peer → List Service
addresses [] = []
addresses (p ∷ ps) = p.address ∷ addresses ps

-- Some element equals `s`.
abbrev pub among : Service → List Service → Bool
among s [] = false
among s (x ∷ xs) = service_eq x s || among s xs

abbrev pub IsDistinct : List Service → Type 0
IsDistinct [] = Unit {0}
IsDistinct (s ∷ ss) = (among s ss ≡ false) × IsDistinct ss

-- Neither local, outside a debugging build, nor this node's own address, nor banned.
unfoldable pub is_wanted : Config → Service → Bool
is_wanted c s = not (
    (not c.debug && is_local s.addr)
    || (addr_eq c.local.addr s.addr || is_banned s.addr c.ban_list))

abbrev pub IsPeerList : Config → List Peer → Type 0
IsPeerList c ps = IsDistinct (addresses ps) × All (λ s. is_wanted c s ≡ true) (addresses ps)

service_eq_sym : (s t : Service) → service_eq s t ≡ service_eq t s
unfolding service_eq
service_eq_sym s t = ground (arith, list_eq_sym s.addr.ip t.addr.ip)

among-append :
    (s t : Service) (xs : List Service) → among s (xs ++ (t ∷ [])) ≡ (among s xs || service_eq t s)
among-append s t [] = ground arith
among-append s t (x ∷ xs) = ground (arith, among-append s t xs)

IsDistinct-append :
    (t : Service) (xs : List Service)
    → IsDistinct xs
    → among t xs ≡ false
    → IsDistinct (xs ++ (t ∷ []))
IsDistinct-append t [] h k = (refl, tt)
IsDistinct-append t (x ∷ xs) (h, hs) k =
    let symmetric = service_eq_sym t x in
    (among-append x t xs ∙ ground arith, IsDistinct-append t xs hs (ground arith))

addresses-append :
    (ps : List Peer) (s : Service) → addresses (ps ++ (new_peer s ∷ [])) ≡ addresses ps ++ (s ∷ [])
addresses-append [] s = refl
addresses-append (p ∷ ps) s = ap (λ ss. p.address ∷ ss) (addresses-append ps s)

is_known-among : (s : Service) (ps : List Peer) → is_known s ps ≡ among s (addresses ps)
is_known-among s [] = refl
is_known-among s (p ∷ ps) = ap (λ b. service_eq p.address s || b) (is_known-among s ps)

module _ (c : Config) where
  IsPeerList-append :
      (s : Service) (ps : List Peer)
      → is_wanted c s ≡ true
      → is_known s ps ≡ false
      → IsPeerList c ps
      → IsPeerList c (ps ++ (new_peer s ∷ []))
  IsPeerList-append s ps wanted unknown (distinct, all) =
      subst (λ ss. IsDistinct ss × All (λ x. is_wanted c x ≡ true) ss) (sym (addresses-append ps s))
        (
          IsDistinct-append s (addresses ps) distinct (sym (is_known-among s ps) ∙ unknown),
          All-append (λ x. is_wanted c x ≡ true) (addresses ps) (s ∷ []) all (wanted, tt),
        )

  pub IsPeerList-add_entry :
      (s : Service) (ps : List Peer) → IsPeerList c ps → IsPeerList c (add_entry c s ps)
  unfolding add_entry is_wanted
  IsPeerList-add_entry s ps h =
      if_both (IsPeerList c) (not c.debug && is_local s.addr) (λ e. h)
        (λ e.
          if_both (IsPeerList c)
            (addr_eq c.local.addr s.addr || is_banned s.addr c.ban_list || is_known s ps) (λ e'. h)
            (λ e'. IsPeerList-append s ps (ground arith) (ground arith) h))
