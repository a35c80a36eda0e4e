-- ===== src/Net/Manager/Places.antt =====
-- The peers of a node after a change to one of them (src/network/NetworkManager.cpp).
use metachain.Base.{
  ◌==◌, if◌then◌else◌, get_elem?, ℕ, zero, suc, ◌≡◌, refl, ap, ◌∙◌, Bool, true, false, not, ◌&&◌,
  some, List, [], ◌∷◌, arith,
}
use metachain.Net.Manager.{
  Config, increment_newer_version_ticker, Peer, Node, Place, modify, list_of, with_list, peer_at,
  modify_peer,
}

abbrev pub same_place : Place → Place → Bool
same_place a b = (if a.inbound then b.inbound else not b.inbound) && a.index == b.index

module _ {ℓ} {A : Type ℓ} (f : A → A) where
  get_elem?-modify :
      (xs : List A) (i : ℕ) (p : A)
      → get_elem? xs i ≡ some p
      → get_elem? (modify f xs i) i ≡ some (f p)
  get_elem?-modify [] i p h = cc
  get_elem?-modify (x ∷ xs) zero p h = cc
  get_elem?-modify (x ∷ xs) (suc i) p h = get_elem?-modify xs i p h

  get_elem?-modify_other :
      (xs : List A) (i j : ℕ) → (i == j) ≡ false → get_elem? (modify f xs i) j ≡ get_elem? xs j
  get_elem?-modify_other [] i j h = refl
  get_elem?-modify_other (x ∷ xs) zero zero h = cc
  get_elem?-modify_other (x ∷ xs) zero (suc j) h = refl
  get_elem?-modify_other (x ∷ xs) (suc i) zero h = refl
  get_elem?-modify_other (x ∷ xs) (suc i) (suc j) h = get_elem?-modify_other xs i j (ground arith)

list_of-with_list : (b : Bool) (ps : List Peer) (n : Node) → list_of b (with_list b ps n) ≡ ps
list_of-with_list true ps n = refl
list_of-with_list false ps n = refl

pub peer_at-modify_peer :
    (at : Place) (f : Peer → Peer) (n : Node) (p : Peer)
    → peer_at at n ≡ some p
    → peer_at at (modify_peer at f n) ≡ some (f p)
unfolding peer_at modify_peer
peer_at-modify_peer at f n p h =
    ap (λ ps. get_elem? ps at.index) (list_of-with_list at.inbound _ n)
    ∙ get_elem?-modify f (list_of at.inbound n) at.index p h

other_list :
    (b b' : Bool) (i j : ℕ) (f : Peer → Peer) (n : Node)
    → ((if b then b' else not b') && i == j) ≡ false
    → get_elem? (list_of b' (with_list b (modify f (list_of b n) i) n)) j
      ≡ get_elem? (list_of b' n) j
other_list true true i j f n h = get_elem?-modify_other f n.peers_in i j h
other_list false false i j f n h = get_elem?-modify_other f n.peers_out i j h
other_list true false i j f n h = refl
other_list false true i j f n h = refl

pub peer_at-modify_peer_other :
    (at at' : Place) (f : Peer → Peer) (n : Node)
    → same_place at at' ≡ false
    → peer_at at' (modify_peer at f n) ≡ peer_at at' n
unfolding peer_at modify_peer
peer_at-modify_peer_other at at' f n h = other_list at.inbound at'.inbound at.index at'.index f n h

pub list_of-ticker :
    (c : Config) (b : Bool) (m : Node)
    → list_of b (increment_newer_version_ticker c m) ≡ list_of b m
unfolding increment_newer_version_ticker
list_of-ticker c true m = ground arith
list_of-ticker c false m = ground arith
