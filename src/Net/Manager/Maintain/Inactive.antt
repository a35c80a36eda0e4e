-- ===== src/Net/Manager/Maintain/Inactive.antt =====
-- What becomes of the peers that do not answer (src/network/NetworkManager.cpp).
use metachain.Base.{
  leb, if◌then◌else◌, ◌≡◌, refl, Bool, true, false, not, ◌||◌, List, [], ◌∷◌, All, arith,
}
use metachain.Net.Manager.{net_peer_list_send, Peer, send, in_use, Config, Node}
use metachain.Net.Manager.Maintain.{
  ping_pong, ping_all, active, ask, ask_all, is_stale, remove_stale, maintain,
}

-- Has not answered, or is to go.
abbrev IsPinged : Peer → Type 0
IsPinged p = (p.destroy || not p.ping_pong) ≡ true

abbrev IsLeaving : Peer → Type 0
IsLeaving p = p.destroy ≡ true

abbrev pub IsUsed : Peer → Type 0
IsUsed p = in_use p ≡ true

ping_pong-IsPinged : (p : Peer) → IsPinged (ping_pong p)
ping_pong-IsPinged p = ground arith

ping_pong-IsLeaving : (p : Peer) → IsPinged p → IsLeaving (ping_pong p)
ping_pong-IsLeaving p h = ground arith

ping_all-IsPinged : (ps : List Peer) → All IsPinged (ping_all ps)
ping_all-IsPinged [] = tt
ping_all-IsPinged (p ∷ ps) = (ping_pong-IsPinged p, ping_all-IsPinged ps)

ping_all-IsLeaving : (ps : List Peer) → All IsPinged ps → All IsLeaving (ping_all ps)
ping_all-IsLeaving [] h = tt
ping_all-IsLeaving (p ∷ ps) (h, hs) = (ping_pong-IsLeaving p h, ping_all-IsLeaving ps hs)

module _ (Q : Peer → Type 0)
    (told : (p : Peer)
      → Q p
      → Q (if p.valid_connection then send net_peer_list_send [] p else p)) where
  All-ask_all : (ps : List Peer) → All Q ps → All Q (ask_all ps)
  All-ask_all [] h = tt
  All-ask_all (p ∷ ps) (h, hs) = (told p h, All-ask_all ps hs)

All-remaining :
    (Q : Peer → Type 0) (b : Bool) (p : Peer) (ps : List Peer)
    → (b ≡ false → Q p)
    → All Q ps
    → All Q (if b then ps else p ∷ ps)
All-remaining Q true p ps h hs = hs
All-remaining Q false p ps h hs = (h refl, hs)

All-remove_stale : (Q : Peer → Type 0) (ps : List Peer) → All Q ps → All Q (remove_stale ps)
All-remove_stale Q [] h = tt
All-remove_stale Q (p ∷ ps) (h, hs) =
    All-remaining Q (is_stale p) p (remove_stale ps) (λ e. h) (All-remove_stale Q ps hs)

leaving-IsUsed : (p : Peer) → IsLeaving p → is_stale p ≡ false → IsUsed p
leaving-IsUsed p h e = ground arith

remove_stale-IsUsed : (ps : List Peer) → All IsLeaving ps → All IsUsed (remove_stale ps)
remove_stale-IsUsed [] h = tt
remove_stale-IsUsed (p ∷ ps) (h, hs) =
    All-remaining IsUsed (is_stale p) p (remove_stale ps) (leaving-IsUsed p h)
      (remove_stale-IsUsed ps hs)

All-if :
    (Q : Peer → Type 0) (b : Bool) (ps : List Peer)
    → ((p : Peer) → Q p → Q (if p.valid_connection then send net_peer_list_send [] p else p))
    → All Q ps
    → All Q (if b then ask_all ps else ps)
All-if Q true ps told h = All-ask_all Q told ps h
All-if Q false ps told h = h

All-ask :
    (Q : Peer → Type 0) (c : Config) (ps : List Peer)
    → ((p : Peer) → Q p → Q (if p.valid_connection then send net_peer_list_send [] p else p))
    → All Q ps
    → All Q (ask c ps)
All-ask Q c ps told h = All-if Q (leb (active ps) c.hysteresis_outbound_connections) ps told h

told-IsPinged :
    (p : Peer)
    → IsPinged p
    → IsPinged (if p.valid_connection then send net_peer_list_send [] p else p)
told-IsPinged p h = ground arith

told-IsLeaving :
    (p : Peer)
    → IsLeaving p
    → IsLeaving (if p.valid_connection then send net_peer_list_send [] p else p)
told-IsLeaving p h = ground arith

maintain-IsPinged : (c : Config) (n : Node) → All IsPinged (maintain c n).peers_out
unfolding maintain
maintain-IsPinged c n =
    All-remove_stale IsPinged (ask c (ping_all n.peers_out))
      (All-ask IsPinged c (ping_all n.peers_out) told-IsPinged (ping_all-IsPinged n.peers_out))

maintain-IsUsed :
    (c : Config) (n : Node) → All IsPinged n.peers_out → All IsUsed (maintain c n).peers_out
unfolding maintain
maintain-IsUsed c n h =
    remove_stale-IsUsed (ask c (ping_all n.peers_out))
      (All-ask IsLeaving c (ping_all n.peers_out) told-IsLeaving (ping_all-IsLeaving n.peers_out h))

-- After two rounds of Maintainer with nothing received between them, only peers that a process is
-- using are left in the list of outgoing peers, connected or not.
pub maintain_twice-IsUsed :
    (c : Config) (n : Node) → All IsUsed (maintain c (maintain c n)).peers_out
maintain_twice-IsUsed c n = maintain-IsUsed c (maintain c n) (maintain-IsPinged c n)
