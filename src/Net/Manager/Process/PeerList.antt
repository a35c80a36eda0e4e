-- ===== src/Net/Manager/Process/PeerList.antt =====
-- The list of outgoing peers while messages are handled (src/network/NetworkManager.cpp).
use metachain.Base.{
  if_both, length, ℕ, zero, suc, ◌≡◌, refl, subst, Bool, not, ◌||◌, Option, none, some, List, [],
  ◌∷◌,
}
use metachain.Net.Message.{NetMessage}
use metachain.Net.Manager.{
  Peer, mark_destroy, mark, unmark, has_message, Config, Node, Place, list_of, peer_at, modify_peer,
}
use metachain.Net.Manager.Process.{
  Handled, handled, failed, overread, set_queue, after_message, after_peer, process_at,
  handle_queue, visit, visit_from, handle_message,
}
use metachain.Net.Manager.Process.Entries.{IsPeerList}
use metachain.Net.Manager.Process.Kept.{
  IsGood, IsGoodResult, IsGoodEnd, IsGood-modify_peer, IsGoodResult-process_at,
}

module _ (c : Config) where
  IsGoodEnd-after_message :
      (at : Place) (next : Node → Option Node) (r : Handled)
      → ((n : Node) → IsGood c n → IsGoodEnd c (next n))
      → IsGoodResult c r
      → IsGoodEnd c (after_message at next r)
  IsGoodEnd-after_message at next (handled n) k h = k n h
  IsGoodEnd-after_message at next (failed n) k h =
      IsGood-modify_peer c at mark_destroy n (λ p. refl) h
  IsGoodEnd-after_message at next overread k h = tt

  IsGoodEnd-handle_queue :
      (queue : List NetMessage) (at : Place) (n : Node)
      → IsGood c n
      → IsGoodEnd c (handle_queue c queue at n)
  unfolding handle_queue
  IsGoodEnd-handle_queue [] at n h = h
  IsGoodEnd-handle_queue (msg ∷ rest) at n h =
      let popped = modify_peer at (set_queue rest) n in
      IsGoodEnd-after_message at (handle_queue c rest at)
        (process_at c msg at (peer_at at popped) popped)
        (λ n' h'. IsGoodEnd-handle_queue rest at n' h')
        (IsGoodResult-process_at c msg at (peer_at at popped) popped
          (IsGood-modify_peer c at (set_queue rest) n (λ p. refl) h))

  IsGoodEnd-after_peer :
      (at : Place) (next : Node → Option Node) (o : Option Node)
      → ((n : Node) → IsGood c n → IsGoodEnd c (next n))
      → IsGoodEnd c o
      → IsGoodEnd c (after_peer at next o)
  IsGoodEnd-after_peer at next none k h = tt
  IsGoodEnd-after_peer at next (some n) k h =
      let h' = IsGood-modify_peer c at unmark n (λ p. refl) h in
      if_both (IsGoodEnd c) (modify_peer at unmark n).interrupted (λ e. h')
        (λ e. k (modify_peer at unmark n) h')

  IsGoodEnd-visit :
      (at : Place) (next : Node → Option Node) (o : Option Peer) (n : Node)
      → ((n' : Node) → IsGood c n' → IsGoodEnd c (next n'))
      → IsGood c n
      → IsGoodEnd c (visit c at next o n)
  IsGoodEnd-visit at next none n k h = h
  IsGoodEnd-visit at next (some p) n k h =
      let marked = IsGood-modify_peer c at mark n (λ q. refl) h in
      if_both (IsGoodEnd c) (p.destroy || not (has_message p))
        (λ e. k _ (IsGood-modify_peer c at unmark _ (λ q. refl) marked))
        (λ e.
          IsGoodEnd-after_peer at next _ k
            (IsGoodEnd-handle_queue p.recv.queue at (modify_peer at mark n) marked))

  IsGoodEnd-visit_from :
      (left index : ℕ) (inbound : Bool) (n : Node)
      → IsGood c n
      → IsGoodEnd c (visit_from c left index inbound n)
  unfolding visit_from
  IsGoodEnd-visit_from zero index inbound n h = h
  IsGoodEnd-visit_from (suc left) index inbound n h =
      let at : Place = record { inbound = inbound; index = index } in
      IsGoodEnd-visit at (visit_from c left (suc index) inbound) (peer_at at n) n
        (λ n' h'. IsGoodEnd-visit_from left (suc index) inbound n' h') h

-- Handling messages keeps the list of outgoing peers free of duplicates, of banned addresses, of this
-- node's own address and, outside a debugging build, of local addresses.
pub handle_message-IsPeerList :
    (c : Config) (inbound : Bool) (n n' : Node)
    → IsPeerList c n.peers_out
    → handle_message c inbound n ≡ some n'
    → IsPeerList c n'.peers_out
unfolding handle_message
handle_message-IsPeerList c inbound n n' h e =
    subst (IsGoodEnd c) e (IsGoodEnd-visit_from c (length (list_of inbound n)) 0 inbound n h)
