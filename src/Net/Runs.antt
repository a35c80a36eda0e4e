-- ===== src/Net/Runs.antt =====
-- Messages between nodes, and semaphores, on concrete inputs.
use metachain.Base.{
  ltb, if◌then◌else◌, ◌+◌, some, true, false, take, replicate, ℕ, ◌≡◌, refl, true, List, [], ◌∷◌,
  ◌++◌, arith,
}
use metachain.Script.Code.{write_le, read_le}
use metachain.Net.Message.{
  payload_size, checksum, empty_message, remaining, absorb_header, took, absorb_payload, absorb,
  read_data, make_checksum, make_header, get_package,
}
use metachain.Net.Message.Pieces.{IsPartial}
use metachain.Net.Semaphore.{
  wait, set_value, acquire, release, on_grant, hand_over, move_to, construct, run, accept_grant,
  Grant, Shared, done, move_grant, construct_grant,
}
use metachain.Net.Semaphore.Permits.{
  Balanced, Returns, Reaches, start, after, reaches-Balanced, accept_grant_keeps,
}
use metachain.Net.Peer.{enqueue, receive_loop, receive_msg_bytes, received, refused}
use metachain.Net.Peer.Chunks.{then_receive, or_flag, receive_msg_bytes-append}
use metachain.Net.Peer.Bounds.{IsPeer, OnReceived, receive_msg_bytes-IsPeer}
use metachain.Net.Peer.Delivers.{idle, delivered, receive_msg_bytes-get_package}

-- A stand-in for the hash: 32 bytes of the input, or zeros.
abbrev sample_hash : List ℕ → List ℕ
sample_hash bytes = take 32 (bytes ++ replicate 32 0)

abbrev ping : List ℕ
ping = 7 ∷ 8 ∷ []

-- The header of that payload, with the subject 0x0108.
abbrev ping_package : List ℕ
ping_package = 2 ∷ 0 ∷ 0 ∷ 0 ∷ 0 ∷ 0 ∷ 0 ∷ 0 ∷ 8 ∷ 1 ∷ 7 ∷ 8 ∷ 0 ∷ 0 ∷ 0 ∷ 0 ∷ 7 ∷ 8 ∷ []

package_bytes : get_package sample_hash 0x0108 ping (0 ∷ 0 ∷ []) ≡ ping_package
unfolding get_package make_header make_checksum write_le
package_bytes = refl

-- A wrong checksum is refused.
refuses_corrupt :
    receive_msg_bytes sample_hash
      (idle [])
      (2 ∷ 0 ∷ 0 ∷ 0 ∷ 0 ∷ 0 ∷ 0 ∷ 0 ∷ 8 ∷ 1 ∷ 7 ∷ 9 ∷ 0 ∷ 0 ∷ 0 ∷ 0 ∷ 7 ∷ 8 ∷ [])
    ≡ refused
unfolding receive_msg_bytes receive_loop read_data remaining absorb absorb_header absorb_payload
    took enqueue payload_size checksum read_le
refuses_corrupt = refl

idle-IsPartial : IsPartial empty_message
idle-IsPartial = (refl, unfold remaining in omega arith, (refl, omega arith))

receive_msg_bytes-append_example :
    receive_msg_bytes sample_hash (idle []) ((2 ∷ 0 ∷ 0 ∷ []) ++ (0 ∷ 0 ∷ []))
    ≡ then_receive
        (receive_msg_bytes sample_hash (idle []) (2 ∷ 0 ∷ 0 ∷ []))
        (λ complete p'. or_flag complete (receive_msg_bytes sample_hash p' (0 ∷ 0 ∷ [])))
receive_msg_bytes-append_example =
    receive_msg_bytes-append sample_hash (idle []) (2 ∷ 0 ∷ 0 ∷ []) (0 ∷ 0 ∷ []) idle-IsPartial

receive_msg_bytes-IsPeer_example :
    OnReceived IsPeer (receive_msg_bytes sample_hash (idle []) ping_package)
receive_msg_bytes-IsPeer_example =
    receive_msg_bytes-IsPeer sample_hash (idle []) ping_package (idle-IsPartial, omega arith)

receive_msg_bytes-get_package_example :
    receive_msg_bytes sample_hash (idle []) (get_package sample_hash 0x0108 ping (0 ∷ 0 ∷ []))
    ≡ received true (
        idle (
          []
          ++ (delivered sample_hash 0x0108 ping (0 ∷ 0 ∷ []) (omega arith) refl (omega arith)
              ∷ [])))
receive_msg_bytes-get_package_example =
    receive_msg_bytes-get_package sample_hash 0x0108 ping (0 ∷ 0 ∷ []) (omega arith) refl
      (omega arith) [] (omega arith)

-- One semaphore at the address 1, with one permit.
abbrev one_permit : ℕ → ℕ
one_permit s = 1

abbrev unused : Shared
unused = record { value = one_permit; grants = [] }

unused-Balanced : Balanced one_permit unused
unused-Balanced s = omega arith

abbrev waiter : Grant
waiter = record { sem = some 1; have_grant = false }

abbrev holder : Grant
holder = record { sem = some 1; have_grant = true }

abbrev taken : Shared
taken = record { value = set_value one_permit 1 0; grants = holder ∷ [] }

unused-Reaches : Reaches unused taken
unfolding construct on_grant acquire wait
unused-Reaches = after (construct_grant 1 false) (λ h. h) start refl

-- A grant that has the permit moves it to another one.
moves_grant :
    run (move_grant 0 1) (record { value = one_permit; grants = holder ∷ waiter ∷ [] })
    ≡ done (record { value = one_permit; grants = waiter ∷ holder ∷ [] })
unfolding move_to on_grant release hand_over
moves_grant = refl

reaches-Balanced_example : Balanced one_permit taken
reaches-Balanced_example = reaches-Balanced one_permit unused taken unused-Balanced unused-Reaches

abbrev crowded : Shared
crowded = record { value = set_value one_permit 1 0; grants = waiter ∷ holder ∷ [] }

crowded-Balanced : Balanced one_permit crowded
unfolding set_value
crowded-Balanced s = ground arith

accept_grant_keeps_example :
    Returns
      (λ r.
        ((t : ℕ) → r.0 t ≡ one_permit t)
        × (r.1.have_grant ≡ ltb 0 1)
        × Returns (λ q. q.0 1 ≡ 1 + (if ltb 0 1 then 1 else 0)) (release r.0 r.1))
      (accept_grant one_permit 1)
accept_grant_keeps_example = accept_grant_keeps one_permit 1
