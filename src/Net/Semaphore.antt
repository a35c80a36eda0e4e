-- ===== src/Net/Semaphore.antt =====
-- `cSemaphore` and `cSemaphoreGrant` of src/cSemaphore.h, and the grant of an incoming connection in
-- src/io/netPeers.cpp.
pub mod Permits
use metachain.Base.{
  ltb, ◌==◌, if◌then◌else◌, get_elem?, ℕ, zero, suc, ◌+◌, ◌-◌, Bool, true, false, Option, none,
  some, List, [], ◌∷◌, ◌++◌,
}

-- `sem` is the semaphore's address, and `none` the null pointer.
pub record Grant : Type 0 where
  pub sem : Option ℕ
  pub have_grant : Bool

-- What threads share: the `value` of the semaphore at each address, and the grants. A `value` that
-- starts at 0 or above stays there, since only a value of 1 or above is taken from.
pub record Shared : Type 0 where
  pub value : ℕ → ℕ
  pub grants : List Grant

-- `waiting` is a thread that the condition variable does not let go on yet; `undefined` is a call
-- through the null pointer or on a grant that is not there.
pub data Ran {ℓ} (A : Type ℓ) : Type ℓ where
  done : A → Ran A
  waiting undefined : Ran A

infixl 5 ◌>>=◌
abbrev pub ◌>>=◌ {ℓ κ} : {A : Type ℓ} {B : Type κ} → Ran A → (A → Ran B) → Ran B
done a >>= next = next a
waiting >>= next = waiting
undefined >>= next = undefined

-- `none` is a call that goes on waiting.
unfoldable pub wait : ℕ → Option ℕ
wait value = if ltb value 1 then none else some (value - 1)

unfoldable pub try_wait : ℕ → Bool × ℕ
try_wait value = if ltb value 1 then (false, value) else (true, value - 1)

unfoldable pub post : ℕ → ℕ
post value = value + 1

unfoldable pub set_value : (ℕ → ℕ) → ℕ → ℕ → ℕ → ℕ
set_value m s v t = if t == s then v else m t

unfoldable pub acquire : (ℕ → ℕ) → Grant → Ran ((ℕ → ℕ) × Grant)
acquire m g = if g.have_grant then done (m, g) else elim g.sem [
  | none ↦ undefined
  | some s ↦ elim (wait (m s)) [
    | none ↦ waiting
    | some v ↦ done (set_value m s v, record g { have_grant = true })
  ]
]

unfoldable pub release : (ℕ → ℕ) → Grant → Ran ((ℕ → ℕ) × Grant)
release m g =
    if g.have_grant
    then elim g.sem [
      | none ↦ undefined
      | some s ↦ done (set_value m s (post (m s)), record g { have_grant = false })
    ]
    else done (m, g)

unfoldable pub try_acquire : (ℕ → ℕ) → Grant → Ran ((ℕ → ℕ) × Grant)
try_acquire m g = if g.have_grant then done (m, g) else elim g.sem [
  | none ↦ undefined
  | some s ↦ let (got, v) = try_wait (m s) in done (set_value m s v, record g { have_grant = got })
]

abbrev pub set_at : ℕ → Grant → List Grant → List Grant
set_at i g [] = []
set_at zero g (h ∷ gs) = g ∷ gs
set_at (suc i) g (h ∷ gs) = h ∷ set_at i g gs

unfoldable pub on_grant : ((ℕ → ℕ) → Grant → Ran ((ℕ → ℕ) × Grant)) → ℕ → Shared → Ran Shared
on_grant op i p = elim (get_elem? p.grants i) [
  | none ↦ undefined
  | some g ↦ op p.value g >>= λ r. done (record { value = r.0; grants = set_at i r.1 p.grants })
]

-- `grant.sem = sem; grant.fHaveGrant = fHaveGrant; fHaveGrant = false;` for the grants at i and j.
unfoldable pub hand_over : ℕ → ℕ → Shared → Ran Shared
hand_over i j p = elim (get_elem? p.grants i) [
  | none ↦ undefined
  | some g ↦
      done (record p { grants = set_at i (record g { have_grant = false }) (set_at j g p.grants) })
]

unfoldable pub move_to : ℕ → ℕ → Shared → Ran Shared
move_to i j p = on_grant release j p >>= hand_over i j

-- The implicit copy assignment of the grant at i to that at j.
unfoldable pub copy_to : ℕ → ℕ → Shared → Ran Shared
copy_to i j p = elim (get_elem? p.grants i) [
  | none ↦ undefined
  | some g ↦ done (record p { grants = set_at j g p.grants })
]

-- The constructor: the new grant stands in front, and is `try_acquire`d or `acquire`d.
unfoldable pub construct : ℕ → Bool → Shared → Ran Shared
construct s try p =
    on_grant (if try then try_acquire else acquire) 0
      (record p { grants = record { sem = some s; have_grant = false } ∷ p.grants })

-- What a thread does in one step; the destructor is `release_grant`. `fHaveGrant` is read and written
-- outside the mutex, so this is for grants that no two threads use at a time: the semaphore is then
-- all that operations of different threads share, and each operation changes it once, under the
-- mutex. `copy_grant` is the copy, member by member, that src/io/netPeers.cpp makes of a grant; it is
-- not released first.
pub data Action : Type 0 where
  acquire_grant release_grant try_acquire_grant : ℕ → Action
  move_grant copy_grant : ℕ → ℕ → Action
  construct_grant : ℕ → Bool → Action

abbrev pub run : Action → Shared → Ran Shared
run (acquire_grant i) p = on_grant acquire i p
run (release_grant i) p = on_grant release i p
run (try_acquire_grant i) p = on_grant try_acquire i p
run (move_grant i j) p = move_to i j p
run (copy_grant i j) p = copy_to i j p
run (construct_grant s try) p = construct s try p

-- The grant of an incoming connection, `semaphoreGrant = cSemaphoreGrant(*semaphore, true);`: a
-- temporary grant is made, copied member by member, and destroyed.
unfoldable pub accept_grant : (ℕ → ℕ) → ℕ → Ran ((ℕ → ℕ) × Grant)
accept_grant m s = try_acquire m (record { sem = some s; have_grant = false }) >>= λ made.
    release made.0 made.1 >>= λ destroyed. done (destroyed.0, made.1)
