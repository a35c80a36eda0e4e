-- ===== src/Net/Semaphore/Permits.antt =====
-- The permits of a semaphore under every order of steps (src/cSemaphore.h).
use mathlib.Core.Option.{some-injective}
use metachain.Base.{
  ltb, ◌==◌, if◌then◌else◌, Option-cases, get_elem?, ℕ, zero, suc, ◌+◌, ◌≡◌, refl, ap, subst, Bool,
  true, false, Option, none, some, List, [], ◌∷◌, arith, inl, inr, ◌↔◌,
}
use metachain.Net.Semaphore.{
  wait, try_wait, post, set_value, acquire, release, try_acquire, set_at, on_grant, hand_over,
  move_to, construct, run, accept_grant, ◌>>=◌, Grant, Shared, Ran, Action, done, waiting,
  undefined, acquire_grant, release_grant, try_acquire_grant, move_grant, copy_grant,
  construct_grant,
}

-- Whether a grant holds a permit of the semaphore at `s`: 1 or 0.
abbrev pub points : ℕ → Option ℕ → ℕ
points s none = 0
points s (some t) = if s == t then 1 else 0

abbrev pub holds : ℕ → Grant → ℕ
holds s g = if g.have_grant then points s g.sem else 0

abbrev pub held : ℕ → List Grant → ℕ
held s [] = 0
held s (g ∷ gs) = holds s g + held s gs

-- Of each semaphore, the free permits and those that grants hold are as many as there are.
abbrev pub Balanced : (ℕ → ℕ) → Shared → Type 0
Balanced total p = (s : ℕ) → p.value s + held s p.grants ≡ total s

abbrev pub IsCopy : Action → Type 0
IsCopy (copy_grant i j) = Unit
IsCopy _ = ⊥

-- Any sequence of steps that are no copies.
pub data Reaches (p : Shared) : Shared → Type 0 where
  start : Reaches p p
  after : {q r : Shared} (a : Action) → ¬ IsCopy a → Reaches p q → run a q ≡ done r → Reaches p r

-- The call comes back, with a value that satisfies `P`.
abbrev pub Returns {ℓ} : {A : Type ℓ} → (A → Type 0) → Ran A → Type 0
Returns P (done a) = P a
Returns P waiting = ⊥
Returns P undefined = ⊥

abbrev pub OnDone {ℓ κ} : {A : Type ℓ} → (A → Type κ) → Ran A → Type κ
OnDone P (done a) = P a
OnDone P waiting = Unit
OnDone P undefined = Unit

OnDone-run {ℓ κ} : {A : Type ℓ} (P : A → Type κ) (r : Ran A) (a : A) → OnDone P r → r ≡ done a → P a
OnDone-run P r a h e = subst (OnDone P) e h

OnDone-mono {ℓ κ} :
    {A : Type ℓ} (P Q : A → Type κ) (r : Ran A) → OnDone P r → ((a : A) → P a → Q a) → OnDone Q r
OnDone-mono P Q (done a) h f = f a h
OnDone-mono P Q waiting h f = tt
OnDone-mono P Q undefined h f = tt

bind-OnDone {ℓ κ} :
    {A B : Type ℓ} (P : A → Type κ) (Q : B → Type κ) (r : Ran A) (next : A → Ran B)
    → OnDone P r
    → ((a : A) → P a → OnDone Q (next a))
    → OnDone Q (r >>= next)
bind-OnDone P Q (done a) next h q = q a h
bind-OnDone P Q waiting next h q = tt
bind-OnDone P Q undefined next h q = tt

-- An operation on one grant takes the permit from the semaphore, or gives it back there.
abbrev Moves : (ℕ → ℕ) → Grant → (ℕ → ℕ) × Grant → Type 0
Moves m g (m', g') = (s : ℕ) → m' s + holds s g' ≡ m s + holds s g

acquire-Moves : (m : ℕ → ℕ) (g : Grant) → OnDone (Moves m g) (acquire m g)
unfolding acquire wait set_value
acquire-Moves m g = ground arith

try_acquire-Moves : (m : ℕ → ℕ) (g : Grant) → OnDone (Moves m g) (try_acquire m g)
unfolding try_acquire try_wait set_value
try_acquire-Moves m g = ground arith

abbrev Gives : (ℕ → ℕ) → Grant → (ℕ → ℕ) × Grant → Type 0
Gives m g r = Moves m g r × (r.1.have_grant ≡ false)

release-Gives : (m : ℕ → ℕ) (g : Grant) → OnDone (Gives m g) (release m g)
unfolding release post set_value
release-Gives m g = ground arith

held-set_at :
    (s i : ℕ) (g g' : Grant) (gs : List Grant)
    → get_elem? gs i ≡ some g
    → held s (set_at i g' gs) + holds s g ≡ held s gs + holds s g'
held-set_at s i g g' [] h = ground arith
held-set_at s zero g g' (x ∷ gs) h = omega (arith, ap (holds s) (some-injective _ _ h))
held-set_at s (suc i) g g' (x ∷ gs) h = omega (arith, held-set_at s i g g' gs h)

get_elem?-set_at :
    (i : ℕ) (g g' : Grant) (gs : List Grant)
    → get_elem? gs i ≡ some g
    → get_elem? (set_at i g' gs) i ≡ some g'
get_elem?-set_at i g g' [] h = ground arith
get_elem?-set_at zero g g' (x ∷ gs) h = refl
get_elem?-set_at (suc i) g g' (x ∷ gs) h = get_elem?-set_at i g g' gs h

-- A copy of the grant at `i` changes nothing there, wherever it goes.
get_elem?-set_at_copy :
    (i j : ℕ) (g : Grant) (gs : List Grant)
    → get_elem? gs i ≡ some g
    → get_elem? (set_at j g gs) i ≡ some g
get_elem?-set_at_copy i j g [] h = h
get_elem?-set_at_copy zero zero g (x ∷ gs) h = refl
get_elem?-set_at_copy zero (suc j) g (x ∷ gs) h = h
get_elem?-set_at_copy (suc i) zero g (x ∷ gs) h = h
get_elem?-set_at_copy (suc i) (suc j) g (x ∷ gs) h = get_elem?-set_at_copy i j g gs h

module _ (total : ℕ → ℕ) where
  set_at-Balanced :
      (i : ℕ) (g : Grant) (p : Shared) (r : (ℕ → ℕ) × Grant)
      → get_elem? p.grants i ≡ some g
      → Balanced total p
      → Moves p.value g r
      → Balanced total (record { value = r.0; grants = set_at i r.1 p.grants })
  set_at-Balanced i g p r e h moved s =
      omega (arith, held-set_at s i g r.1 p.grants e, h s, moved s)

  on_grant-Balanced :
      (op : (ℕ → ℕ) → Grant → Ran ((ℕ → ℕ) × Grant)) (i : ℕ) (p : Shared)
      → ((m : ℕ → ℕ) (g : Grant) → OnDone (Moves m g) (op m g))
      → Balanced total p
      → OnDone (Balanced total) (on_grant op i p)
  unfolding on_grant
  on_grant-Balanced op i p law h = elim (Option-cases (get_elem? p.grants i)) [
    | inl e ↦ rw (e, on_grant) tt
    | inr (g, e) ↦
        rw (e, on_grant)
          (bind-OnDone _ _ (op p.value g) _ (law p.value g)
            (λ r moved. set_at-Balanced i g p r e h moved))
  ]

  -- The grant at `j` has been released.
  abbrev Released : ℕ → Shared → Type 0
  Released j q =
      Balanced total q × ((g : Grant) × (get_elem? q.grants j ≡ some g) × (g.have_grant ≡ false))

  release-Released :
      (j : ℕ) (p : Shared) → Balanced total p → OnDone (Released j) (on_grant release j p)
  unfolding on_grant
  release-Released j p h = elim (Option-cases (get_elem? p.grants j)) [
    | inl e ↦ rw (e, on_grant) tt
    | inr (g, e) ↦
        rw (e, on_grant)
          (bind-OnDone _ _ (release p.value g) _ (release-Gives p.value g) (λ r gave. (
            set_at-Balanced j g p r e h gave.0,
            (r.1, get_elem?-set_at j g r.1 p.grants e, gave.1),
          )))
  ]

  hand_over-Balanced :
      (i j : ℕ) (p : Shared) → Released j p → OnDone (Balanced total) (hand_over i j p)
  unfolding hand_over
  hand_over-Balanced i j p (h, (old, e, gave)) = elim (Option-cases (get_elem? p.grants i)) [
    | inl none_there ↦ rw (none_there, hand_over) tt
    | inr (g, there) ↦
        rw (there, hand_over)
          (λ s. omega (
            arith,
            h s,
            held-set_at s j old g p.grants e,
            ap (λ b. if b then points s old.sem else 0) gave,
            held-set_at s i g (record g { have_grant = false }) (set_at j g p.grants)
                (get_elem?-set_at_copy i j g p.grants there),
          ))
  ]

  move_to-Balanced :
      (i j : ℕ) (p : Shared) → Balanced total p → OnDone (Balanced total) (move_to i j p)
  unfolding move_to
  move_to-Balanced i j p h =
      bind-OnDone _ _ (on_grant release j p) (hand_over i j) (release-Released j p h)
        (hand_over-Balanced i j)

  abbrev with_new : ℕ → Shared → Shared
  with_new s p = record p { grants = record { sem = some s; have_grant = false } ∷ p.grants }

  construct-Balanced :
      (s : ℕ) (try : Bool) (p : Shared)
      → Balanced total p
      → OnDone (Balanced total) (construct s try p)
  unfolding construct
  construct-Balanced s true p h =
      on_grant-Balanced try_acquire 0 (with_new s p) try_acquire-Moves (λ t. omega (arith, h t))
  construct-Balanced s false p h =
      on_grant-Balanced acquire 0 (with_new s p) acquire-Moves (λ t. omega (arith, h t))

  run-Balanced :
      (a : Action) (p : Shared) → ¬ IsCopy a → Balanced total p → OnDone (Balanced total) (run a p)
  run-Balanced (copy_grant i j) p own h = absurd (own tt)
  run-Balanced (acquire_grant i) p own h = on_grant-Balanced acquire i p acquire-Moves h
  run-Balanced (release_grant i) p own h =
      on_grant-Balanced release i p
        (λ m g. OnDone-mono _ _ (release m g) (release-Gives m g) (λ r gave. gave.0)) h
  run-Balanced (try_acquire_grant i) p own h = on_grant-Balanced try_acquire i p try_acquire-Moves h
  run-Balanced (move_grant i j) p own h = move_to-Balanced i j p h
  run-Balanced (construct_grant s try) p own h = construct-Balanced s try p h

  -- Over any sequence of operations on grants, each one a step, that are no copies, of each semaphore the
  -- free permits and those that grants hold stay as many as there were, if they were at the start.
  pub reaches-Balanced : (p q : Shared) → Balanced total p → Reaches p q → Balanced total q
  reaches-Balanced p q h start = h
  reaches-Balanced p q h (after a own before step) =
      OnDone-run _ _ _ (run-Balanced a _ own (reaches-Balanced p _ h before)) step

  -- Where free and held permits are as many as there are, `Acquire` of a grant that has none is kept
  -- waiting exactly if grants hold all the permits of its semaphore.
  pub acquire_waits_iff :
      (p : Shared) (i s : ℕ)
      → Balanced total p
      → get_elem? p.grants i ≡ some (record { sem = some s; have_grant = false })
      → (run (acquire_grant i) p ≡ waiting) ↔ (held s p.grants ≡ total s)
  unfolding on_grant acquire wait
  acquire_waits_iff p i s h e = rw (e, on_grant, acquire) (ground (arith, h s))

-- The grant of an incoming connection says that it has a permit exactly if there was one, yet every
-- semaphore has the `value` it had before: a connection that is accepted takes no permit. When that grant
-- is released, its semaphore has one permit more than before.
pub accept_grant_keeps :
    (m : ℕ → ℕ) (s : ℕ)
    → Returns
        (λ r.
          ((t : ℕ) → r.0 t ≡ m t)
          × (r.1.have_grant ≡ ltb 0 (m s))
          × Returns (λ q. q.0 s ≡ m s + (if ltb 0 (m s) then 1 else 0)) (release r.0 r.1))
        (accept_grant m s)
unfolding accept_grant try_acquire try_wait release post set_value
accept_grant_keeps m s = ground arith
