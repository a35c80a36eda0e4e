-- ===== src/Script/Outcome.antt =====
-- What a function of src/MCP/MCP06 that reports through `scriptError* serror` comes to.
use metachain.Base.{◌≡◌, refl, ap, subst, Bool, true, false, Option, none, some}

-- `scriptError` of src/MCP/MCP06/scriptError.h, less `OK` (the outcome `ok`) and `ERROR_COUNT`.
pub data ScriptError : Type 0 where
  unknown_error eval_false return : ScriptError
  script_size push_size op_count stack_size sig_count pubkey_count : ScriptError
  verify equalverify checkmultisigverify checksigverify numequalverify : ScriptError
  bad_opcode disabled_opcode invalid_stack_operation invalid_altstack_operation : ScriptError
  unbalanced_conditional negative_locktime unsatisfied_locktime : ScriptError
  sig_hashtype sig_der err_minimaldata sig_pushonly sig_high_s sig_nulldummy pubkeytype :
      ScriptError
  err_cleanstack minimalif sig_nullfail err_discourage_upgradable_nops : ScriptError

-- `ok` is `set_success` or going on, `err e` is `set_error(serror, e)`; an exception that `evalScript`
-- catches is `err unknown_error`. `aborted` is a failed assertion or an overflow of an int64_t,
-- `undefined` an access outside an array or through a pointer that was never set, as only
-- `checkSignature` and `checkLockTime` make them, and `stuck` a loop of the model that has run out of
-- fuel: none of the three is a value of the source.
pub data Outcome {ℓ} (A : Type ℓ) : Type ℓ where
  ok : A → Outcome A
  err : ScriptError → Outcome A
  aborted : Outcome A
  undefined : Outcome A
  stuck : Outcome A

abbrev pub ◌>>=◌ {ℓ κ} : {A : Type ℓ} {B : Type κ} → Outcome A → (A → Outcome B) → Outcome B
stuck >>= next = stuck
aborted >>= next = aborted
undefined >>= next = undefined
err e >>= next = err e
ok value >>= next = next value

-- A check in front of what comes next.
abbrev pub ◌>>◌ {ℓ} : {B : Type ℓ} → Outcome (Unit {0}) → Outcome B → Outcome B
check >> next = check >>= λ _. next

infixl 5 ◌>>=◌ ◌>>◌
-- `if (!b) return set_error(serror, e);`
abbrev pub require : Bool → ScriptError → Outcome (Unit {0})
require true e = ok tt
require false e = err e

abbrev pub or_fail {ℓ} : {A : Type ℓ} → Option A → ScriptError → Outcome A
or_fail none e = err e
or_fail (some a) e = ok a

-- Every value returned satisfies `P`, and there is no abort and no lack of fuel: the outcome is one of the
-- source's, or the undefined behaviour of `checkSignature`.
abbrev pub Ensures {ℓ} : {A : Type ℓ} → (A → Type 0) → Outcome A → Type 0
Ensures P (ok a) = P a
Ensures P (err e) = Unit
Ensures P aborted = ⊥
Ensures P undefined = Unit
Ensures P stuck = ⊥

module _ {ℓ κ} {A : Type ℓ} {B : Type κ} where
  pub Ensures-bind :
      (P : A → Type 0) (Q : B → Type 0) (m : Outcome A) (f : A → Outcome B)
      → Ensures P m
      → ((a : A) → P a → Ensures Q (f a))
      → Ensures Q (m >>= f)
  Ensures-bind P Q (ok a) f h k = k a h
  Ensures-bind P Q (err e) f h k = tt
  Ensures-bind P Q aborted f h k = absurd h
  Ensures-bind P Q undefined f h k = tt
  Ensures-bind P Q stuck f h k = absurd h

pub Ensures-mono {ℓ} :
    {A : Type ℓ} (P : A → Type 0) (Q : A → Type 0) (m : Outcome A)
    → Ensures P m
    → ((a : A) → P a → Q a)
    → Ensures Q m
Ensures-mono P Q (ok a) h k = k a h
Ensures-mono P Q (err e) h k = tt
Ensures-mono P Q aborted h k = absurd h
Ensures-mono P Q undefined h k = tt
Ensures-mono P Q stuck h k = absurd h

-- No abort and no lack of fuel, whatever it returns.
abbrev pub Ends {ℓ} : {A : Type ℓ} → Outcome A → Type 0
Ends = Ensures (λ _. Unit)

pub Ensures->> {ℓ} :
    {B : Type ℓ} (Q : B → Type 0) (m : Outcome (Unit {0})) (k : Outcome B)
    → Ends m
    → Ensures Q k
    → Ensures Q (m >> k)
Ensures->> Q m k h hk = Ensures-bind (λ _. Unit) Q m (λ _. k) h (λ _ _. hk)

pub require-Ends : (b : Bool) (e : ScriptError) → Ends (require b e)
require-Ends true e = tt
require-Ends false e = tt

pub Ensures-require :
    (b : Bool) (e : ScriptError) → Ensures (λ (_ : Unit {0}). b ≡ true) (require b e)
Ensures-require true e = refl
Ensures-require false e = tt

pub Ensures-or_fail {ℓ} :
    {A : Type ℓ} (P : A → Type 0) (o : Option A) (e : ScriptError)
    → ((a : A) → o ≡ some a → P a)
    → Ensures P (or_fail o e)
Ensures-or_fail P none e h = tt
Ensures-or_fail P (some a) e h = h a refl

ok_value {ℓ} : {A : Type ℓ} → A → Outcome A → A
ok_value d (ok a) = a
ok_value d _ = d

pub ok-injective {ℓ} : {A : Type ℓ} (a b : A) → ok a ≡ ok b → a ≡ b
unfolding ok_value
ok-injective a b e = ap (ok_value a) e

pub Ensures-ok {ℓ} :
    {A : Type ℓ} (P : A → Type 0) (m : Outcome A) (a : A) → Ensures P m → m ≡ ok a → P a
Ensures-ok P (ok b) a h e = subst P (ok-injective b a e) h
Ensures-ok P (err x) a h e = absurd (cc)
Ensures-ok P aborted a h e = absurd h
Ensures-ok P undefined a h e = absurd (cc)
Ensures-ok P stuck a h e = absurd h

-- Every value returned satisfies `P`.
abbrev pub OnOk {ℓ} : {A : Type ℓ} → (A → Type 0) → Outcome A → Type 0
OnOk P (ok a) = P a
OnOk P (err e) = Unit
OnOk P aborted = Unit
OnOk P undefined = Unit
OnOk P stuck = Unit

pub OnOk-bind {ℓ κ} :
    {A : Type ℓ} {B : Type κ} (P : A → Type 0) (Q : B → Type 0) (m : Outcome A) (f : A → Outcome B)
    → OnOk P m
    → ((a : A) → P a → OnOk Q (f a))
    → OnOk Q (m >>= f)
OnOk-bind P Q (ok a) f h k = k a h
OnOk-bind P Q (err e) f h k = tt
OnOk-bind P Q aborted f h k = tt
OnOk-bind P Q undefined f h k = tt
OnOk-bind P Q stuck f h k = tt

pub OnOk-any {ℓ} : {A : Type ℓ} (m : Outcome A) → OnOk (λ _. Unit) m
OnOk-any (ok a) = tt
OnOk-any (err e) = tt
OnOk-any aborted = tt
OnOk-any undefined = tt
OnOk-any stuck = tt

pub OnOk-mono {ℓ} :
    {A : Type ℓ} (P : A → Type 0) (Q : A → Type 0) (m : Outcome A)
    → OnOk P m
    → ((a : A) → P a → Q a)
    → OnOk Q m
OnOk-mono P Q (ok a) h k = k a h
OnOk-mono P Q (err e) h k = tt
OnOk-mono P Q aborted h k = tt
OnOk-mono P Q undefined h k = tt
OnOk-mono P Q stuck h k = tt

-- As `OnOk-bind`, of a value that does not matter.
pub OnOk-after {ℓ κ} :
    {A : Type ℓ} {B : Type κ} (Q : B → Type 0) (m : Outcome A) (f : A → Outcome B)
    → ((a : A) → OnOk Q (f a))
    → OnOk Q (m >>= f)
OnOk-after Q m f k = OnOk-bind (λ _. Unit) Q m f (OnOk-any m) (λ a _. k a)

pub OnOk-ok {ℓ} : {A : Type ℓ} (P : A → Type 0) (m : Outcome A) (a : A) → OnOk P m → m ≡ ok a → P a
OnOk-ok P (ok b) a h e = subst P (ok-injective b a e) h
OnOk-ok P (err x) a h e = absurd (cc)
OnOk-ok P aborted a h e = absurd (cc)
OnOk-ok P undefined a h e = absurd (cc)
OnOk-ok P stuck a h e = absurd (cc)

pub OnOk-require : (b : Bool) (e : ScriptError) → OnOk (λ (_ : Unit {0}). b ≡ true) (require b e)
OnOk-require true e = refl
OnOk-require false e = tt

pub OnOk-or_fail {ℓ} :
    {A : Type ℓ} (P : A → Type 0) (o : Option A) (e : ScriptError)
    → ((a : A) → o ≡ some a → P a)
    → OnOk P (or_fail o e)
OnOk-or_fail P none e h = tt
OnOk-or_fail P (some a) e h = h a refl
