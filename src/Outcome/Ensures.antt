-- ===== src/Outcome/Ensures.antt =====
-- No fault, and a postcondition on success.
use mathlib.Core.Path.{subst}
use mathlib.Core.Bool.{false≢true}
use rork_hook.Base.{Bool, true, false, ◌≡◌, refl, Option, none, some}
use rork_hook.Outcome.{Outcome, ok, rejected, fault, ◌>>=◌, ◌>>◌, require, access, from_option}

pub data Ensures {ℓ κ} {A : Type ℓ} (P : A → Type κ) : Outcome A → Type (ℓ ⊔ κ) where
  returns : {a : A} → P a → Ensures P (ok a)
  rejects : Ensures P rejected

abbrev Holds {ℓ κ} : {A : Type ℓ} → (A → Type κ) → Outcome A → Type κ
Holds P (ok a) = P a
Holds P rejected = Unit
Holds P fault = Unit

module _ {ℓ κ} {A : Type ℓ} {P : A → Type κ} where
  pub bind {μ ν} :
      {B : Type μ} {Q : B → Type ν} {o : Outcome A} {f : A → Outcome B}
      → Ensures P o
      → ((a : A) → P a → Ensures Q (f a))
      → Ensures Q (o >>= f)
  bind (returns p) next = next _ p
  bind rejects next = rejects

  pub mono {ν} :
      {Q : A → Type ν} {o : Outcome A} → Ensures P o → ((a : A) → P a → Q a) → Ensures Q o
  mono (returns p) weaken = returns (weaken _ p)
  mono rejects weaken = rejects

  -- The postcondition of a result that is known.
  pub result : {a : A} {o : Outcome A} → Ensures P o → o ≡ ok a → P a
  result (returns p) e = subst (Holds P) e p
  result rejects e = cc

-- After an early return the condition holds.
pub require-then {ν μ} :
    {B : Type μ} {Q : B → Type ν} (test : Bool) {o : Outcome B}
    → (test ≡ true → Ensures Q o)
    → Ensures Q (require test >> o)
require-then true next = next refl
require-then false next = rejects

pub access-then {ν μ} :
    {B : Type μ} {Q : B → Type ν} (test : Bool) {o : Outcome B}
    → test ≡ true
    → Ensures Q o
    → Ensures Q (access test >> o)
access-then true h next = next
access-then false h next = absurd (false≢true h)

pub from_option-then {ℓ ν μ} :
    {A : Type ℓ} {B : Type μ} {Q : B → Type ν} (o : Option A) {f : A → Outcome B}
    → ((a : A) → o ≡ some a → Ensures Q (f a))
    → Ensures Q (from_option o >>= f)
from_option-then none next = rejects
from_option-then (some a) next = next a refl

-- The result itself.
pub known {ℓ κ} :
    {A : Type ℓ} {P : A → Type κ} {o : Outcome A} → Ensures P o → Ensures (λ a. P a × (o ≡ ok a)) o
known (returns p) = returns (p, refl)
known rejects = rejects

-- The postcondition of success alone, for a computation that may fault.
pub data Leaves {ℓ κ} {A : Type ℓ} (P : A → Type κ) : Outcome A → Type (ℓ ⊔ κ) where
  leaves : {a : A} → P a → Leaves P (ok a)
  leaves_rejected : Leaves P rejected
  leaves_fault : Leaves P fault

pub Leaves-bind {ℓ κ μ ν} :
    {A : Type ℓ} {B : Type μ} {P : A → Type κ} {Q : B → Type ν} {o : Outcome A} {f : A → Outcome B}
    → Leaves P o
    → ((a : A) → P a → Leaves Q (f a))
    → Leaves Q (o >>= f)
Leaves-bind (leaves p) next = next _ p
Leaves-bind leaves_rejected next = leaves_rejected
Leaves-bind leaves_fault next = leaves_fault

pub access-Leaves {ν μ} :
    {B : Type μ} {Q : B → Type ν} (test : Bool) {o : Outcome B}
    → Leaves Q o
    → Leaves Q (access test >> o)
access-Leaves true next = next
access-Leaves false next = leaves_fault

-- Both postconditions of a computation that does not fault.
pub both {ℓ κ μ} :
    {A : Type ℓ} {P : A → Type κ} {Q : A → Type μ} {o : Outcome A}
    → Ensures P o
    → Leaves Q o
    → Ensures (λ a. P a × Q a) o
both (returns p) (leaves q) = returns (p, q)
both rejects q = rejects
