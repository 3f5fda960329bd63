-- ===== src/Outcome.antt =====
-- What a C function of the library does: it succeeds with a value, it rejects its input (`false`,
-- `NULL` or an error code), or it faults by an access that the memory does not permit.
pub mod Ensures
use rork_hook.Base.{Bool, true, false, Option, none, some}

pub data Outcome {ℓ} (A : Type ℓ) : Type ℓ where
  ok : A → Outcome A
  rejected : Outcome A
  fault : Outcome A

infixl 5 ◌>>=◌ ◌>>◌
abbrev pub ◌>>=◌ {ℓ κ} : {A : Type ℓ} {B : Type κ} → Outcome A → (A → Outcome B) → Outcome B
ok a >>= f = f a
rejected >>= f = rejected
fault >>= f = fault

abbrev pub ◌>>◌ {ℓ} : {B : Type ℓ} → Outcome (Unit {0}) → Outcome B → Outcome B
m >> k = m >>= λ _. k

-- An early `return false` or `return NULL`, unless the condition holds.
abbrev pub require : Bool → Outcome (Unit {0})
require true = ok tt
require false = rejected

-- The access is permitted, or it faults.
abbrev pub access : Bool → Outcome (Unit {0})
access true = ok tt
access false = fault

abbrev pub from_option {ℓ} : {A : Type ℓ} → Option A → Outcome A
from_option none = rejected
from_option (some a) = ok a
