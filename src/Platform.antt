-- ===== src/Platform.antt =====
-- What the library calls and does not implement: the kernel's region query and the pointer
-- authentication of the target. Both are parameters of the model.
use rork_hook.Base.{ℕ, ◌+◌, ◌^◌, ◌≤◌, ◌<◌, ◌≡◌, Bool, Option, some, if◌then◌else◌}
use rork_hook.Space.{Space}

pub record Region : Type 0 where
  pub start : ℕ
  pub size : ℕ
  pub protection : ℕ

pub record Platform : Type 0 where
  -- `vm_region_64` at an address: the region that holds it or the next one, if the call succeeds.
  pub vm_region : Space → ℕ → Option Region
  -- `__has_feature(ptrauth_calls)`, `ptrauth_strip` and `ptrauth_sign_unauthenticated` with the
  -- function-pointer key; the second argument of `sign` is the discriminator.
  pub ptrauth_calls : Bool
  pub strip : ℕ → ℕ
  pub sign : ℕ → ℕ → ℕ

-- A pointer without its authentication, on either kind of target.
unfoldable pub strip_pointer : Platform → ℕ → ℕ
strip_pointer p pointer = if p.ptrauth_calls then p.strip pointer else pointer

-- `vm_region_64` reports a region of machine words whose bytes all have the reported protection.
pub record IsTruthful (p : Platform) : Type 0 where
  pub words :
      {m : Space} {a : ℕ} {r : Region}
      → p.vm_region m a ≡ some r
      → (r.start < 2 ^ 64) × (r.size < 2 ^ 64)
  pub uniform :
      {m : Space} {a : ℕ} {r : Region}
      → p.vm_region m a ≡ some r
      → (x : ℕ) → r.start ≤ x
      → x < r.start + r.size
      → m.protection x ≡ some r.protection
