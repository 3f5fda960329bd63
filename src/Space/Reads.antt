-- ===== src/Space/Reads.antt =====
-- When a read is permitted, and the bounds of what it gives.
use rork_hook.Base.{
  ℕ, zero, suc, ◌+◌, ◌≤◌, ◌<◌, ◌^◌, ◌≡◌, refl, true, arith, &&_parts, Bool-cases, inl, inr, ◌==◌,
  ==_iff,
}
use rork_hook.Outcome.{ok}
use rork_hook.Space.{
  Space, readable, readable_range, can_read, read_u32, read_u64, byte_at, u16_at, u32_at, u64_at,
}

-- Every byte of `[a, a + n)` is readable.
pub record IsReadable (m : Space) (a n : ℕ) : Type 0 where
  pub each : (x : ℕ) → a ≤ x → x < a + n → readable m x ≡ true

pub readable_range-IsReadable :
    (m : Space) (a n : ℕ) → IsReadable m a n → readable_range m a n ≡ true
unfolding readable_range
readable_range-IsReadable m a zero h = refl
readable_range-IsReadable m a (suc n) h = ground (
  arith,
  h.each a,
  readable_range-IsReadable m (a + 1) n
      (record { each = λ x p q. h.each x (omega arith) (omega arith) }),
)

pub IsReadable-of_range : (m : Space) (a n : ℕ) → readable_range m a n ≡ true → IsReadable m a n
unfolding readable_range
IsReadable-of_range m a zero h = record { each = λ x p q. absurd (omega arith) }
IsReadable-of_range m a (suc n) h =
    let (first, others) = &&_parts (readable m a) (readable_range m (a + 1) n) h in
    let later = IsReadable-of_range m (a + 1) n others in
    record {
      each = λ x p q. elim (Bool-cases (x == a)) [
        | inl here ↦ rw ((==_iff x a).0 here) first
        | inr there ↦ later.each x (ground arith) (omega arith)
      ];
    }

pub IsReadable-part :
    {m : Space} {base size : ℕ} (a n : ℕ)
    → IsReadable m base size
    → base ≤ a
    → a + n ≤ base + size
    → IsReadable m a n
IsReadable-part a n h p q = record { each = λ x l r. h.each x (omega arith) (omega arith) }

-- A read inside a readable range does not fault.
pub can_read-ok :
    (m : Space) {base size : ℕ} (a n : ℕ)
    → IsReadable m base size
    → base ≤ a
    → a + n ≤ base + size
    → can_read m a n ≡ ok tt
unfolding can_read
can_read-ok m a n h p q = rw (readable_range-IsReadable m a n (IsReadable-part a n h p q))

pub read_u32-ok :
    (m : Space) {base size : ℕ} (a : ℕ)
    → IsReadable m base size
    → base ≤ a
    → a + 4 ≤ base + size
    → read_u32 m a ≡ ok (u32_at m a)
unfolding read_u32
read_u32-ok m a h p q = rw (can_read-ok m a 4 h p q)

pub read_u64-ok :
    (m : Space) {base size : ℕ} (a : ℕ)
    → IsReadable m base size
    → base ≤ a
    → a + 8 ≤ base + size
    → read_u64 m a ≡ ok (u64_at m a)
unfolding read_u64
read_u64-ok m a h p q = rw (can_read-ok m a 8 h p q)

pub byte_at-lt : (m : Space) (a : ℕ) → byte_at m a < 2 ^ 8
unfolding byte_at
byte_at-lt m a = omega arith

pub u16_at-lt : (m : Space) (a : ℕ) → u16_at m a < 2 ^ 16
unfolding u16_at
u16_at-lt m a = omega arith

pub u32_at-lt : (m : Space) (a : ℕ) → u32_at m a < 2 ^ 32
unfolding u32_at
u32_at-lt m a = omega arith

pub u32_at-lt_wide : (m : Space) (a : ℕ) → u32_at m a < 2 ^ 64
u32_at-lt_wide m a = omega (arith, u32_at-lt m a)

pub u64_at-lt : (m : Space) (a : ℕ) → u64_at m a < 2 ^ 64
unfolding u64_at
u64_at-lt m a = omega arith

-- The value is that of the same four bytes.
pub u32_at-same :
    (m m' : Space) (a : ℕ)
    → ((x : ℕ) → a ≤ x → x < a + 4 → byte_at m' x ≡ byte_at m x)
    → u32_at m' a ≡ u32_at m a
unfolding u32_at u16_at
u32_at-same m m' a same =
    rw
      (
        same a (omega arith) (omega arith),
        same (a + 1) (omega arith) (omega arith),
        same (a + 2) (omega arith) (omega arith),
        same (a + 2 + 1) (omega arith) (omega arith),
      )
      refl
