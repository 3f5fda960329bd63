-- ===== src/Space.antt =====
-- The address space of the process: what a byte holds and how its page is protected. A pointer is
-- its address and NULL is 0. A read takes its permission first, so that a read
-- outside readable memory is a fault.
pub mod Reads
pub mod Write
use Prim.Native.Nat.{bit_and}
use rork_hook.Base.{
  ℕ, zero, suc, ◌+◌, ◌*◌, ◌^◌, Bool, true, false, Option, none, some, ◌&&◌, u8, neb,
}
use rork_hook.Outcome.{Outcome, ok, access, ◌>>=◌, ◌>>◌}

pub record Space : Type 0 where
  pub byte : ℕ → ℕ
  -- The protection of a mapped address.
  pub protection : ℕ → Option ℕ

abbrev pub vm_prot_read : ℕ
vm_prot_read = 1

abbrev pub vm_prot_write : ℕ
vm_prot_write = 2

abbrev pub vm_prot_execute : ℕ
vm_prot_execute = 4

abbrev pub vm_prot_copy : ℕ
vm_prot_copy = 0x10

-- `protection & flag` as a condition.
abbrev pub has : ℕ → ℕ → Bool
has protection flag = neb (bit_and protection flag) 0

abbrev pub null : ℕ
null = 0

unfoldable pub readable : Space → ℕ → Bool
readable m a = elim (m.protection a) [ none ↦ false | some p ↦ has p vm_prot_read ]

unfoldable pub readable_range : Space → ℕ → ℕ → Bool
readable_range m a zero = true
readable_range m a (suc n) = readable m a && readable_range m (a + 1) n

-- The permission to read `n` bytes at `a`.
unfoldable pub can_read : Space → ℕ → ℕ → Outcome (Unit {0})
can_read m a n = access (readable_range m a n)

-- Little-endian unsigned values.
unfoldable pub byte_at : Space → ℕ → ℕ
byte_at m a = u8 (m.byte a)

unfoldable pub u16_at : Space → ℕ → ℕ
unfolding byte_at
u16_at m a = byte_at m a + byte_at m (a + 1) * 2 ^ 8

unfoldable pub u32_at : Space → ℕ → ℕ
unfolding u16_at
u32_at m a = u16_at m a + u16_at m (a + 2) * 2 ^ 16

unfoldable pub u64_at : Space → ℕ → ℕ
unfolding u32_at
u64_at m a = u32_at m a + u32_at m (a + 4) * 2 ^ 32

unfoldable pub read_u32 : Space → ℕ → Outcome ℕ
read_u32 m a = do can_read m a 4; ok (u32_at m a)

unfoldable pub read_u64 : Space → ℕ → Outcome ℕ
read_u64 m a = do can_read m a 8; ok (u64_at m a)
