-- ===== src/Pointer/Store.antt =====
-- The store of `RorkHookStoreProtectedPointer`: its permission, what it leaves, and what it
-- relies on.
use rork_hook.Base.{
  ℕ, zero, suc, ◌+◌, ◌≤◌, ◌<◌, ◌≡◌, ◌≢◌, refl, ◌∙◌, arith, Bool, true, false, ◌||◌, ◌&&◌, ltb, leb,
  ◌==◌, if◌then◌else◌, bit_and, u8, u64, sub64, some, ◌⊎◌,
}
use rork_hook.Base.Bits.{bit_and_mask, bit_and_field}
use rork_hook.Space.{Space, has, vm_prot_write, byte_at}
use rork_hook.Space.Write.{writable, item}
use rork_hook.Memory.{Kernel, protect_memory, kern_success}
use rork_hook.Memory.Protects.{IsProtecting, protect_memory-byte_at}
use rork_hook.Tpro.{Device, write_enabled, supports_tpro}
use rork_hook.Pointer.{
  Process, PageRange, pages_of, permitted, little_endian, restore_pointer_page_protections,
}

-- Only a process that uses the protection has gated addresses.
pub record IsGuarded (d : Device) : Type 0 where
  pub gates : (x r : ℕ) → d.gated x ≡ true → (supports_tpro d r).0 ≡ true

-- The size of the pages of a slot.
abbrev pub pages_size : Device → PageRange → ℕ
pages_size d pages = u64 (sub64 pages.last pages.first + d.vm_page_size)

-- The precondition of one store. Where the process does not use the protection it asks nothing;
-- where it does, and the kernel refuses to change the pages of the slot, each byte of the slot is
-- gated or can be written already.
pub record IsReachable (k : Kernel) (d : Device) (s : Process) (slot protection : ℕ) : Type 0 where
  pub reaches :
      (pages : PageRange)
      → pages_of d.vm_page_size slot ≡ some pages
      → (supports_tpro d s.register).0 ≡ true
      → (protect_memory k s.space pages.first (pages_size d pages) protection).0 ≢ kern_success
      → (x : ℕ) → slot ≤ x
      → x < slot + 8
      → (d.gated x ≡ true) ⊎ (writable s.space x ≡ true)

-- The slot holds the value, and every other byte is as before.
pub record IsWritten (m m' : Space) (slot value : ℕ) : Type 0 where
  pub new : (i : ℕ) → i < 8 → byte_at m' (slot + i) ≡ u8 (item (little_endian 8 value) i)
  pub others : (x : ℕ) → (leb slot x && ltb x (slot + 8)) ≡ false → byte_at m' x ≡ byte_at m x

-- The window is as before, and either the value is stored or the answer is negative and no byte has changed.
pub record IsStored (s : Process) (slot value : ℕ) (result : Bool × Process) : Type 0 where
  pub window : write_enabled result.1.register ≡ write_enabled s.register
  pub stored :
      IsWritten s.space result.1.space slot value
      ⊎ ((result.0 ≡ false) × ((x : ℕ) → byte_at result.1.space x ≡ byte_at s.space x))

has_write_kept : (q : ℕ) → has q vm_prot_write ≡ true → has (bit_and q 7) vm_prot_write ≡ true
has_write_kept q e =
    ground (arith, bit_and_mask 3 q, bit_and_field 1 1 q, bit_and_field 1 1 (bit_and q 7))

pub permitted_of_each :
    (d : Device) (m : Space) (r a n : ℕ)
    → ((x : ℕ) → a ≤ x → x < a + n → (if d.gated x then write_enabled r else writable m x) ≡ true)
    → permitted d m r a n ≡ true
unfolding permitted
permitted_of_each d m r a zero each = refl
permitted_of_each d m r a (suc n) each =
    rw
      (
        each a (omega arith) (omega arith),
        permitted_of_each d m r (a + 1) n (λ x low high. each x (omega arith) (omega arith)),
      )
      refl

module _ (k : Kernel) (law : IsProtecting k) where
  pub restore-byte_at :
      (m : Space) (first last page : ℕ) (spans : Bool) (q1 q2 x : ℕ)
      → byte_at (restore_pointer_page_protections k m first last page spans q1 q2).1 x ≡ byte_at m x
  unfolding restore_pointer_page_protections
  restore-byte_at m first last page true q1 q2 x =
      protect_memory-byte_at k law _ last page q2 x ∙ protect_memory-byte_at k law m first page q1 x
  restore-byte_at m first last page false q1 q2 x = protect_memory-byte_at k law m first page q1 x

  pub protects-writable :
      (m : Space) (a n q x : ℕ)
      → has q vm_prot_write ≡ true
      → 0 < a
      → a ≤ x
      → x < a + n
      → (protect_memory k m a n q).0 ≡ kern_success
      → writable (protect_memory k m a n q).1 x ≡ true
  unfolding protect_memory writable
  protects-writable m a n q x wants nonnull low high success =
      let called : (a == 0 || n == 0) ≡ false = ground arith in
      rw (called, writable, law.protects m a n q (rw called at success) x low high)
        (has_write_kept q wants)
