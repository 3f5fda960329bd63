-- ===== src/Memory/Protects.antt =====
-- What the library relies on in `vm_protect`, and the wrappers of RorkHookMemory.c over it.
use rork_hook.Base.{
  ℕ, ◌+◌, ◌≤◌, ◌<◌, ◌≡◌, ◌≢◌, refl, arith, some, ◌||◌, ◌==◌, Bool-cases, inl, inr, bit_and,
}
use rork_hook.Space.{Space, byte_at}
use rork_hook.Space.Write.{writable, IsWritable}
use rork_hook.Memory.{Kernel, kern_success, protect_memory, make_memory_writable}

-- `vm_protect` never changes the contents; on success the range has the protection, without the
-- request for a copy, and on failure the memory is as before.
pub record IsProtecting (k : Kernel) : Type 0 where
  pub contents : (m : Space) (a n q x : ℕ) → (k.vm_protect m a n q).1.byte x ≡ m.byte x
  pub protects :
      (m : Space) (a n q : ℕ)
      → (k.vm_protect m a n q).0 ≡ kern_success
      → (x : ℕ) → a ≤ x
      → x < a + n
      → (k.vm_protect m a n q).1.protection x ≡ some (bit_and q 7)
  pub unchanged :
      (m : Space) (a n q : ℕ)
      → (k.vm_protect m a n q).0 ≢ kern_success
      → (k.vm_protect m a n q).1 ≡ m

module _ (k : Kernel) (law : IsProtecting k) (m : Space) (a n : ℕ) where
  -- The contents stay.
  pub protect_memory-byte_at : (q x : ℕ) → byte_at (protect_memory k m a n q).1 x ≡ byte_at m x
  unfolding protect_memory byte_at
  protect_memory-byte_at q x = elim (Bool-cases (a == 0 || n == 0)) [
    | inl refused ↦ rw refused refl
    | inr called ↦ rw (called, law.contents m a n q x) refl
  ]

  -- A failure changes nothing.
  pub protect_memory-failed :
      (q : ℕ) → (protect_memory k m a n q).0 ≢ kern_success → (protect_memory k m a n q).1 ≡ m
  unfolding protect_memory
  protect_memory-failed q failed = elim (Bool-cases (a == 0 || n == 0)) [
    | inl refused ↦ rw refused refl
    | inr called ↦ rw called (law.unchanged m a n q (rw called at failed))
  ]

  -- Memory that was made writable can be written.
  pub make_memory_writable-IsWritable :
      (make_memory_writable k m a n).0 ≡ kern_success
      → IsWritable (make_memory_writable k m a n).1 a n
  unfolding make_memory_writable protect_memory writable
  make_memory_writable-IsWritable success = elim (Bool-cases (a == 0 || n == 0)) [
    | inl refused ↦ absurd (omega (arith, (rw refused at success)))
    | inr called ↦ rw called (record {
      each = λ x low high.
          rw (law.protects m a n 0x13 (rw called at success) x low high, writable) refl;
    })
  ]
