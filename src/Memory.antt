-- ===== src/Memory.antt =====
-- The protection calls of Sources/RorkHook/RorkHookMemory.c.
pub mod Protects
use rork_hook.Base.{ℕ, ◌||◌, ◌==◌, if◌then◌else◌, bit_or}
use rork_hook.Space.{Space, vm_prot_read, vm_prot_write, vm_prot_execute, vm_prot_copy}

-- `kern_return_t`.
abbrev pub kern_success : ℕ
kern_success = 0

abbrev pub kern_invalid_address : ℕ
kern_invalid_address = 1

abbrev pub kern_protection_failure : ℕ
kern_protection_failure = 2

abbrev pub kern_invalid_argument : ℕ
kern_invalid_argument = 4

abbrev pub kern_not_supported : ℕ
kern_not_supported = 46

-- What the library calls to change the memory: the result of `vm_protect`, or of its trap, at an
-- address, a size and a protection, and the memory after it; and `getpagesize`, 0 for a negative one.
pub record Kernel : Type 0 where
  pub vm_protect : Space → (address size protection : ℕ) → ℕ × Space
  pub getpagesize : ℕ

unfoldable pub protect_memory : Kernel → Space → (address size protection : ℕ) → ℕ × Space
protect_memory k m address size protection =
    if address == 0 || size == 0
    then (kern_invalid_argument, m)
    else k.vm_protect m address size protection

unfoldable pub make_memory_writable : Kernel → Space → (address size : ℕ) → ℕ × Space
make_memory_writable k m address size =
    protect_memory k m address size (bit_or (bit_or vm_prot_read vm_prot_write) vm_prot_copy)

pub make_memory_executable : Kernel → Space → (address size : ℕ) → ℕ × Space
make_memory_executable k m address size =
    protect_memory k m address size (bit_or vm_prot_read vm_prot_execute)
