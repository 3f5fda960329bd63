-- ===== src/Tpro.antt =====
-- The write window of thread-protected read-only memory, of Sources/RorkHook/RorkHookMemory.c. The state
-- of the thread is the value of its system register; a function that changes it returns the new one.
pub mod Balance
use rork_hook.Base.{
  ℕ, ◌/◌, ◌%◌, ◌^◌, Bool, true, false, not, ◌&&◌, Option, none, some, ◌==◌, neb, if◌then◌else◌,
}
use rork_hook.Memory.{kern_success}

-- The device: whether the build is for one (`RORK_HOOK_DEVICE_ARM64`), the two values of the comm
-- page, the register after a write to it, the process configuration where the system tells it, the
-- page size, and the addresses that the hardware gates.
pub record Device : Type 0 where
  pub device_arm64 : Bool
  pub write_enable : ℕ
  pub write_disable : ℕ
  pub write_register : (register state : ℕ) → ℕ
  pub security_config : Option Bool
  pub vm_page_size : ℕ
  pub gated : ℕ → Bool

-- `ubfx x0, x0, #0x24, #1` is not zero.
abbrev pub write_enabled : (register : ℕ) → Bool
write_enabled register = neb (register / 2 ^ 36 % 2) 0

unfoldable pub hardware_supports_tpro : Device → Bool
hardware_supports_tpro d = neb d.write_enable 0 && neb d.write_disable 0

unfoldable pub probe_process_tpro : Device → (register : ℕ) → Bool × ℕ
probe_process_tpro d register =
    if write_enabled register
    then (true, register)
    else (let opened = d.write_register register d.write_enable in
        (write_enabled opened, d.write_register opened d.write_disable))

unfoldable pub process_uses_tpro :
    (hardware_supports configuration_known configuration_enables probe_succeeded : Bool) → Bool
process_uses_tpro hardware_supports configuration_known configuration_enables probe_succeeded =
    if not hardware_supports
    then false
    else if configuration_known
    then configuration_enables
    else probe_succeeded

unfoldable pub supports_tpro : Device → (register : ℕ) → Bool × ℕ
supports_tpro d register =
    let hardware = hardware_supports_tpro d in
    if not d.device_arm64
    then (false, register)
    else if not hardware
    then (false, register)
    else elim d.security_config [
      | some enables ↦ (process_uses_tpro hardware true enables false, register)
      | none ↦ (
        process_uses_tpro hardware false false (probe_process_tpro d register).0,
        (probe_process_tpro d register).1,
      )
    ]

unfoldable pub thread_can_write_tpro : Device → (register : ℕ) → Bool × ℕ
thread_can_write_tpro d register =
    let (supports, register1) = supports_tpro d register in
    if not d.device_arm64
    then (false, register)
    else (supports && write_enabled register1, register1)

unfoldable pub begin_thread_tpro_write : Device → (register : ℕ) → ℕ
begin_thread_tpro_write d register =
    let (supports, register1) = supports_tpro d register in
    if not d.device_arm64
    then register
    else if not supports
    then register1
    else d.write_register register1 d.write_enable

unfoldable pub end_thread_tpro_write : Device → (register : ℕ) → ℕ
end_thread_tpro_write d register =
    let (supports, register1) = supports_tpro d register in
    if not d.device_arm64
    then register
    else if not supports
    then register1
    else d.write_register register1 d.write_disable

-- Whether the window is open, whether `restoreReadOnly` is set, and the register.
pub record Window : Type 0 where
  pub opened : Bool
  pub restore : Bool
  pub register : ℕ

-- The pointer `restoreReadOnly` of the source is given.
unfoldable pub allow_tpro_writes : Device → (register : ℕ) → Window
allow_tpro_writes d register =
    let (supports, register1) = supports_tpro d register in
    let (already, register2) = thread_can_write_tpro d register1 in
    let (opened, register3) = thread_can_write_tpro d (begin_thread_tpro_write d register2) in
    if not supports
    then record { opened = false; restore = false; register = register1 }
    else if already
    then record { opened = true; restore = false; register = register2 }
    else if not opened
    then record { opened = false; restore = false; register = end_thread_tpro_write d register3 }
    else record { opened = true; restore = true; register = register3 }

unfoldable pub protected_pointer_write_is_available :
    (protection_result : ℕ) (supports_tpro tpro_window_opened : Bool) → Bool
protected_pointer_write_is_available protection_result supports_tpro tpro_window_opened =
    if supports_tpro then tpro_window_opened else protection_result == kern_success
