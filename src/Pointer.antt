-- ===== src/Pointer.antt =====
-- `RorkHookStoreProtectedPointer` and `RorkHookRestorePointerPageProtections` of
-- Sources/RorkHook/RorkHookMemory.c. The state is the memory and the register of the thread; the
-- result is what is returned and the state that is left.
pub mod Pages
pub mod Store
pub mod Keeps
pub mod Transaction
pub mod Whole
pub mod Answer
use rork_hook.Base.{
  ℕ, zero, suc, ◌+◌, ◌-◌, ◌/◌, ◌%◌, ◌^◌, Bool, true, false, not, ◌||◌, ◌&&◌, Option, none, some,
  List, [], ◌∷◌, ltb, ◌==◌, neb, if◌then◌else◌, bit_and, u64, sub64, not64,
}
use rork_hook.Outcome.{Outcome, ok, access, ◌>>=◌, ◌>>◌}
use rork_hook.Space.{Space, null, has, vm_prot_write}
use rork_hook.Space.Write.{writable, write_bytes}
use rork_hook.Platform.{Platform}
use rork_hook.Region.{memory_is_readable, memory_protection}
use rork_hook.Memory.{Kernel, protect_memory, kern_success}
use rork_hook.Tpro.{
  Device, Window, write_enabled, supports_tpro, allow_tpro_writes, end_thread_tpro_write,
  protected_pointer_write_is_available,
}

pub record Process : Type 0 where
  pub space : Space
  pub register : ℕ

-- A gated byte is written through the window, any other by its protection.
unfoldable pub permitted : Device → Space → (register a n : ℕ) → Bool
permitted d m register a zero = true
permitted d m register a (suc n) =
    (if d.gated a then write_enabled register else writable m a) && permitted d m register (a + 1) n

-- The bytes of a pointer.
unfoldable pub little_endian : (n value : ℕ) → List ℕ
little_endian zero value = []
little_endian (suc n) value = value % 2 ^ 8 ∷ little_endian n (value / 2 ^ 8)

-- The pages of the slot, as the source computes them.
pub record PageRange : Type 0 where
  pub first : ℕ
  pub last : ℕ
  pub first_bytes : ℕ

unfoldable pub pages_of : (page_size slot : ℕ) → Option PageRange
pages_of page_size slot =
    if page_size == 0 || neb (bit_and page_size (page_size - 1)) 0
    then none
    else (let slot_end = u64 (slot + 8 - 1) in
        let page_mask = page_size - 1 in
        let first = bit_and slot (not64 page_mask) in
        let last = bit_and slot_end (not64 page_mask) in
        if ltb slot_end slot
        then none
        else some (record {
          first = first;
          last = last;
          first_bytes = if neb first last then sub64 last slot else 8;
        }))

-- Both pages are attempted.
unfoldable pub restore_pointer_page_protections :
    Kernel
    → Space
    → (first last page_size : ℕ) → (spans : Bool) → (first_protection last_protection : ℕ)
    → Bool × Space
restore_pointer_page_protections k m first last page_size spans first_protection last_protection =
    let (first_result, m1) = protect_memory k m first page_size first_protection in
    let (last_result, m2) =
      if spans then protect_memory k m1 last page_size last_protection else (kern_success, m1) in
    (first_result == kern_success && last_result == kern_success, m2)

-- From the change of the protection on.
unfoldable pub store_transaction :
    Kernel
    → Device
    → Process
    → (slot value protection : ℕ) → PageRange
    → (first_protection last_protection : ℕ) → Outcome (Bool × Process)
store_transaction k d s slot value protection pages first_protection last_protection = do
  let (result, m1) =
      protect_memory k s.space pages.first (u64 (sub64 pages.last pages.first + d.vm_page_size))
        protection
  let (supports, register1) = supports_tpro d s.register
  let window =
      if supports
      then allow_tpro_writes d register1
      else record { opened = false; restore = false; register = register1 }
  let available = protected_pointer_write_is_available result supports window.opened
  m2 ←
      if available
      then (do
        access (permitted d m1 window.register slot 8)
        ok (write_bytes m1 slot (little_endian 8 value)))
      else ok m1
  let register2 =
      if window.restore then end_thread_tpro_write d window.register else window.register
  if neb result kern_success
      then ok (available, record { space = m2; register = register2 })
      else (do
        let (restored, m3) =
            restore_pointer_page_protections k m2 pages.first pages.last d.vm_page_size
              (neb pages.first pages.last) first_protection last_protection
        ok (available && restored, record { space = m3; register = register2 }))

unfoldable pub store_protected_pointer :
    Platform → Kernel → Device → Process → (slot value protection : ℕ) → Outcome (Bool × Process)
store_protected_pointer p k d s slot value protection =
    if slot == null || not (has protection vm_prot_write)
    then ok (false, s)
    else elim (pages_of d.vm_page_size slot) [
      | none ↦ ok (false, s)
      | some pages ↦
          let spans = neb pages.first pages.last in
          if not (memory_is_readable p s.space slot pages.first_bytes)
            || (spans && not (memory_is_readable p s.space pages.last (sub64 8 pages.first_bytes)))
          then ok (false, s)
          else elim (memory_protection p s.space pages.first true) [
            | none ↦ ok (false, s)
            | some first_protection ↦
                elim (if spans
                  then memory_protection p s.space pages.last true
                  else some first_protection) [
                    | none ↦ ok (false, s)
                    | some last_protection ↦
                        store_transaction k d s slot value protection pages first_protection
                          last_protection
                  ]
          ]
    ]
