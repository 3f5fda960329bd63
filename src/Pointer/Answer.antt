-- ===== src/Pointer/Answer.antt =====
-- When `RorkHookStoreProtectedPointer` answers yes.
use rork_hook.Base.{ℕ, ◌≤◌, ◌<◌, ◌≡◌, ◌^◌, true, false, not, ◌&&◌, neb, some, if◌then◌else◌, sub64}
use rork_hook.Space.{Space, has, vm_prot_write}
use rork_hook.Space.Write.{write_bytes}
use rork_hook.Platform.{Platform}
use rork_hook.Region.{memory_is_readable, memory_protection}
use rork_hook.Memory.{Kernel, protect_memory, kern_success}
use rork_hook.Memory.Protects.{IsProtecting}
use rork_hook.Tpro.{Device, supports_tpro}
use rork_hook.Tpro.Balance.{IsClosing}
use rork_hook.Pointer.{
  Process, PageRange, pages_of, little_endian, restore_pointer_page_protections,
}
use rork_hook.Pointer.Store.{IsGuarded, pages_size}

-- In a process without the write window: the slot can be read, the protections of its pages are known,
-- and the kernel grants the change of them and, whatever has been written, their restoration.
pub record IsGranted (p : Platform) (k : Kernel) (d : Device) (s : Process) (slot protection : ℕ)
    : Type 0 where
  pub writes : has protection vm_prot_write ≡ true
  pub pages : PageRange
  pub is_pages : pages_of d.vm_page_size slot ≡ some pages
  pub first_reads : memory_is_readable p s.space slot pages.first_bytes ≡ true
  pub last_reads :
      (neb pages.first pages.last
        && not (memory_is_readable p s.space pages.last (sub64 8 pages.first_bytes)))
      ≡ false
  pub first_protection : ℕ
  pub last_protection : ℕ
  pub first_known : memory_protection p s.space pages.first true ≡ some first_protection
  pub last_known :
      (if neb pages.first pages.last
        then memory_protection p s.space pages.last true
        else some first_protection)
      ≡ some last_protection
  pub no_window : (supports_tpro d s.register).0 ≡ false
  pub granted :
      (protect_memory k s.space pages.first (pages_size d pages) protection).0 ≡ kern_success
  pub restored :
      (m : Space)
      → (restore_pointer_page_protections k m pages.first pages.last d.vm_page_size
          (neb pages.first pages.last)
          first_protection
          last_protection).0
        ≡ true

module _ (p : Platform) (k : Kernel) (d : Device) (s : Process) (slot value protection : ℕ)
    (protecting : IsProtecting k) (closing : IsClosing d) (guarded : IsGuarded d)
    (small : d.vm_page_size < 2 ^ 62) (word : slot < 2 ^ 64) (above : d.vm_page_size ≤ slot)
    (nonnull : 0 < slot) (i : IsGranted p k d s slot protection) where
  abbrev unlocked : Space
  unlocked = (protect_memory k s.space i.pages.first (pages_size d i.pages) protection).1

  abbrev left : Process
  left = record {
    space =
        (restore_pointer_page_protections k (write_bytes unlocked slot (little_endian 8 value))
          i.pages.first i.pages.last d.vm_page_size (neb i.pages.first i.pages.last)
          i.first_protection i.last_protection).1;
    register = (supports_tpro d s.register).1;
  }
