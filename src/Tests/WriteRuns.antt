-- ===== src/Tests/WriteRuns.antt =====
-- Runs that change memory: the replacement of a function and protected stores.
use rork_hook.Base.{
  none, ℕ, ◌+◌, ◌^◌, ◌≤◌, ◌<◌, ◌≡◌, ◌≢◌, refl, arith, true, some, List, leb, ltb, ◌&&◌, ◌||◌, ◌==◌,
  false, if◌then◌else◌, length, bit_and, by_test,
}
use rork_hook.Outcome.Ensures.{Ensures}
use rork_hook.Space.{Space}
use rork_hook.Platform.{strip_pointer}
use rork_hook.Memory.{Kernel, kern_success, protect_memory}
use rork_hook.Memory.Protects.{IsProtecting}
use rork_hook.Jump.{build_absolute_jump}
use rork_hook.Jump.Run.{jump_to, branches_to, build_absolute_jump-branches_to}
use rork_hook.Replace.{replace_function_with_size}
use rork_hook.Replace.Atomic.{IsAtomic}
use rork_hook.Replace.Whole.{replace_function_with_size-IsAtomic}
use rork_hook.Tpro.{
  Device, supports_tpro, hardware_supports_tpro, process_uses_tpro, allow_tpro_writes,
}
use rork_hook.Tpro.Balance.{IsClosing, IsBalanced, allow_tpro_writes-IsBalanced}
use rork_hook.Pointer.{Process, store_protected_pointer}
use rork_hook.Pointer.Store.{IsGuarded, IsReachable, IsStored, pages_size}
use rork_hook.Pointer.Pages.{pages_of-IsEnclosing}
use rork_hook.Pointer.Whole.{store_protected_pointer-IsStored}
use rork_hook.Tests.Kernel.{one_region, one_region-IsTruthful}
use rork_hook.Tests.Image.{image}

-- A kernel that protects every range below 0x9000 and refuses the others.
abbrev protected : Space → (a n q : ℕ) → Space
protected m a n q = record m {
  protection = λ x. if leb a x && ltb x (a + n) then some (bit_and q 7) else m.protection x;
}

abbrev pub kernel : Kernel
kernel = record {
  vm_protect = λ m a n q. if leb 0x9000 a then (2, m) else (kern_success, protected m a n q);
  getpagesize = 4096;
}

pub kernel-IsProtecting : IsProtecting kernel
kernel-IsProtecting = record {
  contents = λ m a n q x.
      by_test (λ (r : ℕ × Space). r.1.byte x ≡ m.byte x) (leb 0x9000 a) (λ _. refl) (λ _. refl);
  protects = λ m a n q.
      by_test
        (λ (r : ℕ × Space).
          r.0 ≡ kern_success → (x : ℕ) → a ≤ x → x < a + n → r.1.protection x ≡ some (bit_and q 7))
        (leb 0x9000 a) (λ _ e. absurd (omega (arith, e)))
        (λ _ e x low high.
          let inside : (leb a x && ltb x (a + n)) ≡ true = ground arith in rw inside refl);
  unchanged = λ m a n q.
      by_test (λ (r : ℕ × Space). r.0 ≢ kern_success → r.1 ≡ m) (leb 0x9000 a) (λ _ ne. refl)
        (λ _ ne. absurd (ne refl));
}

-- A device whose window is bit 36, and which gates the addresses from 0x9000 on.
abbrev pub device : Device
device = record {
  device_arm64 = true;
  write_enable = 2 ^ 36;
  write_disable = 1;
  write_register = λ register state. state;
  security_config = some true;
  vm_page_size = 4096;
  gated = λ x. leb 0x9000 x;
}

pub device-IsClosing : IsClosing device
device-IsClosing = record { closes = λ register. refl }

pub device-IsGuarded : IsGuarded device
unfolding supports_tpro hardware_supports_tpro process_uses_tpro
device-IsGuarded = record { gates = λ x r gated. refl }

-- The kernel refuses no page below 0x9000.
pub low-IsReachable :
    (s : Process) (slot protection : ℕ)
    → 0x1000 ≤ slot
    → slot < 0x8000
    → IsReachable kernel device s slot protection
unfolding protect_memory
low-IsReachable s slot protection above low = record {
  reaches = λ pages is_pages uses failed x from to.
      let e = pages_of-IsEnclosing 4096 slot pages (omega arith) (omega arith) is_pages in
      absurd (
        failed (
          let called : (pages.first == 0 || pages_size device pages == 0) ≡ false =
            ground (arith, e.near, e.ends, e.starts) in
          let granted : leb 0x9000 pages.first ≡ false = ground (arith, e.starts) in
          rw (called, granted) refl));
}

build_absolute_jump-branches_to_example :
    (words : List ℕ) × (build_absolute_jump (one_region 240 5) 0x7004 true 5 ≡ some words)
    × (length words ≡ 5)
    × (branches_to words (λ r. r) ≡ some (strip_pointer (one_region 240 5) 0x7004))
unfolding strip_pointer
build_absolute_jump-branches_to_example =
    build_absolute_jump-branches_to (one_region 240 5) 0x7004 5 (λ r. r) (λ e. omega (arith, e))
      (omega arith) (omega arith) (omega arith)

replace_function_with_size-IsAtomic_example :
    Ensures
      (IsAtomic image
        (strip_pointer (one_region 240 5) 0x1020)
        (jump_to (strip_pointer (one_region 240 5) 0x7004)))
      (replace_function_with_size (one_region 240 5) kernel image 0x1020 20 0x7004)
replace_function_with_size-IsAtomic_example =
    replace_function_with_size-IsAtomic (one_region 240 5) kernel image 0x1020 20 0x7004
      (one_region-IsTruthful 240 5) kernel-IsProtecting

allow_tpro_writes-IsBalanced_example :
    IsBalanced device device-IsClosing 1 (allow_tpro_writes device 1)
allow_tpro_writes-IsBalanced_example = allow_tpro_writes-IsBalanced device device-IsClosing 1

abbrev process : Process
process = record { space = image; register = 1 }

store_protected_pointer-IsStored_example :
    Ensures
      (IsStored process 0x1080 0x7004)
      (store_protected_pointer (one_region 240 5) kernel device process 0x1080 0x7004 3)
store_protected_pointer-IsStored_example =
    store_protected_pointer-IsStored (one_region 240 5) kernel device process 0x1080 0x7004 3
      kernel-IsProtecting device-IsClosing device-IsGuarded
      (low-IsReachable process 0x1080 3 (omega arith) (omega arith)) (omega arith) (omega arith)
      (omega arith)

-- A device without the write window.
abbrev plain : Device
plain = record {
  device_arm64 = false;
  write_enable = 0;
  write_disable = 0;
  write_register = λ register state. 0;
  security_config = none;
  vm_page_size = 4096;
  gated = λ x. false;
}
