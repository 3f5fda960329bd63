-- ===== src/Replace.antt =====
-- `RorkHookReplaceFunctionWithSize` and `RorkHookReplaceFunction` of
-- Sources/RorkHook/RorkHookFunction.c, as they are built for arm64. The result is the returned code and
-- the memory that is left. Cache maintenance does not change the contents of the memory.
pub mod Atomic
pub mod Whole
use rork_hook.Base.{
  ℕ, ◌-◌, ◌%◌, Bool, true, false, not, ◌||◌, none, some, List, ltb, ◌==◌, neb, if◌then◌else◌,
}
use rork_hook.Outcome.{Outcome, ok, ◌>>=◌, ◌>>◌}
use rork_hook.Space.{Space, null, has, vm_prot_execute, can_read}
use rork_hook.Space.Write.{can_write, write_bytes, bytes_at, word_bytes}
use rork_hook.Platform.{Platform, strip_pointer}
use rork_hook.Region.{memory_is_readable, memory_protection}
use rork_hook.Jump.{build_absolute_jump, absolute_jump_words}
use rork_hook.Memory.{
  Kernel, protect_memory, make_memory_writable, kern_success, kern_invalid_address,
  kern_protection_failure, kern_invalid_argument, kern_not_supported,
}

abbrev pub patch_size : ℕ
patch_size = 20

-- From the change of the protection on: the patch, or what undoes it.
unfoldable pub install_patch :
    Kernel
    → Space
    → (target original_protection : ℕ) → (instructions : List ℕ) → Outcome (ℕ × Space)
install_patch k m target original_protection instructions = do
  can_read m target patch_size
  let original_instructions = bytes_at m target patch_size
  let (result, m1) = make_memory_writable k m target patch_size
  if neb result kern_success then ok (result, m1) else (do
    can_write m1 target patch_size
    let m2 = write_bytes m1 target (word_bytes instructions)
    let (restored, m3) = protect_memory k m2 target patch_size original_protection
    if neb restored kern_success
        then (do
          can_write m3 target patch_size
          let m4 = write_bytes m3 target original_instructions
          ok (restored, (protect_memory k m4 target patch_size original_protection).1))
        else ok (kern_success, m3))

unfoldable pub replace_function_with_size :
    Platform → Kernel → Space → (function patchable_bytes replacement : ℕ) → Outcome (ℕ × Space)
replace_function_with_size p k m function patchable_bytes replacement =
    if function == null || (replacement == null || ltb patchable_bytes patch_size)
    then ok (kern_invalid_argument, m)
    else (let target = strip_pointer p function in
        let page_size = k.getpagesize in
        if page_size == 0
          || (neb (target % 4) 0
              || (ltb page_size patch_size || ltb (page_size - patch_size) (target % page_size)))
        then ok (kern_invalid_argument, m)
        else if not (memory_is_readable p m target patch_size)
        then ok (kern_invalid_address, m)
        else elim (memory_protection p m target true) [
          | none ↦ ok (kern_protection_failure, m)
          | some original_protection ↦
              if not (has original_protection vm_prot_execute)
              then ok (kern_protection_failure, m)
              else elim (build_absolute_jump p replacement true absolute_jump_words) [
                | none ↦ ok (kern_not_supported, m)
                | some instructions ↦ install_patch k m target original_protection instructions
              ]
        ])

pub replace_function : Platform → Kernel → Space → (function replacement : ℕ) → Outcome (ℕ × Space)
replace_function p k m function replacement =
    replace_function_with_size p k m function patch_size replacement
