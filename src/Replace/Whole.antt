-- ===== src/Replace/Whole.antt =====
-- `RorkHookReplaceFunctionWithSize` with its checks.
use rork_hook.Base.{
  ℕ, ◌-◌, ◌%◌, ◌≡◌, ◌≢◌, refl, arith, true, ◌||◌, ltb, ◌==◌, neb, length, Bool-cases, Option-cases,
  inl, inr,
}
use rork_hook.Outcome.Ensures.{Ensures, returns}
use rork_hook.Space.{Space, null, has, vm_prot_execute}
use rork_hook.Space.Write.{word_bytes}
use rork_hook.Platform.{Platform, IsTruthful, strip_pointer}
use rork_hook.Region.{memory_is_readable, memory_protection}
use rork_hook.Region.Readable.{memory_is_readable-IsReadable}
use rork_hook.Memory.{Kernel}
use rork_hook.Memory.Protects.{IsProtecting}
use rork_hook.Jump.Run.{jump_to, build_absolute_jump-jump_to}
use rork_hook.Replace.{replace_function_with_size}
use rork_hook.Replace.Atomic.{IsAtomic, failed, install_patch-IsAtomic}

jump_to-length : (t : ℕ) → length (word_bytes (jump_to t)) ≡ 20
unfolding word_bytes
jump_to-length t = refl

-- With a kernel that reports regions truthfully and protects as documented, the replacement of a
-- function reads and writes nothing without permission; if it returns success, the five jump
-- instructions to the replacement stand at the function and every other byte is as before; and if
-- it returns an error, every byte is as before, also when the protection could not be restored and
-- the patch was undone.
pub replace_function_with_size-IsAtomic :
    (p : Platform) (k : Kernel) (m : Space) (function patchable_bytes replacement : ℕ)
    → IsTruthful p
    → IsProtecting k
    → Ensures
        (IsAtomic m (strip_pointer p function) (jump_to (strip_pointer p replacement)))
        (replace_function_with_size p k m function patchable_bytes replacement)
unfolding replace_function_with_size
replace_function_with_size-IsAtomic p k m function patchable_bytes replacement truthful law =
    let a = strip_pointer p function in
    let ws = jump_to (strip_pointer p replacement) in
    let size = k.getpagesize in
    let missing = function == null || (replacement == null || ltb patchable_bytes 20) in
    let misplaced = size == 0 || (neb (a % 4) 0 || (ltb size 20 || ltb (size - 20) (a % size))) in
    elim (Bool-cases missing) [
      | inl bad ↦ rw bad (returns (failed m a ws 4 (λ e. omega (arith, e))))
      | inr given ↦ elim (Bool-cases misplaced) [
        | inl bad ↦ rw (given, bad) (returns (failed m a ws 4 (λ e. omega (arith, e))))
        | inr placed ↦ elim (Bool-cases (memory_is_readable p m a 20)) [
          | inr bad ↦ rw (given, placed, bad) (returns (failed m a ws 1 (λ e. omega (arith, e))))
          | inl reads ↦ elim (Option-cases (memory_protection p m a true)) [
            | inl bad ↦
                rw (given, placed, reads, bad) (returns (failed m a ws 2 (λ e. omega (arith, e))))
            | inr (q, found) ↦ elim (Bool-cases (has q vm_prot_execute)) [
              | inr bad ↦
                  rw (given, placed, reads, found, bad)
                    (returns (failed m a ws 2 (λ e. omega (arith, e))))
              | inl code ↦
                  let nonnull : replacement ≢ null = ground arith in
                  rw
                    (
                      given,
                      placed,
                      reads,
                      found,
                      code,
                      build_absolute_jump-jump_to p replacement 5 nonnull (omega arith),
                    )
                    (install_patch-IsAtomic k law m a q ws
                      (memory_is_readable-IsReadable p truthful m a 20 reads).1
                      (jump_to-length (strip_pointer p replacement)))
            ]
          ]
        ]
      ]
    ]
