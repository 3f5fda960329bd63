-- ===== src/Pointer/Whole.antt =====
-- `RorkHookStoreProtectedPointer` with its checks.
use rork_hook.Base.{
  ℕ, ◌≤◌, ◌<◌, ◌≡◌, ◌^◌, refl, sym, Bool, true, false, not, ◌&&◌, ◌||◌, ◌==◌, neb, none, some,
  Option, if◌then◌else◌, Option-cases, inl, inr, by_test, sub64,
}
use mathlib.Core.Bool.{false≢true}
use rork_hook.Outcome.{Outcome, ok}
use rork_hook.Outcome.Ensures.{Ensures, returns}
use rork_hook.Space.{null, has, vm_prot_write}
use rork_hook.Platform.{Platform}
use rork_hook.Region.{memory_is_readable, memory_protection}
use rork_hook.Memory.{Kernel}
use rork_hook.Memory.Protects.{IsProtecting}
use rork_hook.Tpro.{Device}
use rork_hook.Tpro.Balance.{IsClosing}
use rork_hook.Pointer.{Process, PageRange, pages_of, store_protected_pointer}
use rork_hook.Pointer.Pages.{pages_of-IsEnclosing}
use rork_hook.Pointer.Store.{IsGuarded, IsReachable, IsStored}
use rork_hook.Pointer.Transaction.{store_transaction-IsStored}

of_or : (a b : Bool) → (a || not b) ≡ false → b ≡ true
of_or a true e = refl
of_or true false e = absurd (false≢true (sym e))
of_or false false e = absurd (false≢true (sym e))

unchanged-IsStored : (s : Process) (slot value : ℕ) → IsStored s slot value (false, s)
unchanged-IsStored s slot value = record { window = refl; stored = inr (refl, λ x. refl) }

-- Either there is a protection and the transaction runs, or nothing happens.
with_protection :
    (s : Process) (slot value : ℕ) (o : Option ℕ) (run : ℕ → Outcome (Bool × Process))
    → ((q : ℕ) → Ensures (IsStored s slot value) (run q))
    → Ensures (IsStored s slot value) (elim o [ none ↦ ok (false, s) | some q ↦ run q ])
with_protection s slot value none run stored = returns (unchanged-IsStored s slot value)
with_protection s slot value (some q) run stored = stored q

with_pages :
    (s : Process) (slot value page : ℕ) (run : PageRange → Outcome (Bool × Process))
    → ((pages : PageRange)
        → pages_of page slot ≡ some pages
        → Ensures (IsStored s slot value) (run pages))
    → Ensures
        (IsStored s slot value)
        (elim (pages_of page slot) [ none ↦ ok (false, s) | some pages ↦ run pages ])
with_pages s slot value page run stored = elim (Option-cases (pages_of page slot)) [
  | inl out ↦ rw out (returns (unchanged-IsStored s slot value))
  | inr (pages, e) ↦ rw e (stored pages e)
]

-- With a kernel that protects as documented, a disable value that closes the window, and gated
-- addresses only in a process that uses the protection: a protected store to a 64-bit slot above
-- the first page, with pages below 2^62, writes nothing without permission; it leaves the window of
-- the thread open or closed as it was; and either the slot holds the value and every other byte is
-- as before, or the answer is negative and no byte has changed. In a process that uses the
-- protection, the bytes of the slot are gated or writable already if the kernel refuses to change
-- their pages.
pub store_protected_pointer-IsStored :
    (p : Platform) (k : Kernel) (d : Device) (s : Process) (slot value protection : ℕ)
    → IsProtecting k
    → IsClosing d
    → IsGuarded d
    → IsReachable k d s slot protection
    → d.vm_page_size < 2 ^ 62
    → slot < 2 ^ 64
    → d.vm_page_size ≤ slot
    → Ensures (IsStored s slot value) (store_protected_pointer p k d s slot value protection)
unfolding store_protected_pointer
store_protected_pointer-IsStored p k d s slot value protection protecting closing guarded reachable
      small word above =
    by_test (Ensures (IsStored s slot value)) (slot == null || not (has protection vm_prot_write))
      (λ _. returns (unchanged-IsStored s slot value))
      (λ asked. with_pages s slot value d.vm_page_size _ λ pages is_pages.
        by_test (Ensures (IsStored s slot value))
          (not (memory_is_readable p s.space slot pages.first_bytes)
            || (neb pages.first pages.last
                && not (memory_is_readable p s.space pages.last (sub64 8 pages.first_bytes))))
          (λ _. returns (unchanged-IsStored s slot value))
          (λ _. with_protection s slot value (memory_protection p s.space pages.first true) _ λ q1.
            with_protection s slot value
              (if neb pages.first pages.last
                then memory_protection p s.space pages.last true
                else some q1)
              _
              λ q2.
                store_transaction-IsStored k d protecting closing guarded s slot value protection
                  pages (pages_of-IsEnclosing d.vm_page_size slot pages small word is_pages) above
                  (writes asked) is_pages reachable q1 q2))
  where
    writes :
        (slot == null || not (has protection vm_prot_write)) ≡ false
        → has protection vm_prot_write ≡ true
    writes e = of_or (slot == null) (has protection vm_prot_write) e
