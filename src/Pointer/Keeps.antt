-- ===== src/Pointer/Keeps.antt =====
-- What `RorkHookStoreProtectedPointer` leaves readable.
use mathlib.Core.Path.{subst}
use mathlib.Core.Option.{some-injective}
use rork_hook.Base.{
  ℕ, ◌+◌, ◌-◌, ◌^◌, ◌≤◌, ◌<◌, ◌≡◌, refl, sym, ap, arith, Bool, true, false, not, ◌&&◌, ◌||◌, ◌==◌,
  neb, some, List, if◌then◌else◌, by_test, by_option, sub64, not64, bit_and, u64, none-ne-some, ltb,
}
use rork_hook.Outcome.{Outcome}
use rork_hook.Outcome.Ensures.{Leaves, leaves, Leaves-bind, access-Leaves}
use rork_hook.Space.{Space, null, has, vm_prot_write, vm_prot_read, readable}
use rork_hook.Space.Write.{write_bytes}
use rork_hook.Platform.{Platform, IsTruthful}
use rork_hook.Region.{memory_is_readable, memory_protection}
use rork_hook.Region.Granular.{IsGranular, page_start-reads, address-reads}
use rork_hook.Memory.{Kernel, protect_memory, kern_success}
use rork_hook.Tpro.{
  Device, Window, supports_tpro, allow_tpro_writes, protected_pointer_write_is_available,
}
use rork_hook.Pointer.Pages.{pages_of-IsEnclosing}
use rork_hook.Pointer.{
  permitted, Process, PageRange, pages_of, little_endian, restore_pointer_page_protections,
  store_transaction, store_protected_pointer,
}

-- A protection that permits reads takes the permission from no byte.
pub record IsKeeping (k : Kernel) : Type 0 where
  pub keeps :
      (m : Space) (a n q x : ℕ)
      → has q vm_prot_read ≡ true
      → readable m x ≡ true
      → readable (k.vm_protect m a n q).1 x ≡ true

-- What was readable still is.
abbrev pub StillReadable : Space → Space → Type 0
StillReadable m m' = (x : ℕ) → readable m x ≡ true → readable m' x ≡ true

module _ (k : Kernel) (law : IsKeeping k) where
  protect_memory-keeps :
      (m : Space) (a n q : ℕ)
      → has q vm_prot_read ≡ true
      → StillReadable m (protect_memory k m a n q).1
  unfolding protect_memory
  protect_memory-keeps m a n q reads x seen =
      by_test (λ (r : ℕ × Space). readable r.1 x ≡ true) (a == 0 || n == 0) (λ _. seen)
        (λ _. law.keeps m a n q x reads seen)

  restore-keeps :
      (m : Space) (first last page : ℕ) (spans : Bool) (q1 q2 : ℕ)
      → has q1 vm_prot_read ≡ true
      → has q2 vm_prot_read ≡ true
      → StillReadable m (restore_pointer_page_protections k m first last page spans q1 q2).1
  unfolding restore_pointer_page_protections
  restore-keeps m first last page true q1 q2 r1 r2 x seen =
      protect_memory-keeps _ last page q2 r2 x (protect_memory-keeps m first page q1 r1 x seen)
  restore-keeps m first last page false q1 q2 r1 r2 x seen =
      protect_memory-keeps m first page q1 r1 x seen

  write_bytes-keeps : (m : Space) (a : ℕ) (xs : List ℕ) → StillReadable m (write_bytes m a xs)
  unfolding readable write_bytes
  write_bytes-keeps m a xs x seen = seen

  -- The result, where there is one.
  abbrev Left : Space → Bool × Process → Type 0
  Left m r = StillReadable m r.1.space

  store_transaction-keeps :
      (d : Device) (s : Process) (slot value protection : ℕ) (pages : PageRange) (q1 q2 : ℕ)
      → has protection vm_prot_read ≡ true
      → has q1 vm_prot_read ≡ true
      → has q2 vm_prot_read ≡ true
      → Leaves (Left s.space) (store_transaction k d s slot value protection pages q1 q2)
  unfolding store_transaction
  store_transaction-keeps d s slot value protection pages q1 q2 r r1 r2 =
      let size = u64 (sub64 pages.last pages.first + d.vm_page_size) in
      let unlocked = protect_memory-keeps s.space pages.first size protection r in
      let (code, m1) = protect_memory k s.space pages.first size protection in
      let (supports, register) = supports_tpro d s.register in
      let window : Window =
        if supports
        then allow_tpro_writes d register
        else record { opened = false; restore = false; register = register } in
      let available = protected_pointer_write_is_available code supports window.opened in
      Leaves-bind
        (by_test (Leaves (StillReadable s.space)) available
          (λ _. access-Leaves (permitted d m1 window.register slot 8) (
            leaves
              (λ x seen. write_bytes-keeps m1 slot (little_endian 8 value) x (unlocked x seen))))
          (λ _. leaves unlocked))
        (λ m2 kept.
          by_test (Leaves (Left s.space)) (neb code kern_success) (λ _. leaves kept)
            (λ _. leaves (λ x seen.
              restore-keeps m2 pages.first pages.last d.vm_page_size (neb pages.first pages.last) q1
                q2 r1 r2 x (kept x seen))))

of_or : (a b : Bool) → (a || b) ≡ false → (a ≡ false) × (b ≡ false)
of_or a b e = ground arith

pages_of-starts :
    (page_size slot : ℕ) (pages : PageRange)
    → pages_of page_size slot ≡ some pages
    → pages.first ≡ bit_and slot (not64 (page_size - 1))
unfolding pages_of
pages_of-starts page slot pages =
    by_test (λ o. o ≡ some pages → pages.first ≡ bit_and slot (not64 (page - 1)))
      (page == 0 || neb (bit_and page (page - 1)) 0) (λ _ e. absurd (none-ne-some e))
      (λ _.
        by_test (λ o. o ≡ some pages → pages.first ≡ bit_and slot (not64 (page - 1)))
          (ltb (u64 (slot + 8 - 1)) slot) (λ _ e. absurd (none-ne-some e))
          (λ _ e. ap (λ (r : PageRange). r.first) (sym (some-injective _ _ e))))

-- With a truthful kernel whose regions consist of pages, and in which a protection that permits
-- reads keeps what is readable: a store with such a protection leaves every readable byte readable.
pub store_protected_pointer-keeps :
    (p : Platform) (k : Kernel) (d : Device) (s : Process) (slot value protection : ℕ)
    → IsTruthful p
    → IsGranular p d.vm_page_size
    → IsKeeping k
    → d.vm_page_size < 2 ^ 62
    → slot < 2 ^ 64
    → has protection vm_prot_read ≡ true
    → Leaves
        (λ (r : Bool × Process). StillReadable s.space r.1.space)
        (store_protected_pointer p k d s slot value protection)
unfolding store_protected_pointer
store_protected_pointer-keeps p k d s slot value protection truthful granular law small word reads =
    let Kept : Outcome (Bool × Process) → Type 0 =
      Leaves (λ (r : Bool × Process). StillReadable s.space r.1.space) in
    by_test Kept (slot == null || not (has protection vm_prot_write)) (λ _. leaves (λ x seen. seen))
      (λ _.
        by_option Kept (pages_of d.vm_page_size slot) (λ _. leaves (λ x seen. seen))
          (λ pages is_pages.
            let enclosing = pages_of-IsEnclosing d.vm_page_size slot pages small word is_pages in
            let start = pages_of-starts d.vm_page_size slot pages is_pages in
            by_test Kept
              (not (memory_is_readable p s.space slot pages.first_bytes)
                || (neb pages.first pages.last
                    && not (memory_is_readable p s.space pages.last (sub64 8 pages.first_bytes))))
              (λ _. leaves (λ x seen. seen))
              (λ both_readable.
                by_option Kept (memory_protection p s.space pages.first true)
                  (λ _. leaves (λ x seen. seen))
                  (λ q1 is_q1.
                    by_option Kept
                      (if neb pages.first pages.last
                        then memory_protection p s.space pages.last true
                        else some q1)
                      (λ _. leaves (λ x seen. seen))
                      (λ q2 is_q2.
                        let parts = of_or _ _ both_readable in
                        let slot_readable = of_not _ parts.0 in
                        let r1 =
                          page_start-reads p truthful d.vm_page_size granular s.space slot
                            pages.first_bytes q1 slot_readable
                            (subst (λ a. a ≤ slot) start enclosing.starts)
                            (subst (λ a. memory_protection p s.space a true ≡ some q1) start
                              is_q1) in
                        store_transaction-keeps k law d s slot value protection pages q1 q2 reads r1
                          (last_reads (neb pages.first pages.last) pages.last
                            (sub64 8 pages.first_bytes) q1 q2 r1 parts.1 is_q2))))))
  where
    of_not : (b : Bool) → not b ≡ false → b ≡ true
    of_not true e = refl
    of_not false e = sym e

    last_reads :
        (spans : Bool) (last n q1 q2 : ℕ)
        → has q1 vm_prot_read ≡ true
        → (spans && not (memory_is_readable p s.space last n)) ≡ false
        → (if spans then memory_protection p s.space last true else some q1) ≡ some q2
        → has q2 vm_prot_read ≡ true
    last_reads true last n q1 q2 r1 e is = address-reads p s.space last n q2 (of_not _ e) is
    last_reads false last n q1 q2 r1 e is =
        subst (λ q. has q vm_prot_read ≡ true) (some-injective _ _ is) r1
