-- ===== src/Pointer/Transaction.antt =====
-- `RorkHookStoreProtectedPointer` from the change of the protection on.
use mathlib.Core.Bool.{false≢true}
use rork_hook.Base.{
  ℕ, ◌+◌, ◌≤◌, ◌<◌, ◌≡◌, refl, sym, ◌∙◌, arith, Bool, true, false, ◌&&◌, ◌==◌, neb, if◌then◌else◌,
  Bool-cases, inl, inr, by_test, ==_iff, ◌≢◌, some, ◌⊎◌,
}
use rork_hook.Outcome.{ok}
use rork_hook.Outcome.Ensures.{Ensures, returns, bind, access-then}
use rork_hook.Space.{Space, has, vm_prot_write, byte_at}
use rork_hook.Space.Write.{write_bytes, byte_at-write_bytes, byte_at-write_bytes_outside}
use rork_hook.Memory.{Kernel, protect_memory, kern_success}
use rork_hook.Memory.Protects.{IsProtecting, protect_memory-byte_at, protect_memory-failed}
use rork_hook.Tpro.{
  Device, Window, write_enabled, supports_tpro, allow_tpro_writes, end_thread_tpro_write,
  protected_pointer_write_is_available,
}
use rork_hook.Tpro.Balance.{IsClosing, IsBalanced, supports_tpro-same, allow_tpro_writes-IsBalanced}
use rork_hook.Pointer.{
  Process, permitted, little_endian, PageRange, pages_of, restore_pointer_page_protections,
  store_transaction,
}
use rork_hook.Pointer.Pages.{IsEnclosing}
use rork_hook.Pointer.Store.{
  IsGuarded, IsReachable, pages_size, IsWritten, IsStored, permitted_of_each, restore-byte_at,
  protects-writable,
}

opened_of_available :
    (code : ℕ) (seen opened : Bool)
    → protected_pointer_write_is_available code seen opened ≡ true
    → seen ≡ true
    → opened ≡ true
unfolding protected_pointer_write_is_available
opened_of_available code true opened e is = e
opened_of_available code false opened e is = absurd (false≢true is)

unavailable :
    (code : ℕ) (seen opened : Bool)
    → protected_pointer_write_is_available code seen opened ≡ true
    → seen ≡ false
    → ¬ ((code == kern_success) ≡ false)
unfolding protected_pointer_write_is_available
unavailable code true opened e unused failed = false≢true (sym unused)
unavailable code false opened e unused failed = false≢true (sym failed ∙ e)

and_false : (a b : Bool) → a ≡ false → (a && b) ≡ false
and_false a b e = rw e refl

module _ (k : Kernel) (d : Device) (protecting : IsProtecting k) (closing : IsClosing d)
    (guarded : IsGuarded d) (s : Process) (slot value protection : ℕ) (pages : PageRange)
    (enclosing : IsEnclosing d.vm_page_size slot pages) (above : d.vm_page_size ≤ slot)
    (wants : has protection vm_prot_write ≡ true)
    (is_pages : pages_of d.vm_page_size slot ≡ some pages)
    (reachable : IsReachable k d s slot protection) where
  abbrev pub size : ℕ
  size = pages_size d pages

  abbrev pub unlocked : ℕ × Space
  unlocked = protect_memory k s.space pages.first size protection

  abbrev pub supports : Bool
  supports = (supports_tpro d s.register).0

  abbrev pub window : Window
  window =
      if supports
      then allow_tpro_writes d (supports_tpro d s.register).1
      else record { opened = false; restore = false; register = (supports_tpro d s.register).1 }

  abbrev pub available : Bool
  available = protected_pointer_write_is_available unlocked.0 supports window.opened

  window-IsBalanced : IsBalanced d closing s.register window
  window-IsBalanced =
      let r1 = (supports_tpro d s.register).1 in
      let same = supports_tpro-same d closing s.register in
      let inner = allow_tpro_writes-IsBalanced d closing r1 in
      by_test (IsBalanced d closing s.register) supports
        (λ _. record {
          kept = λ e. inner.kept e ∙ same;
          was_closed = λ e. sym same ∙ inner.was_closed e;
          closes_again = inner.closes_again;
          open_if = inner.open_if;
        })
        (λ _. record {
          kept = λ _. same;
          was_closed = λ e. absurd (false≢true e);
          closes_again = λ e. absurd (false≢true e);
          open_if = λ e. absurd (false≢true e);
        })

  -- The register in the end.
  abbrev register_left : ℕ
  register_left =
      if window.restore then end_thread_tpro_write d window.register else window.register

  register_left-same : write_enabled register_left ≡ write_enabled s.register
  register_left-same =
      by_test (λ r. write_enabled r ≡ write_enabled s.register) window.restore
        (λ e. window-IsBalanced.closes_again e ∙ sym (window-IsBalanced.was_closed e))
        (λ e. window-IsBalanced.kept e)

  -- An available store is permitted.
  pub available-permitted : available ≡ true → permitted d unlocked.1 window.register slot 8 ≡ true
  available-permitted can = permitted_of_each d unlocked.1 window.register slot 8 λ x low high.
      by_test (λ b. b ≡ true) (d.gated x)
        (λ gated. window-IsBalanced.open_if (
          opened_of_available unlocked.0 supports window.opened can
            (guarded.gates x s.register gated)))
        (λ free.
          let na : 0 < pages.first = omega (arith, enclosing.near) in
          let inside : x < pages.first + size = omega (arith, enclosing.ends) in
          let over : pages.first ≤ x = omega (arith, enclosing.starts) in
          elim (Bool-cases (unlocked.0 == kern_success)) [
            | inl success ↦
                protects-writable k protecting s.space pages.first size protection x wants na over
                  inside ((==_iff _ _).0 success)
            | inr failure ↦
                let failed : unlocked.0 ≢ kern_success =
                  λ e. false≢true (sym failure ∙ (==_iff _ _).1 e) in
                elim (Bool-cases supports) [
                  | inr unused ↦
                      absurd (unavailable unlocked.0 supports window.opened can unused failure)
                  | inl uses ↦ elim (reachable.reaches pages is_pages uses failed x low high) [
                    | inl gated ↦ absurd (false≢true (sym free ∙ gated))
                    | inr already ↦
                        rw
                          (protect_memory-failed k protecting s.space pages.first size protection
                            failed)
                          already
                  ]
                ]
          ])

  -- The contents of the memory after the store, or without it.
  abbrev Stored : Bool → Space → Type 0
  Stored answer m2 =
      IsWritten s.space m2 slot value
      ⊎ ((answer ≡ false) × ((x : ℕ) → byte_at m2 x ≡ byte_at s.space x))

  Stored-same :
      (a b : Bool) (m2 m3 : Space)
      → ((x : ℕ) → byte_at m3 x ≡ byte_at m2 x)
      → (a ≡ false → b ≡ false)
      → Stored a m2
      → Stored b m3
  Stored-same a b m2 m3 same weaker (inl w) = inl (record {
    new = λ i short. same (slot + i) ∙ w.new i short;
    others = λ x out. same x ∙ w.others x out;
  })
  Stored-same a b m2 m3 same weaker (inr (no_answer, kept)) =
      inr (weaker no_answer, λ x. same x ∙ kept x)

  finish-IsStored :
      (m2 : Space) (q1 q2 : ℕ)
      → Stored available m2
      → Ensures (IsStored s slot value) (
          if neb unlocked.0 kern_success
          then ok (available, record { space = m2; register = register_left })
          else (do
            let (restored, m3) =
                restore_pointer_page_protections k m2 pages.first pages.last d.vm_page_size
                  (neb pages.first pages.last)
                  q1
                  q2
            ok (available && restored, record { space = m3; register = register_left })))
  finish-IsStored m2 q1 q2 held =
      by_test (Ensures (IsStored s slot value)) (neb unlocked.0 kern_success)
        (λ _. returns (record { window = register_left-same; stored = held }))
        (λ _. returns (record {
          window = register_left-same;
          stored =
              Stored-same available _ m2 _
                (restore-byte_at k protecting m2 pages.first pages.last d.vm_page_size
                  (neb pages.first pages.last) q1 q2)
                (and_false available _) held;
        }))

  unlocked-byte_at : (x : ℕ) → byte_at unlocked.1 x ≡ byte_at s.space x
  unlocked-byte_at = protect_memory-byte_at k protecting s.space pages.first size protection

  pub store_transaction-IsStored :
      (q1 q2 : ℕ)
      → Ensures (IsStored s slot value) (store_transaction k d s slot value protection pages q1 q2)
  unfolding store_transaction write_bytes byte_at little_endian
  store_transaction-IsStored q1 q2 =
      bind
        (by_test (Ensures (Stored available)) available
          (λ can.
            access-then (permitted d unlocked.1 window.register slot 8) (available-permitted can) (
              returns (
                inl (record {
                  new = byte_at-write_bytes unlocked.1 slot (little_endian 8 value);
                  others = λ x out.
                      byte_at-write_bytes_outside unlocked.1 slot (little_endian 8 value) x out
                      ∙ unlocked-byte_at x;
                }))))
          (λ cannot. returns (inr (cannot, unlocked-byte_at))))
        (λ m2 held. finish-IsStored m2 q1 q2 held)
