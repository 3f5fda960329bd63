-- ===== src/Tpro/Balance.antt =====
-- The opening and closing of the write window of RorkHookMemory.c.
use mathlib.Core.Bool.{false≢true}
use rork_hook.Base.{
  ℕ, ◌≡◌, refl, sym, ap, ◌∙◌, Bool, true, false, not, ◌&&◌, Option, none, some, if◌then◌else◌,
  Bool-cases, inl, inr, by_test, &&_parts,
}
use rork_hook.Tpro.{
  Device, Window, write_enabled, hardware_supports_tpro, probe_process_tpro, process_uses_tpro,
  supports_tpro, thread_can_write_tpro, begin_thread_tpro_write, end_thread_tpro_write,
  allow_tpro_writes,
}

-- The disable value closes the window.
pub record IsClosing (d : Device) : Type 0 where
  pub closes : (register : ℕ) → write_enabled (d.write_register register d.write_disable) ≡ false

-- The decision of `supports_tpro`, from its inputs.
abbrev decided :
    (device hardware : Bool) → Option Bool → (probe : Bool × ℕ) (register : ℕ) → Bool × ℕ
decided device hardware config probe register =
    if not device
    then (false, register)
    else if not hardware
    then (false, register)
    else elim config [
      | some enables ↦ (process_uses_tpro hardware true enables false, register)
      | none ↦ (process_uses_tpro hardware false false probe.0, probe.1)
    ]

-- A process that uses the protection is seen to use it while the window is open.
decided-open :
    (device hardware : Bool) (config : Option Bool) (probe probe' : Bool × ℕ) (r r' : ℕ)
    → (decided device hardware config probe r).0 ≡ true
    → probe'.0 ≡ true
    → (decided device hardware config probe' r').0 ≡ true
unfolding process_uses_tpro
decided-open true true (some b) probe probe' r r' e q = e
decided-open true true none probe probe' r r' e q = q
decided-open true false config probe probe' r r' e q = absurd (false≢true e)
decided-open false hardware config probe probe' r r' e q = absurd (false≢true e)

decided-register :
    (device hardware : Bool) (config : Option Bool) (probe : Bool × ℕ) (r : ℕ) (P : ℕ → Type 0)
    → P probe.1
    → P r
    → P (decided device hardware config probe r).1
decided-register true true (some b) probe r P p q = q
decided-register true true none probe r P p q = p
decided-register true false config probe r P p q = q
decided-register false hardware config probe r P p q = q

of_not : (b : Bool) → not b ≡ false → b ≡ true
of_not true e = refl
of_not false e = absurd (false≢true (sym e))

module _ (d : Device) (law : IsClosing d) where
  -- The probe leaves the window as it was.
  probe_process_tpro-same : (r : ℕ) → write_enabled (probe_process_tpro d r).1 ≡ write_enabled r
  unfolding probe_process_tpro
  probe_process_tpro-same r =
      by_test (λ (s : Bool × ℕ). write_enabled s.1 ≡ write_enabled r) (write_enabled r) (λ _. refl)
        (λ closed. law.closes _ ∙ sym closed)

  probe_process_tpro-open : (r : ℕ) → write_enabled r ≡ true → probe_process_tpro d r ≡ (true, r)
  unfolding probe_process_tpro
  probe_process_tpro-open r is_open =
      by_test (λ s. s ≡ (true, r)) (write_enabled r) (λ _. refl)
        (λ closed. absurd (false≢true (sym closed ∙ is_open)))

  pub supports_tpro-same : (r : ℕ) → write_enabled (supports_tpro d r).1 ≡ write_enabled r
  unfolding supports_tpro
  supports_tpro-same r =
      decided-register d.device_arm64 (hardware_supports_tpro d) d.security_config
        (probe_process_tpro d r) r (λ s. write_enabled s ≡ write_enabled r)
        (probe_process_tpro-same r) refl

  -- With an open window the support is seen, and the register stays.
  supports_tpro-open :
      (r r' : ℕ)
      → (supports_tpro d r).0 ≡ true
      → write_enabled r' ≡ true
      → (supports_tpro d r').0 ≡ true
  unfolding supports_tpro
  supports_tpro-open r r' supports is_open =
      decided-open d.device_arm64 (hardware_supports_tpro d) d.security_config
        (probe_process_tpro d r) (probe_process_tpro d r') r r' supports
        (ap (λ (s : Bool × ℕ). s.0) (probe_process_tpro-open r' is_open))

  thread_can_write_tpro-same :
      (r : ℕ) → write_enabled (thread_can_write_tpro d r).1 ≡ write_enabled r
  unfolding thread_can_write_tpro
  thread_can_write_tpro-same r =
      by_test (λ (s : Bool × ℕ). write_enabled s.1 ≡ write_enabled r) (not d.device_arm64)
        (λ _. refl) (λ _. supports_tpro-same r)

  -- A thread that can write has the window open.
  thread_can_write_tpro-open :
      (r : ℕ)
      → (thread_can_write_tpro d r).0 ≡ true
      → write_enabled (thread_can_write_tpro d r).1 ≡ true
  unfolding thread_can_write_tpro
  thread_can_write_tpro-open r =
      by_test (λ (s : Bool × ℕ). s.0 ≡ true → write_enabled s.1 ≡ true) (not d.device_arm64)
        (λ _ e. absurd (false≢true e))
        (λ _ e. (&&_parts (supports_tpro d r).0 (write_enabled (supports_tpro d r).1) e).1)

  device_of : (r : ℕ) → (supports_tpro d r).0 ≡ true → d.device_arm64 ≡ true
  unfolding supports_tpro
  device_of r =
      of d.device_arm64 (hardware_supports_tpro d) d.security_config (probe_process_tpro d r)
    where
      of :
          (device hardware : Bool) (config : Option Bool) (probe : Bool × ℕ)
          → (decided device hardware config probe r).0 ≡ true
          → device ≡ true
      of true hardware config probe e = refl
      of false hardware config probe e = absurd (false≢true e)

  -- In a process that uses the protection a thread with an open window can write.
  thread_can_write_tpro_complete :
      (r r' : ℕ)
      → (supports_tpro d r).0 ≡ true
      → write_enabled r' ≡ true
      → (thread_can_write_tpro d r').0 ≡ true
  unfolding thread_can_write_tpro
  thread_can_write_tpro_complete r r' supports is_open =
      by_test (λ (s : Bool × ℕ). s.0 ≡ true) (not d.device_arm64)
        (λ no_device. absurd (false≢true (sym (ap not (device_of r supports)) ∙ no_device)))
        (λ _. both (supports_tpro-open r r' supports is_open) (supports_tpro-same r' ∙ is_open))
    where
      both : {a b : Bool} → a ≡ true → b ≡ true → (a && b) ≡ true
      both p q = rw (p, q) refl

  -- In a process that uses the protection the end closes the window, whatever its state.
  end_thread_tpro_write-closes :
      (r r' : ℕ) → (supports_tpro d r).0 ≡ true → write_enabled (end_thread_tpro_write d r') ≡ false
  unfolding end_thread_tpro_write
  end_thread_tpro_write-closes r r' supports =
      by_test (λ s. write_enabled s ≡ false) (not d.device_arm64)
        (λ no_device. absurd (false≢true (sym (ap not (device_of r supports)) ∙ no_device)))
        (λ _.
          by_test (λ s. write_enabled s ≡ false) (not (supports_tpro d r').0)
            (λ unseen. elim (Bool-cases (write_enabled r')) [
              | inr closed ↦ supports_tpro-same r' ∙ closed
              | inl is_open ↦
                  absurd
                    (false≢true (sym (ap not (supports_tpro-open r r' supports is_open)) ∙ unseen))
            ])
            (λ _. law.closes (supports_tpro d r').1))

  -- What the opening promises: without a restore the window is as before, with one it was closed
  -- and the restore closes it, and where it is said to be open it is.
  pub record IsBalanced (r : ℕ) (w : Window) : Type 0 where
    pub kept : w.restore ≡ false → write_enabled w.register ≡ write_enabled r
    pub was_closed : w.restore ≡ true → write_enabled r ≡ false
    pub closes_again : w.restore ≡ true → write_enabled (end_thread_tpro_write d w.register) ≡ false
    pub open_if : w.opened ≡ true → write_enabled w.register ≡ true

  -- Where the disable value closes the window: after the attempt to open it, the window is as
  -- before unless a restore is handed out; if one is, the window was closed before and the restore
  -- closes it again; and if the window is said to be open, it is.
  pub allow_tpro_writes-IsBalanced : (r : ℕ) → IsBalanced r (allow_tpro_writes d r)
  unfolding allow_tpro_writes
  allow_tpro_writes-IsBalanced r =
      let r1 = (supports_tpro d r).1 in
      let r2 = (thread_can_write_tpro d r1).1 in
      let same2 : write_enabled r2 ≡ write_enabled r =
        thread_can_write_tpro-same r1 ∙ supports_tpro-same r in
      let tried = thread_can_write_tpro d (begin_thread_tpro_write d r2) in
      by_test (IsBalanced r) (not (supports_tpro d r).0)
        (λ _. record {
          kept = λ _. supports_tpro-same r;
          was_closed = λ e. absurd (false≢true e);
          closes_again = λ e. absurd (false≢true e);
          open_if = λ e. absurd (false≢true e);
        })
        (λ seen.
          let supports : (supports_tpro d r).0 ≡ true = of_not (supports_tpro d r).0 seen in
          by_test (IsBalanced r) (thread_can_write_tpro d r1).0
            (λ already. record {
              kept = λ _. same2;
              was_closed = λ e. absurd (false≢true e);
              closes_again = λ e. absurd (false≢true e);
              open_if = λ _. thread_can_write_tpro-open r1 already;
            })
            (λ fresh.
              let closed : write_enabled r ≡ false = elim (Bool-cases (write_enabled r)) [
                | inr closed ↦ closed
                | inl is_open ↦ absurd (
                    false≢true (
                      sym fresh
                      ∙ thread_can_write_tpro_complete r r1 supports
                          (supports_tpro-same r ∙ is_open)))
              ] in
              by_test (IsBalanced r) (not tried.0)
                (λ _. record {
                  kept = λ _. end_thread_tpro_write-closes r tried.1 supports ∙ sym closed;
                  was_closed = λ e. absurd (false≢true e);
                  closes_again = λ e. absurd (false≢true e);
                  open_if = λ e. absurd (false≢true e);
                })
                (λ opened. record {
                  kept = λ e. absurd (false≢true (sym e));
                  was_closed = λ _. closed;
                  closes_again = λ _. end_thread_tpro_write-closes r tried.1 supports;
                  open_if = λ _.
                      thread_can_write_tpro-open (begin_thread_tpro_write d r2)
                        (of_not tried.0 opened);
                })))
