-- ===== src/Rebind/Sections.antt =====
-- The sections of one segment, of `RorkHookRebindSection` and `RorkHookRebindImageLoadCommand`.
use rork_hook.Base.{
  ℕ, zero, suc, ◌+◌, ◌*◌, ◌/◌, ◌%◌, ◌≡◌, arith, Bool, true, false, not, List, [], ◌∷◌, ◌++◌, ◌||◌,
  by_test, ◌==◌, neb, bit_and,
}
use rork_hook.Outcome.Ensures.{Ensures, returns, bind}
use rork_hook.Space.{Space, null}
use rork_hook.Space.Write.{bytes_at}
use rork_hook.Space.Reads.{IsReadable, IsReadable-part, can_read-ok}
use rork_hook.Region.{memory_is_readable}
use rork_hook.Region.Readable.{memory_is_readable-IsReadable}
use rork_hook.MachO.{section_type, s_lazy_symbol_pointers, s_non_lazy_symbol_pointers}
use rork_hook.MachO.Section
use rork_hook.Pointer.{Process}
use rork_hook.Pointer.Keeps.{StillReadable}
use rork_hook.Rebind.{
  Host, RebindImageContext, copy_name, c_string, rebind_named_section, rebind_section,
  rebind_sections,
}
use rork_hook.Rebind.Slots.{IsHost, IsLoaded, IsStorable, IsRebinding, rebind_slots-Ensures}

pub IsReadable-still :
    {m m' : Space} {a n : ℕ} → StillReadable m m' → IsReadable m a n → IsReadable m' a n
IsReadable-still still r = record { each = λ y low high. still y (r.each y low high) }

guarded_parts : (a b c d : Bool) → (a || (b || (c || not d))) ≡ false → (a ≡ false) × (d ≡ true)
guarded_parts a b c d e = ground arith

module _ (x : Host) (host : IsHost x) (context : RebindImageContext)
    (loaded : IsLoaded x context.header) (s0 : Process)
    (storable : IsStorable x context.header s0.space) where
  rebind_named_section-Ensures :
      (s : Process) (segname sectname : List ℕ)
      → IsRebinding x context s0 s
      → Ensures (IsRebinding x context s0) (rebind_named_section x context s segname sectname)
  unfolding rebind_named_section
  rebind_named_section-Ensures s segname sectname before =
      let (slots, size) = x.getsectiondata context.header segname sectname in
      by_test (Ensures (IsRebinding x context s0))
        (slots == null
          || (size / 8 == 0
              || (neb (size % 8) 0 || not (memory_is_readable x.platform s.space slots size))))
        (λ _. returns before)
        (λ checked.
          let (nonnull, is_readable) =
            guarded_parts (slots == null) (size / 8 == 0) (neb (size % 8) 0)
              (memory_is_readable x.platform s.space slots size) checked in
          rebind_slots-Ensures x host context loaded s0 storable segname sectname
            (λ e. ground (arith, nonnull, e)) (size / 8) 0 s (omega arith)
            (memory_is_readable-IsReadable x.platform host.truthful s.space slots size
              is_readable).1
            before)

  pub rebind_section-Ensures :
      (s : Process) (section : ℕ)
      → IsReadable s.space section 80
      → IsRebinding x context s0 s
      → Ensures (IsRebinding x context s0) (rebind_section x context s section)
  unfolding rebind_section copy_name
  rebind_section-Ensures s section reads before =
      by_test (Ensures (IsRebinding x context s0)) (section == null) (λ _. returns before)
        (λ _.
          rw
            (
              can_read-ok s.space (section + 16) 16 reads (omega arith) (omega arith),
              can_read-ok s.space section 16 reads (omega arith) (omega arith),
            )
            (rebind_named_section-Ensures s
              (c_string (bytes_at s.space (section + 16) 16 ++ (0 ∷ [])))
              (c_string (bytes_at s.space section 16 ++ (0 ∷ []))) before))

  pub rebind_sections-Ensures :
      (left section : ℕ) (s : Process)
      → IsReadable s0.space section (left * 80)
      → IsRebinding x context s0 s
      → Ensures (IsRebinding x context s0) (rebind_sections x context section left s)
  unfolding rebind_sections
  rebind_sections-Ensures zero section s reads before = returns before
  rebind_sections-Ensures (suc left) section s reads before =
      let here = IsReadable-part section 80 reads (omega arith) (omega arith) in
      let now = IsReadable-still before.still here in
      rw (can_read-ok s.space section 80 now (omega arith) (omega arith)) (
        bind
          (by_test (Ensures (IsRebinding x context s0))
            (bit_and (Section.flags s.space section) section_type == s_lazy_symbol_pointers
              || bit_and (Section.flags s.space section) section_type == s_non_lazy_symbol_pointers)
            (λ _. rebind_section-Ensures s section now before) (λ _. returns before))
          λ s' after.
            rebind_sections-Ensures left (section + 80) s'
              (IsReadable-part (section + 80) (left * 80) reads (omega arith) (omega arith)) after)
