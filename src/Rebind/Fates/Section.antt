-- ===== src/Rebind/Fates/Section.antt =====
-- `RorkHookRebindSection` from the record of the section on.
use mathlib.Core.Path.{subst}
use rork_hook.Base.{
  ℕ, ◌+◌, ◌/◌, ◌%◌, ◌≡◌, ◌≢◌, ◌<◌, arith, Bool, true, false, not, List, [], ◌∷◌, ◌++◌, ◌||◌, ◌==◌,
  neb,
}
use rork_hook.Outcome.Ensures.{Ensures, mono}
use rork_hook.Space.{Space, null}
use rork_hook.Space.Write.{bytes_at}
use rork_hook.Space.Reads.{IsReadable, can_read-ok}
use rork_hook.Region.{memory_is_readable}
use rork_hook.Region.Readable.{memory_is_readable-IsReadable}
use rork_hook.Pointer.{Process}
use rork_hook.Rebind.{
  Host, RebindImageContext, copy_name, c_string, rebind_named_section, rebind_section,
}
use rork_hook.Rebind.Slots.{IsHost, IsLoaded, IsStorable}
use rork_hook.Rebind.Whole.{IsRebinding-refl}
use rork_hook.Rebind.Fates.{IsSwept, begin}
use rork_hook.Rebind.Fates.Loop.{rebind_slots-IsSwept}

-- The names in the record of a section.
abbrev pub segname_at : Space → (section : ℕ) → List ℕ
segname_at m section = c_string (bytes_at m (section + 16) 16 ++ (0 ∷ []))

abbrev pub sectname_at : Space → (section : ℕ) → List ℕ
sectname_at m section = c_string (bytes_at m section 16 ++ (0 ∷ []))

-- The section is there, consists of slots, and can be read.
pub record IsUsable (x : Host) (header : ℕ) (s : Process) (segname sectname : List ℕ) : Type 0 where
  pub nonnull : (x.getsectiondata header segname sectname).0 ≢ null
  pub whole : (x.getsectiondata header segname sectname).1 % 8 ≡ 0
  pub reported :
      memory_is_readable x.platform s.space
        (x.getsectiondata header segname sectname).0
        (x.getsectiondata header segname sectname).1
      ≡ true

all_pass :
    (slots size : ℕ) (reads : Bool)
    → slots ≢ null
    → size % 8 ≡ 0
    → 0 < size
    → reads ≡ true
    → (slots == null || (size / 8 == 0 || (neb (size % 8) 0 || not reads))) ≡ false
all_pass slots size reads nonnull whole some_size e = ground arith

module _ (x : Host) (host : IsHost x) (context : RebindImageContext)
    (loaded : IsLoaded x context.header) (s : Process)
    (storable : IsStorable x context.header s.space) where
  rebind_named_section-IsSwept :
      (segname sectname : List ℕ)
      → IsUsable x context.header s segname sectname
      → Ensures
          (λ (s' : Process).
            IsSwept x context sectname
              (x.getsectiondata context.header segname sectname).0
              s
              0
              ((x.getsectiondata context.header segname sectname).1 / 8)
              s
              s')
          (rebind_named_section x context s segname sectname)
  unfolding rebind_named_section
  rebind_named_section-IsSwept segname sectname usable =
      let (slots, size) = x.getsectiondata context.header segname sectname in
      let none_before : 0 + size / 8 ≡ size / 8 = omega arith in
      let (positive, reads) =
        memory_is_readable-IsReadable x.platform host.truthful s.space slots size usable.reported in
      rw
        (all_pass slots size (memory_is_readable x.platform s.space slots size) usable.nonnull
          usable.whole positive usable.reported)
        (mono
          (rebind_slots-IsSwept x host context loaded s storable segname sectname usable.nonnull
            (size / 8) 0 s (omega arith) reads (IsRebinding-refl x context s) begin)
          λ s' swept.
            subst (λ last. IsSwept x context sectname slots s 0 last s s') none_before swept)

  -- On a host and an image as the rebind needs them, with a readable record of a section whose
  -- slots are there, whole and readable: the rebind of the section reads and writes nothing without
  -- permission and changes no byte outside the slots; its final state is the one to which the sweep
  -- over all slots leads; and each slot that did not hold the replacee is as before, while each
  -- that did holds its final value, or is as before because its store was refused in the state to
  -- which the sweep over the slots before it leads.
  pub rebind_section-IsSwept :
      (section : ℕ)
      → section ≢ null
      → IsReadable s.space section 80
      → IsUsable x context.header s (segname_at s.space section) (sectname_at s.space section)
      → Ensures
          (λ (s' : Process).
            let (slots, size) =
              x.getsectiondata context.header
                (segname_at s.space section)
                (sectname_at s.space section) in
            IsSwept x context (sectname_at s.space section) slots s 0 (size / 8) s s')
          (rebind_section x context s section)
  unfolding rebind_section copy_name
  rebind_section-IsSwept section nonnull reads usable =
      let given : (section == null) ≡ false = ground arith in
      rw
        (
          given,
          can_read-ok s.space (section + 16) 16 reads (omega arith) (omega arith),
          can_read-ok s.space section 16 reads (omega arith) (omega arith),
        )
        (rebind_named_section-IsSwept (segname_at s.space section) (sectname_at s.space section)
          usable)
