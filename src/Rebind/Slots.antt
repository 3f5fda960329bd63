-- ===== src/Rebind/Slots.antt =====
-- The loop over the slots of one section, of `RorkHookRebindSection`.
use mathlib.Core.Path.{subst}
use rork_hook.Base.{
  ℕ, zero, suc, ◌+◌, ◌-◌, ◌*◌, ◌%◌, ◌^◌, ◌≤◌, ◌<◌, ◌≡◌, ◌≢◌, refl, ◌∙◌, arith, Bool, ◌⊎◌, inl, inr,
  List, Bool-cases, by_test, ◌==◌, neb, ==_iff, u8,
}
use rork_hook.Base.Texts.{codes, same_text}
use rork_hook.Outcome.Ensures.{Ensures, returns, bind, both, mono}
use rork_hook.Space.{Space, null, byte_at, u16_at, u32_at, u64_at}
use rork_hook.Space.Write.{item}
use rork_hook.Space.Reads.{IsReadable, IsReadable-part, read_u64-ok}
use rork_hook.Platform.{IsTruthful, strip_pointer}
use rork_hook.Region.Granular.{IsGranular}
use rork_hook.Memory.Protects.{IsProtecting}
use rork_hook.Tpro.{write_enabled}
use rork_hook.Tpro.Balance.{IsClosing}
use rork_hook.Pointer.{Process, little_endian}
use rork_hook.Pointer.Store.{IsGuarded, IsReachable, IsStored}
use rork_hook.Pointer.Keeps.{IsKeeping, StillReadable, store_protected_pointer-keeps}
use rork_hook.Pointer.Whole.{store_protected_pointer-IsStored}
use rork_hook.Rebind.{Host, RebindImageContext, store_slot, final_value, rebind_slots}

-- The eight bytes at `a` lie in the section of these names.
abbrev pub IsSlotOf : Host → (header : ℕ) (segname sectname : List ℕ) (a : ℕ) → Type 0
IsSlotOf x header segname sectname a =
    let (slots, size) = x.getsectiondata header segname sectname in
    (slots ≤ a) × (a + 8 ≤ slots + size)

-- The slot held the replacee, and now holds the final value.
pub record IsRebound (x : Host) (context : RebindImageContext) (m m' : Space) (a : ℕ) : Type 0 where
  pub segname : List ℕ
  pub sectname : List ℕ
  pub in_section : IsSlotOf x context.header segname sectname a
  pub occupied : u64_at m a ≢ null
  pub matches : strip_pointer x.platform (u64_at m a) ≡ context.replacee_raw
  pub final :
      (i : ℕ)
      → i < 8
      → byte_at m' (a + i)
        ≡ u8 (
            item
              (little_endian 8 (
                final_value x.platform context.replacement
                  (same_text sectname (codes "__auth_got"))
                  a))
              i)

abbrev pub SameSlot : (m m' : Space) (a : ℕ) → Type 0
SameSlot m m' a = (i : ℕ) → i < 8 → byte_at m' (a + i) ≡ byte_at m (a + i)

-- The state of a rebind that began in `s`.
pub record IsRebinding (x : Host) (context : RebindImageContext) (s s' : Process) : Type 0 where
  pub window : write_enabled s'.register ≡ write_enabled s.register
  pub still : StillReadable s.space s'.space
  pub slots :
      (a : ℕ) → a % 8 ≡ 0 → SameSlot s.space s'.space a ⊎ IsRebound x context s.space s'.space a

-- What the rebind relies on in the system.
pub record IsHost (x : Host) : Type 0 where
  pub truthful : IsTruthful x.platform
  pub granular : IsGranular x.platform x.device.vm_page_size
  pub protecting : IsProtecting x.kernel
  pub keeping : IsKeeping x.kernel
  pub closing : IsClosing x.device
  pub guarded : IsGuarded x.device
  pub page : x.device.vm_page_size < 2 ^ 62

-- The sections of a loaded image: aligned, inside the address space, and above the first page.
pub record IsLoaded (x : Host) (header : ℕ) : Type 0 where
  pub aligned : (segname sectname : List ℕ) → (x.getsectiondata header segname sectname).0 % 8 ≡ 0
  pub bounded :
      (segname sectname : List ℕ)
      → (x.getsectiondata header segname sectname).0 + (x.getsectiondata header segname sectname).1
        < 2 ^ 64
  pub above :
      (segname sectname : List ℕ)
      → (x.getsectiondata header segname sectname).0 ≢ null
      → x.device.vm_page_size ≤ (x.getsectiondata header segname sectname).0

-- While what is readable in `m0` stays so, a store to a readable slot of the image has its
-- precondition, which asks nothing where the process does not use the write window.
pub record IsStorable (x : Host) (header : ℕ) (m0 : Space) : Type 0 where
  pub reachable :
      (s : Process) (segname sectname : List ℕ) (a : ℕ)
      → StillReadable m0 s.space
      → IsSlotOf x header segname sectname a
      → IsReadable s.space a 8
      → IsReachable x.kernel x.device s a 0x13

pub later-IsStorable :
    (x : Host) (header : ℕ) (m0 m : Space)
    → StillReadable m0 m
    → IsStorable x header m0
    → IsStorable x header m
later-IsStorable x header m0 m still storable = record {
  reachable = λ s segname sectname a on inside reads.
      storable.reachable s segname sectname a (λ y seen. on y (still y seen)) inside reads;
}

pub SameSlot-u64_at : (m m' : Space) (a : ℕ) → SameSlot m m' a → u64_at m' a ≡ u64_at m a
unfolding u64_at u32_at u16_at
SameSlot-u64_at m m' a same =
    rw
      (
        at a (omega arith) (omega arith),
        at (a + 1) (omega arith) (omega arith),
        at (a + 2) (omega arith) (omega arith),
        at (a + 2 + 1) (omega arith) (omega arith),
        at (a + 4) (omega arith) (omega arith),
        at (a + 4 + 1) (omega arith) (omega arith),
        at (a + 4 + 2) (omega arith) (omega arith),
        at (a + 4 + 2 + 1) (omega arith) (omega arith),
      )
      refl
  where
    at : (y : ℕ) → a ≤ y → y < a + 8 → byte_at m' y ≡ byte_at m y
    at y low high =
        let back : a + (y - a) ≡ y = omega arith in
        subst (λ z. byte_at m' z ≡ byte_at m z) back (same (y - a) (omega arith))

-- The slot after a change elsewhere.
carried :
    (x : Host) (context : RebindImageContext) (m m' m'' : Space) (a : ℕ)
    → SameSlot m' m'' a
    → SameSlot m m' a ⊎ IsRebound x context m m' a
    → SameSlot m m'' a ⊎ IsRebound x context m m'' a
carried x context m m' m'' a same (inl kept) = inl (λ i h. same i h ∙ kept i h)
carried x context m m' m'' a same (inr r) = inr (record {
  segname = r.segname;
  sectname = r.sectname;
  in_section = r.in_section;
  occupied = r.occupied;
  matches = r.matches;
  final = λ i h. same i h ∙ r.final i h;
})

module _ (x : Host) (host : IsHost x) (context : RebindImageContext)
    (loaded : IsLoaded x context.header) (s0 : Process)
    (storable : IsStorable x context.header s0.space) (segname sectname : List ℕ)
    (nonnull : (x.getsectiondata context.header segname sectname).0 ≢ null) where
  abbrev start : ℕ
  start = (x.getsectiondata context.header segname sectname).0

  abbrev size : ℕ
  size = (x.getsectiondata context.header segname sectname).1

  abbrev authenticated : Bool
  authenticated = same_text sectname (codes "__auth_got")

  -- What held at the beginning, by what holds now.
  matched :
      (s : Process) (a : ℕ)
      → SameSlot s0.space s.space a ⊎ IsRebound x context s0.space s.space a
      → u64_at s.space a ≢ null
      → strip_pointer x.platform (u64_at s.space a) ≡ context.replacee_raw
      → (u64_at s0.space a ≢ null)
        × (strip_pointer x.platform (u64_at s0.space a) ≡ context.replacee_raw)
  matched s a (inl same) occupied matches =
      let e = SameSlot-u64_at s0.space s.space a same in
      (
        λ is_null. occupied (e ∙ is_null),
        subst (λ v. strip_pointer x.platform v ≡ context.replacee_raw) e matches,
      )
  matched s a (inr r) occupied matches = (r.occupied, r.matches)

  -- A store to a slot that matches.
  stored :
      (s : Process) (a : ℕ) (result : Bool × Process)
      → a % 8 ≡ 0
      → IsSlotOf x context.header segname sectname a
      → u64_at s.space a ≢ null
      → strip_pointer x.platform (u64_at s.space a) ≡ context.replacee_raw
      → IsRebinding x context s0 s
      → IsStored s a (final_value x.platform context.replacement authenticated a) result
      → StillReadable s.space result.1.space
      → IsRebinding x context s0 result.1
  stored s a result aligned inside occupied matches before is_stored still = record {
    window = is_stored.window ∙ before.window;
    still = λ y seen. still y (before.still y seen);
    slots = λ b b_aligned. elim is_stored.stored [
      | inr (_, same) ↦
          carried x context s0.space s.space result.1.space b (λ i h. same (b + i))
            (before.slots b b_aligned)
      | inl written ↦ elim (Bool-cases (b == a)) [
        | inl here ↦
            let (was, matched_then) = matched s a (before.slots a aligned) occupied matches in
            rw ((==_iff b a).0 here) (
              inr (record {
                segname = segname;
                sectname = sectname;
                in_section = inside;
                occupied = was;
                matches = matched_then;
                final = written.new;
              }))
        | inr elsewhere ↦
            carried x context s0.space s.space result.1.space b
              (λ i h. written.others (b + i) (ground arith)) (before.slots b b_aligned)
      ]
    ];
  }

  pub store_slot-Ensures :
      (s : Process) (a : ℕ)
      → a % 8 ≡ 0
      → IsSlotOf x context.header segname sectname a
      → u64_at s.space a ≢ null
      → strip_pointer x.platform (u64_at s.space a) ≡ context.replacee_raw
      → IsReadable s.space a 8
      → IsRebinding x context s0 s
      → Ensures
          (λ (r : Bool × Process).
            IsRebinding x context s0 r.1
            × StillReadable s.space r.1.space
            × IsStored s a (final_value x.platform context.replacement authenticated a) r)
          (store_slot x s a (final_value x.platform context.replacement authenticated a))
  unfolding store_slot
  store_slot-Ensures s a aligned inside occupied matches reads before =
      let low : x.device.vm_page_size ≤ start = loaded.above segname sectname nonnull in
      let high : start + size < 2 ^ 64 = loaded.bounded segname sectname in
      mono
        (both
          (store_protected_pointer-IsStored x.platform x.kernel x.device s a
            (final_value x.platform context.replacement authenticated a) 0x13 host.protecting
            host.closing host.guarded
            (storable.reachable s segname sectname a before.still inside reads) host.page
            (omega (arith, inside)) (omega (arith, inside)))
          (store_protected_pointer-keeps x.platform x.kernel x.device s a
            (final_value x.platform context.replacement authenticated a) 0x13 host.truthful
            host.granular host.keeping host.page (omega (arith, inside)) refl))
        λ r (is_stored, still).
          (stored s a r aligned inside occupied matches before is_stored still, still, is_stored)

  pub rebind_slots-Ensures :
      (left index : ℕ) (s : Process)
      → (index + left) * 8 ≤ size
      → IsReadable s.space start size
      → IsRebinding x context s0 s
      → Ensures (IsRebinding x context s0) (rebind_slots x context authenticated start left index s)
  unfolding rebind_slots
  rebind_slots-Ensures zero index s fits reads before = returns before
  rebind_slots-Ensures (suc left) index s fits reads before =
      let a = start + index * 8 in
      let aligned : a % 8 ≡ 0 = omega (arith, loaded.aligned segname sectname) in
      let After : Process → Type 0 =
        λ s'. IsRebinding x context s0 s' × StillReadable s.space s'.space in
      rw (read_u64-ok s.space a reads (omega arith) (omega (arith, fits))) (
        bind
          (by_test (Ensures After) (u64_at s.space a == null)
            (λ _. returns (before, λ y seen. seen))
            (λ occupied.
              by_test (Ensures After)
                (neb (strip_pointer x.platform (u64_at s.space a)) context.replacee_raw)
                (λ _. returns (before, λ y seen. seen))
                (λ matches.
                  bind
                    (store_slot-Ensures s a aligned (omega arith, omega (arith, fits))
                      (ground arith) (ground arith)
                      (IsReadable-part a 8 reads (omega arith) (omega (arith, fits))) before)
                    λ (r : Bool × Process) (after, still, _). returns (after, still))))
          λ s' (after, still).
            rebind_slots-Ensures left (index + 1) s' (omega (arith, fits))
              (record { each = λ y low high. still y (reads.each y low high) }) after)
