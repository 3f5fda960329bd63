-- ===== src/Rebind/Fates.antt =====
-- Every slot of one section of `RorkHookRebindSection`.
pub mod Loop
pub mod Section
use mathlib.Core.Path.{subst}
use rork_hook.Base.{
  ℕ, zero, suc, ◌+◌, ◌-◌, ◌*◌, ◌/◌, ◌%◌, ◌^◌, ◌≤◌, ◌<◌, ◌≡◌, ◌≢◌, refl, sym, ◌∙◌, arith, Bool,
  false, true, not, ◌&&◌, ◌||◌, ◌⊎◌, inl, inr, List, by_test, Bool-cases, leb, ltb, ◌==◌, neb, u8,
  ==_iff,
}
use rork_hook.Base.Texts.{codes, same_text}
use rork_hook.Outcome.{Outcome, ok}
use rork_hook.Outcome.Ensures.{Ensures, returns, bind, mono, known}
use rork_hook.Space.{Space, null, byte_at, u64_at}
use rork_hook.Space.Write.{item}
use rork_hook.Space.Reads.{IsReadable, read_u64-ok}
use rork_hook.Platform.{strip_pointer}
use rork_hook.Region.{memory_is_readable}
use rork_hook.Region.Readable.{memory_is_readable-IsReadable}
use rork_hook.Pointer.{Process, little_endian}
use rork_hook.Pointer.Store.{IsStored}
use rork_hook.Pointer.Keeps.{StillReadable}
use rork_hook.Rebind.{
  Host, RebindImageContext, store_slot, final_value, rebind_slots, rebind_named_section,
}
use rork_hook.Rebind.Slots.{
  IsHost, IsLoaded, IsSlotOf, IsRebinding, SameSlot, SameSlot-u64_at, store_slot-Ensures,
}
use rork_hook.Rebind.Whole.{IsRebinding-refl}

-- What a slot of a section of this name is rewritten to.
abbrev pub value_of : Host → RebindImageContext → (sectname : List ℕ) (a : ℕ) → ℕ
value_of x context sectname a =
    final_value x.platform context.replacement (same_text sectname (codes "__auth_got")) a

-- The slot holds a pointer to the replacee.
abbrev pub Holds : Host → RebindImageContext → Space → (a : ℕ) → Type 0
Holds x context m a =
    (u64_at m a ≢ null) × (strip_pointer x.platform (u64_at m a) ≡ context.replacee_raw)

-- The states of a sweep over the slots of a section, from `s0` on: before slot `k`, each of the slots
-- below it has been passed, because it did not hold the replacee then, or its store has been tried.
pub data Sweep (x : Host) (context : RebindImageContext) (sectname : List ℕ) (slots : ℕ)
    (s0 : Process) : ℕ → Process → Type 0 where
  begin : Sweep x context sectname slots s0 0 s0
  passed :
      {k : ℕ} {s : Process}
      → Sweep x context sectname slots s0 k s
      → ¬ Holds x context s.space (slots + k * 8)
      → Sweep x context sectname slots s0 (k + 1) s
  tried :
      {k : ℕ} {s s' : Process} {answer : Bool}
      → Sweep x context sectname slots s0 k s
      → Holds x context s.space (slots + k * 8)
      → store_slot x s (slots + k * 8) (value_of x context sectname (slots + k * 8))
        ≡ ok (answer, s')
      → Sweep x context sectname slots s0 (k + 1) s'

-- What becomes of slot `k`: a slot that does not hold the replacee is as before; one that does holds
-- its final value, or it is as before and its store was refused in the state to which the sweep over
-- the slots below it leads.
pub data Fate (x : Host) (context : RebindImageContext) (sectname : List ℕ) (slots : ℕ)
    (s0 : Process) (m m' : Space) (k : ℕ) : Type 0 where
  left_alone :
      ¬ Holds x context m (slots + k * 8)
      → SameSlot m m' (slots + k * 8)
      → Fate x context sectname slots s0 m m' k
  rewritten :
      Holds x context m (slots + k * 8)
      → ((i : ℕ)
          → i < 8
          → byte_at m' (slots + k * 8 + i)
            ≡ u8 (item (little_endian 8 (value_of x context sectname (slots + k * 8))) i))
      → Fate x context sectname slots s0 m m' k
  refused :
      {s s' : Process}
      → Holds x context m (slots + k * 8)
      → SameSlot m m' (slots + k * 8)
      → Sweep x context sectname slots s0 k s
      → store_slot x s (slots + k * 8) (value_of x context sectname (slots + k * 8))
        ≡ ok (false, s')
      → Fate x context sectname slots s0 m m' k

-- The bytes outside are as before.
abbrev pub SameOutside : (m m' : Space) (low high : ℕ) → Type 0
SameOutside m m' low high = (y : ℕ) → (leb low y && ltb y high) ≡ false → byte_at m' y ≡ byte_at m y

-- The slots from `first` on up to `last` have met their fate, nothing else has changed, and the state
-- is the one to which the sweep leads.
pub record IsSwept (x : Host) (context : RebindImageContext) (sectname : List ℕ) (slots : ℕ)
    (s0 : Process) (first last : ℕ) (s s' : Process) : Type 0 where
  pub each : (k : ℕ) → first ≤ k → k < last → Fate x context sectname slots s0 s.space s'.space k
  pub outside : SameOutside s.space s'.space (slots + first * 8) (slots + last * 8)
  pub swept : Sweep x context sectname slots s0 last s'

outside_slot :
    (m m' : Space) (low high a : ℕ)
    → SameOutside m m' low high
    → (a + 8 ≤ low) ⊎ (high ≤ a)
    → SameSlot m m' a
outside_slot m m' low high a same (inl below) i h = same (a + i) (ground arith)
outside_slot m m' low high a same (inr above) i h = same (a + i) (ground arith)

module _ (x : Host) (context : RebindImageContext) (sectname : List ℕ) (slots : ℕ)
    (s0 : Process) where
  -- The fate stays what it was while later slots change.
  pub before-Fate :
      (m m' m'' : Space) (k : ℕ)
      → SameSlot m' m'' (slots + k * 8)
      → Fate x context sectname slots s0 m m' k
      → Fate x context sectname slots s0 m m'' k
  before-Fate m m' m'' k same (left_alone other kept) =
      left_alone other (λ i h. same i h ∙ kept i h)
  before-Fate m m' m'' k same (rewritten holds new) = rewritten holds (λ i h. same i h ∙ new i h)
  before-Fate m m' m'' k same (refused holds kept held e) =
      refused holds (λ i h. same i h ∙ kept i h) held e

  Holds-same : (m m' : Space) (a : ℕ) → SameSlot m m' a → Holds x context m' a → Holds x context m a
  Holds-same m m' a same =
      subst (λ v. (v ≢ null) × (strip_pointer x.platform v ≡ context.replacee_raw))
        (SameSlot-u64_at m m' a same)

  -- The fate counts from the beginning while earlier slots change.
  pub after-Fate :
      (m m' m'' : Space) (k : ℕ)
      → SameSlot m m' (slots + k * 8)
      → Fate x context sectname slots s0 m' m'' k
      → Fate x context sectname slots s0 m m'' k
  after-Fate m m' m'' k same (left_alone other kept) =
      left_alone (λ holds. other (Holds-same m' m (slots + k * 8) (λ i h. sym (same i h)) holds))
        (λ i h. kept i h ∙ same i h)
  after-Fate m m' m'' k same (rewritten holds new) =
      rewritten (Holds-same m m' (slots + k * 8) same holds) new
  after-Fate m m' m'' k same (refused holds kept held e) =
      refused (Holds-same m m' (slots + k * 8) same holds) (λ i h. kept i h ∙ same i h) held e
