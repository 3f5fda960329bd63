-- ===== src/Rebind/Fates/Loop.antt =====
-- The loop over the slots of a section.
use mathlib.Core.Path.{subst}
use rork_hook.Base.{
  ℕ, zero, suc, ◌+◌, ◌*◌, ◌%◌, ◌≤◌, ◌≡◌, ◌≢◌, refl, ◌∙◌, arith, Bool, inl, inr, List, by_test,
  Bool-cases, ◌==◌, neb, ==_iff,
}
use rork_hook.Base.Texts.{codes, same_text}
use rork_hook.Outcome.{ok}
use rork_hook.Outcome.Ensures.{Ensures, returns, bind, mono, known}
use rork_hook.Space.{null, u64_at}
use rork_hook.Space.Reads.{IsReadable, IsReadable-part, read_u64-ok}
use rork_hook.Platform.{strip_pointer}
use rork_hook.Pointer.{Process}
use rork_hook.Pointer.Store.{IsStored}
use rork_hook.Pointer.Keeps.{StillReadable}
use rork_hook.Rebind.{Host, RebindImageContext, store_slot, rebind_slots}
use rork_hook.Rebind.Slots.{IsHost, IsLoaded, IsStorable, IsSlotOf, IsRebinding, store_slot-Ensures}
use rork_hook.Rebind.Fates.{
  value_of, Holds, Fate, left_alone, rewritten, refused, Sweep, passed, tried, SameOutside, IsSwept,
  before-Fate, after-Fate,
}

-- What the visit of one slot leaves.
record IsVisited (x : Host) (context : RebindImageContext) (sectname : List ℕ) (slots : ℕ)
    (s0 s s' : Process) (k : ℕ) : Type 0 where
  pub held : IsRebinding x context s0 s'
  pub still : StillReadable s.space s'.space
  pub fate : Fate x context sectname slots s0 s.space s'.space k
  pub outside : SameOutside s.space s'.space (slots + k * 8) (slots + k * 8 + 8)
  pub swept : Sweep x context sectname slots s0 (k + 1) s'

module _ (x : Host) (host : IsHost x) (context : RebindImageContext)
    (loaded : IsLoaded x context.header) (s0 : Process)
    (storable : IsStorable x context.header s0.space) (segname sectname : List ℕ)
    (nonnull : (x.getsectiondata context.header segname sectname).0 ≢ null) where
  abbrev start : ℕ
  start = (x.getsectiondata context.header segname sectname).0

  abbrev size : ℕ
  size = (x.getsectiondata context.header segname sectname).1

  abbrev Visited : Process → (k : ℕ) → Process → Type 0
  Visited s k s' = IsVisited x context sectname start s0 s s' k

  abbrev Swept : ℕ → Process → Type 0
  Swept k s = Sweep x context sectname start s0 k s

  abbrev slot : ℕ → ℕ
  slot k = start + k * 8

  untouched :
      (s : Process) (k : ℕ)
      → IsRebinding x context s0 s
      → Swept k s
      → ¬ Holds x context s.space (slot k)
      → Visited s k s
  untouched s k held so_far other = record {
    held = held;
    still = λ y seen. seen;
    fate = left_alone other (λ i h. refl);
    outside = λ y apart. refl;
    swept = passed so_far other;
  }

  outcome_of_store :
      (s : Process) (k : ℕ) (r : Bool × Process)
      → Swept k s
      → Holds x context s.space (slot k)
      → IsRebinding x context s0 r.1
      → StillReadable s.space r.1.space
      → IsStored s (slot k) (value_of x context sectname (slot k)) r
      → store_slot x s (slot k) (value_of x context sectname (slot k)) ≡ ok r
      → Visited s k r.1
  outcome_of_store s k (done, s') so_far holds held still is_stored e = elim is_stored.stored [
    | inl written ↦ record {
      held = held;
      still = still;
      fate = rewritten holds written.new;
      outside = written.others;
      swept = tried so_far holds e;
    }
    | inr (refusal, same) ↦ record {
      held = held;
      still = still;
      fate =
          refused holds (λ i h. same (slot k + i)) so_far
            (subst
              (λ b. store_slot x s (slot k) (value_of x context sectname (slot k)) ≡ ok (b, s'))
              refusal e);
      outside = λ y apart. same y;
      swept = tried so_far holds e;
    }
  ]

  store-Visited :
      (s : Process) (k : ℕ)
      → slot k % 8 ≡ 0
      → IsSlotOf x context.header segname sectname (slot k)
      → IsReadable s.space (slot k) 8
      → IsRebinding x context s0 s
      → Swept k s
      → Holds x context s.space (slot k)
      → Ensures
          (λ (r : Bool × Process). Visited s k r.1)
          (store_slot x s (slot k) (value_of x context sectname (slot k)))
  store-Visited s k aligned inside reads held so_far (occupied, matches) =
      mono
        (known (
          store_slot-Ensures x host context loaded s0 storable segname sectname nonnull s (slot k)
            aligned inside occupied matches reads held))
        λ r ((after, still, is_stored), e).
          outcome_of_store s k r so_far (occupied, matches) after still is_stored e

  rest_joined :
      (first left : ℕ) (s s1 s2 : Process)
      → Visited s first s1
      → IsSwept x context sectname start s0 (first + 1) (first + 1 + left) s1 s2
      → IsSwept x context sectname start s0 first (first + suc left) s s2
  rest_joined first left s s1 s2 visit rest = record {
    each = λ k low high. elim (Bool-cases (k == first)) [
      | inl here ↦ rw ((==_iff k first).0 here) (
          before-Fate x context sectname start s0 s.space s1.space s2.space first
            (λ i h. rest.outside (start + first * 8 + i) (ground arith)) visit.fate)
      | inr later ↦
          let a = start + k * 8 in
          after-Fate x context sectname start s0 s.space s1.space s2.space k
            (λ i h. visit.outside (a + i) (ground arith))
            (rest.each k (ground arith) (omega (arith, high)))
    ];
    outside = λ y apart. rest.outside y (ground arith) ∙ visit.outside y (ground arith);
    swept =
        let e : first + 1 + left ≡ first + suc left = omega arith in
        subst (λ k. Swept k s2) e rest.swept;
  }

  pub rebind_slots-IsSwept :
      (left first : ℕ) (s : Process)
      → (first + left) * 8 ≤ size
      → IsReadable s.space start size
      → IsRebinding x context s0 s
      → Swept first s
      → Ensures
          (λ (s' : Process). IsSwept x context sectname start s0 first (first + left) s s')
          (rebind_slots x context (same_text sectname (codes "__auth_got")) start left first s)
  unfolding rebind_slots
  rebind_slots-IsSwept zero first s fits reads held so_far =
      let e : first ≡ first + 0 = omega arith in
      returns (record {
        each = λ k low high. absurd (omega (arith, low, high));
        outside = λ y apart. refl;
        swept = subst (λ k. Swept k s) e so_far;
      })
  rebind_slots-IsSwept (suc left) first s fits reads held so_far =
      let a = start + first * 8 in
      let aligned : a % 8 ≡ 0 = omega (arith, loaded.aligned segname sectname) in
      rw (read_u64-ok s.space a reads (omega arith) (omega (arith, fits))) (
        bind
          (by_test (Ensures (Visited s first)) (u64_at s.space a == null)
            (λ empty.
              returns
                (untouched s first held so_far (λ (occupied, _). occupied (ground (arith, empty)))))
            (λ occupied.
              by_test (Ensures (Visited s first))
                (neb (strip_pointer x.platform (u64_at s.space a)) context.replacee_raw)
                (λ other.
                  returns (
                    untouched s first held so_far (λ (_, matches). ground (arith, other, matches))))
                (λ matches.
                  bind
                    (store-Visited s first aligned (omega arith, omega (arith, fits))
                      (IsReadable-part a 8 reads (omega arith) (omega (arith, fits))) held so_far
                      (ground arith, ground arith))
                    λ (r : Bool × Process) visit. returns visit)))
          λ s1 visit.
            mono
              (rebind_slots-IsSwept left (first + 1) s1 (omega (arith, fits))
                (record { each = λ y low high. visit.still y (reads.each y low high) }) visit.held
                visit.swept)
              λ s2 rest. rest_joined first left s s1 s2 visit rest)
