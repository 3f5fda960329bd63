-- ===== src/Rebind/Global/Swept.antt =====
-- What `RorkHookRebindSymbolGlobally` and `RorkHookHandleImageAdded` change.
use mathlib.Core.Path.{subst}
use mathlib.Core.Bool.{false≢true}
use rork_hook.Base.{
  ℕ, ◌+◌, ◌-◌, ◌%◌, ◌≤◌, ◌<◌, ◌≡◌, ◌≢◌, refl, sym, ap, ◌∙◌, arith, false, ◌⊎◌, inl, inr, List, [],
  ◌∷◌, ◌==◌, ==_iff, by_test, u8, In,
}
use rork_hook.Base.Texts.{codes, same_text}
use rork_hook.Outcome.{Outcome}
use rork_hook.Outcome.Ensures.{Ensures, returns, bind, mono}
use rork_hook.Space.{Space, null, byte_at, u64_at}
use rork_hook.Space.Write.{item}
use rork_hook.Space.Reads.{u32_at-same}
use rork_hook.Platform.{strip_pointer}
use rork_hook.Tpro.{write_enabled}
use rork_hook.LoadCommands.Table.{table_stop}
use rork_hook.Pointer.{Process, little_endian}
use rork_hook.Pointer.Keeps.{StillReadable}
use rork_hook.Rebind.{Host, final_value}
use rork_hook.Rebind.Slots.{
  IsHost, IsLoaded, IsStorable, later-IsStorable, IsSlotOf, IsRebinding, SameSlot,
}
use rork_hook.Rebind.Whole.{IsApart, rebind_symbol_in_image-IsRebinding}
use rork_hook.Rebind.Global.{GlobalRebind, excludes, apply_rebind, handle_image_added, each_image}

-- The course of the slot at `a` from the memory `m0` on: it is as it was, or the rebind for an entry
-- that is listed, in a loaded image that is not its source and that its filter accepts, found the
-- stripped replacee in it and left there the final value.
pub data Course (x : Host) (images : List ℕ) (entries : List GlobalRebind) (m0 : Space) (a : ℕ)
    : Space → Type 0 where
  kept : {m : Space} → SameSlot m0 m a → Course x images entries m0 a m
  replaced :
      {m m' : Space} (entry : GlobalRebind) (header : ℕ) (segname sectname : List ℕ)
      → Course x images entries m0 a m
      → In entry entries
      → In header images
      → header ≢ entry.source_header
      → excludes entry.filter header ≡ false
      → IsSlotOf x header segname sectname a
      → u64_at m a ≢ null
      → strip_pointer x.platform (u64_at m a) ≡ strip_pointer x.platform entry.replacee
      → ((i : ℕ)
          → i < 8
          → byte_at m' (a + i)
            ≡ u8 (
                item
                  (little_endian 8 (
                    final_value x.platform entry.replacement
                      (same_text sectname (codes "__auth_got"))
                      a))
                  i))
      → Course x images entries m0 a m'

pub record IsSwept (x : Host) (images : List ℕ) (entries : List GlobalRebind) (s s' : Process)
    : Type 0 where
  pub window : write_enabled s'.register ≡ write_enabled s.register
  pub still : StillReadable s.space s'.space
  pub slots : (a : ℕ) → a % 8 ≡ 0 → Course x images entries s.space a s'.space

-- The images of the loader: each is loaded, its slots can be stored to, and no slot of one lies in the header or the commands
-- of another.
pub record IsLaidOut (x : Host) (images : List ℕ) (m : Space) : Type 0 where
  pub sections : (header : ℕ) → In header images → IsLoaded x header
  pub storable : (header : ℕ) → In header images → IsStorable x header m
  pub apart :
      (header other : ℕ)
      → In header images
      → In other images
      → (segname sectname : List ℕ) (a : ℕ) → IsSlotOf x header segname sectname a
      → (a + 8 ≤ other) ⊎ (table_stop m other ≤ a)

pub IsSwept-refl :
    (x : Host) (images : List ℕ) (entries : List GlobalRebind) (s : Process)
    → IsSwept x images entries s s
IsSwept-refl x images entries s = record {
  window = refl;
  still = λ y seen. seen;
  slots = λ a aligned. kept (λ i h. refl);
}

module _ (x : Host) (host : IsHost x) (images : List ℕ) (entries : List GlobalRebind) (s0 : Process)
    (layout : IsLaidOut x images s0.space) where
  -- A byte of a header or of its commands stays.
  stays :
      (s : Process) (header i : ℕ)
      → In header images
      → (a : ℕ) → i < 8
      → Course x images entries s0.space a s.space
      → ¬ (a + 8 ≤ header)
      → ¬ (table_stop s0.space header ≤ a)
      → (y : ℕ) → a + i ≡ y
      → byte_at s.space y ≡ byte_at s0.space y
  stays s header i member a short (kept same) near before y e =
      subst (λ z. byte_at s.space z ≡ byte_at s0.space z) e (same i short)
  stays s header i member a short
        (replaced entry other segname sectname before listed loaded foreign accepted inside occupied
          matches final)
        near far y e =
      elim (layout.apart other header loaded member segname sectname a inside) [
        | inl below ↦ absurd (near below)
        | inr over ↦ absurd (far over)
      ]

  -- The size of the commands stays.
  sizeofcmds-same :
      (s : Process) (header : ℕ)
      → In header images
      → IsSwept x images entries s0 s
      → table_stop s.space header ≡ table_stop s0.space header
  sizeofcmds-same s header member swept =
      ap (λ n. header + 32 + n)
        (u32_at-same s0.space s.space (header + 20) λ y low high.
          let a = y - y % 8 in
          let aligned : a % 8 ≡ 0 = omega arith in
          let back : a + y % 8 ≡ y = omega arith in
          stays s header (y % 8) member a (omega arith) (swept.slots a aligned)
            (λ below. omega (arith, below, low, back)) (λ over. omega (arith, over, high, back)) y
            back)

  tables_stay_clear :
      (s : Process) (header : ℕ)
      → In header images
      → IsSwept x images entries s0 s
      → IsApart x s.space header
  tables_stay_clear s header member swept = record {
    apart = λ segname sectname a inside.
        elim (layout.apart header header member member segname sectname a inside) [
          | inl below ↦ inl below
          | inr over ↦ inr (subst (λ n. n ≤ a) (sym (sizeofcmds-same s header member swept)) over)
        ];
  }

  -- One rebind more.
  extended :
      (s s' : Process) (entry : GlobalRebind) (header : ℕ)
      → In entry entries
      → In header images
      → header ≢ entry.source_header
      → excludes entry.filter header ≡ false
      → IsSwept x images entries s0 s
      → IsRebinding x
          (record {
            header = header;
            replacee_raw = strip_pointer x.platform entry.replacee;
            replacement = entry.replacement;
          })
          s
          s'
      → IsSwept x images entries s0 s'
  extended s s' entry header listed member foreign accepted swept rebinding = record {
    window = rebinding.window ∙ swept.window;
    still = λ y seen. rebinding.still y (swept.still y seen);
    slots = λ a aligned. elim (rebinding.slots a aligned) [
      | inl same ↦ on s.space s'.space a same (swept.slots a aligned)
      | inr r ↦
          replaced entry header r.segname r.sectname (swept.slots a aligned) listed member foreign
            accepted r.in_section r.occupied r.matches r.final
    ];
  }
    where
      on :
          (m m' : Space) (a : ℕ)
          → SameSlot m m' a
          → Course x images entries s0.space a m
          → Course x images entries s0.space a m'
      on m m' a same (kept before) = kept (λ i h. same i h ∙ before i h)
      on m m' a same
            (replaced entry other segname sectname before listed loaded foreign accepted inside
              occupied matches final) =
          replaced entry other segname sectname before listed loaded foreign accepted inside
            occupied matches (λ i h. same i h ∙ final i h)

  pub apply_rebind-IsSwept :
      (s : Process) (entry : GlobalRebind) (header : ℕ)
      → In entry entries
      → In header images
      → IsSwept x images entries s0 s
      → Ensures (IsSwept x images entries s0) (apply_rebind x entry header s)
  unfolding apply_rebind
  apply_rebind-IsSwept s entry header listed member swept =
      let Good : Outcome Process → Type 0 = Ensures (IsSwept x images entries s0) in
      by_test Good (header == null) (λ _. returns swept)
        (λ _.
          by_test Good (header == entry.source_header) (λ _. returns swept)
            (λ foreign.
              by_test Good (excludes entry.filter header) (λ _. returns swept)
                (λ accepted.
                  mono
                    (rebind_symbol_in_image-IsRebinding x s header entry.replacee entry.replacement
                      host (layout.sections header member)
                      (later-IsStorable x header s0.space s.space swept.still
                        (layout.storable header member))
                      (tables_stay_clear s header member swept))
                    (λ s' rebinding.
                      extended s s' entry header listed member
                        (λ e. false≢true (sym foreign ∙ (==_iff header entry.source_header).1 e))
                        accepted swept rebinding))))

  pub handle_image_added-IsSwept :
      (rebinds : List GlobalRebind) (header : ℕ) (s : Process)
      → ((entry : GlobalRebind) → In entry rebinds → In entry entries)
      → In header images
      → IsSwept x images entries s0 s
      → Ensures (IsSwept x images entries s0) (handle_image_added x rebinds header s)
  unfolding handle_image_added
  handle_image_added-IsSwept [] header s listed member swept = returns swept
  handle_image_added-IsSwept (entry ∷ rebinds) header s listed member swept =
      bind (apply_rebind-IsSwept s entry header (listed entry (inl refl)) member swept) λ s' swept'.
        handle_image_added-IsSwept rebinds header s' (λ e h. listed e (inr h)) member swept'

  pub each_image-IsSwept :
      (call : ℕ → Process → Outcome Process) (list : List ℕ) (s : Process)
      → ((header : ℕ) (t : Process)
          → In header list
          → IsSwept x images entries s0 t
          → Ensures (IsSwept x images entries s0) (call header t))
      → IsSwept x images entries s0 s
      → Ensures (IsSwept x images entries s0) (each_image call list s)
  unfolding each_image
  each_image-IsSwept call [] s keeps swept = returns swept
  each_image-IsSwept call (header ∷ list) s keeps swept =
      bind (keeps header s (inl refl) swept) λ s' swept'.
        each_image-IsSwept call list s' (λ h t member held. keeps h t (inr member) held) swept'
