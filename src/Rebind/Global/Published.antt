-- ===== src/Rebind/Global/Published.antt =====
-- The branches of `RorkHookRebindSymbolGlobally`.
use rork_hook.Base.{
  ℕ, ◌≡◌, refl, sym, ◌∙◌, Bool, true, false, not, ◌||◌, inl, Option, some, ◌∷◌, ◌==◌, if◌then◌else◌,
  by_test, by_option, List, ==_iff,
}
use mathlib.Core.Bool.{false≢true}
use rork_hook.Outcome.{Outcome, ok}
use rork_hook.Outcome.Ensures.{Ensures, returns, bind, mono, both, Leaves, leaves}
use rork_hook.Space.{null}
use rork_hook.Platform.{strip_pointer}
use rork_hook.Pointer.{Process}
use rork_hook.Rebind.{Host}
use rork_hook.Rebind.Slots.{IsHost}
use rork_hook.Rebind.Global.{
  GlobalRebind, apply_rebind, handle_image_added, Loader, Globals, add_image_callback,
  publish_rebind, rebind_symbol_globally,
}
use rork_hook.Rebind.Global.Visits.{
  Applies, passed_over, InTurn, Handles, apply_rebind-Applies, handle_image_added-Handles,
  each_image-InTurn,
}
use rork_hook.Rebind.Global.Swept.{
  IsSwept, IsLaidOut, IsSwept-refl, apply_rebind-IsSwept, handle_image_added-IsSwept,
  each_image-IsSwept,
}

-- The registration of the callback: if it was registered before, it does nothing; if not, every image
-- has its callback, with the entries of the list.
pub data Registers (x : Host) (images : List ℕ) (entries : List GlobalRebind) (registered : Bool)
    : Process → Process → Type 0 where
  already : {s : Process} → registered ≡ true → Registers x images entries registered s s
  called_back :
      {s s' : Process}
      → registered ≡ false
      → InTurn (Handles x entries) images s s'
      → Registers x images entries registered s s'

-- The entry is in front and the callback is registered; after the registration the entry is applied to
-- every image in turn; and memory changed as entries and images have it.
pub record IsAdded (x : Host) (loader : Loader) (g g' : Globals) (entry : GlobalRebind)
    : Type 0 where
  pub rebinds : g'.rebinds ≡ entry ∷ g.rebinds
  pub callback_added : g'.callback_added ≡ true
  pub registered : Process
  pub registration :
      Registers x loader.images (entry ∷ g.rebinds) g.callback_added g.process registered
  pub enumeration : InTurn (Applies x entry) loader.images registered g'.process
  pub swept : IsSwept x loader.images (entry ∷ g.rebinds) g.process g'.process

-- Either the answer is negative and nothing has changed, or the entry of the arguments is added.
pub record IsGlobal (x : Host) (loader : Loader) (g : Globals) (replacee replacement : ℕ)
    (filter : Option (ℕ → Bool)) (r : Bool × Globals) : Type 0 where
  pub refused : r.0 ≡ false → r.1 ≡ g
  pub accepted :
      r.0 ≡ true
      → (base : ℕ) × (loader.dladdr (strip_pointer x.platform replacement) ≡ some base)
        × IsAdded x loader g r.1 (record {
          source_header = base;
          replacee = replacee;
          replacement = replacement;
          filter = filter;
        })

module _ (x : Host) (host : IsHost x) (loader : Loader) (g : Globals)
    (layout : IsLaidOut x loader.images g.process.space) where
  abbrev Reached : GlobalRebind → Process → Type 0
  Reached entry = IsSwept x loader.images (entry ∷ g.rebinds) g.process

  add_image_callback-Ensures :
      (entry : GlobalRebind)
      → Ensures
          (λ (g' : Globals).
            (g'.rebinds ≡ entry ∷ g.rebinds)
            × (g'.callback_added ≡ true)
            × Reached entry g'.process
            × Registers x loader.images (entry ∷ g.rebinds) g.callback_added g.process g'.process)
          (add_image_callback x loader (record g { rebinds = entry ∷ g.rebinds }))
  unfolding add_image_callback
  add_image_callback-Ensures entry =
      by_test
        (Ensures λ (g' : Globals).
          (g'.rebinds ≡ entry ∷ g.rebinds)
          × (g'.callback_added ≡ true)
          × Reached entry g'.process
          × Registers x loader.images (entry ∷ g.rebinds) g.callback_added g.process g'.process)
        g.callback_added
        (λ added. returns (refl, added, IsSwept-refl x loader.images _ g.process, already added))
        (λ new.
          bind
            (both
              (each_image-IsSwept x host loader.images (entry ∷ g.rebinds) g.process layout
                (handle_image_added x (entry ∷ g.rebinds)) loader.images g.process
                (λ header t member swept.
                  handle_image_added-IsSwept x host loader.images (entry ∷ g.rebinds) g.process
                    layout (entry ∷ g.rebinds) header t (λ e h. h) member swept)
                (IsSwept-refl x loader.images _ g.process))
              (each_image-InTurn x {R = Handles x (entry ∷ g.rebinds)}
                (handle_image_added x (entry ∷ g.rebinds)) loader.images g.process
                (λ header t. handle_image_added-Handles x (entry ∷ g.rebinds) header t)))
            λ s (swept, turns). returns (refl, refl, swept, called_back new turns))

  publish_rebind-Ensures :
      (entry : GlobalRebind)
      → Ensures
          (λ (r : Bool × Globals). (r.0 ≡ true) × IsAdded x loader g r.1 entry)
          (publish_rebind x loader g entry)
  unfolding publish_rebind
  publish_rebind-Ensures entry =
      bind (add_image_callback-Ensures entry) λ g' (rebinds, added, reached, registration).
        bind
          (both
            (each_image-IsSwept x host loader.images (entry ∷ g.rebinds) g.process layout
              (λ header t. if header == null then ok t else apply_rebind x entry header t)
              loader.images g'.process
              (λ header t member swept.
                by_test (Ensures (Reached entry)) (header == null) (λ _. returns swept)
                  (λ _.
                    apply_rebind-IsSwept x host loader.images (entry ∷ g.rebinds) g.process layout t
                      entry header (inl refl) member swept))
              reached)
            (each_image-InTurn x {R = Applies x entry}
              (λ header t. if header == null then ok t else apply_rebind x entry header t)
              loader.images g'.process
              (λ header t.
                by_test (Leaves (Applies x entry header t)) (header == null)
                  (λ is_null. leaves (passed_over (inl ((==_iff header null).0 is_null))))
                  (λ _. apply_rebind-Applies x entry header t))))
          λ s (swept, turns). returns (
            refl,
            record {
              rebinds = rebinds;
              callback_added = added;
              registered = g'.process;
              registration = registration;
              enumeration = turns;
              swept = swept;
            },
          )

  -- On a host and images as the rebind of an image needs them, with no slot of one image in the
  -- header or the commands of another, a global rebind reads and writes nothing without permission;
  -- if it answers no, nothing has changed; and if it answers yes, its entry with the image that
  -- dladdr gives for the stripped replacement is in front of the list, and the callback is
  -- registered, which calls back for every image if it was not before; then the entry is applied to
  -- each image in turn, as a rebind of the image unless it is null, the source of the entry or
  -- excluded by its filter; and the course of every aligned slot is that it stays, or that entries
  -- of the list find their replacee in it and leave their final value, in a section of a loaded
  -- image that is not the source of the entry and that its filter accepts.
  pub rebind_symbol_globally-IsGlobal :
      (replacee replacement : ℕ) (filter : Option (ℕ → Bool))
      → Ensures
          (IsGlobal x loader g replacee replacement filter)
          (rebind_symbol_globally x loader g replacee replacement filter)
  unfolding rebind_symbol_globally
  rebind_symbol_globally-IsGlobal replacee replacement filter =
      let Good : Outcome (Bool × Globals) → Type 0 =
        Ensures (IsGlobal x loader g replacee replacement filter) in
      let refuse : Good (ok (false, g)) =
        returns (record { refused = λ _. refl; accepted = λ e. absurd (false≢true e) }) in
      by_test Good (replacee == null || replacement == null) (λ _. refuse)
        (λ _.
          by_option Good (loader.dladdr (strip_pointer x.platform replacement)) (λ _. refuse)
            (λ base is_base.
              by_test Good (base == null) (λ _. refuse)
                (λ _.
                  by_test Good (not loader.malloc) (λ _. refuse)
                    (λ _.
                      mono
                        (publish_rebind-Ensures (record {
                          source_header = base;
                          replacee = replacee;
                          replacement = replacement;
                          filter = filter;
                        }))
                        λ r (yes_, added). record {
                          refused = λ e. absurd (false≢true (sym e ∙ yes_));
                          accepted = λ _. (base, is_base, added);
                        }))))
