-- ===== src/Tests/GlobalRuns.antt =====
-- Runs of the registry of rebinds.
use rork_hook.Base.{
  ℕ, ◌+◌, ◌≤◌, ◌≡◌, refl, arith, true, false, none, some, List, [], ◌∷◌, ◌⊎◌, inl, inr, In, by_test,
}
use mathlib.Core.Path.{subst, sym}
use rork_hook.Base.Texts.{codes, same_text}
use rork_hook.Outcome.Ensures.{Ensures}
use rork_hook.Space.{u32_at}
use rork_hook.LoadCommands.Table.{table_stop}
use rork_hook.Rebind.Slots.{IsLoaded, IsStorable, IsSlotOf}
use rork_hook.Rebind.Global.{Loader, Globals, rebind_symbol_globally}
use rork_hook.Rebind.Global.Swept.{IsLaidOut}
use rork_hook.Rebind.Global.Published.{IsGlobal, rebind_symbol_globally-IsGlobal}
use rork_hook.Rebind.Registry.{
  Shared, initial, start, later, Steps, call, exchange, once, notify, count_images, visit_image,
  apply_entry, callback_returns, return_true, returned, set_call, publish, add_callback, visit,
  set_notice, apply_next,
}
use rork_hook.Rebind.Registry.Applied.{Reach-applied}
use rork_hook.Rebind.Registry.Finish.{Reach-finishes}
use rork_hook.Tests.RebindRuns.{
  host, before, pointer_space, host-IsHost, host-IsLoaded, host-IsStorable,
}

-- One image; every address lies in another one.
abbrev loader : Loader
loader = record { dladdr = λ a. some 0x5000; images = 0x1000 ∷ []; malloc = true }

abbrev globals : Globals
globals = record { rebinds = []; callback_added = false; process = before }

slots_apart :
    (segname sectname : List ℕ) (header a : ℕ)
    → IsSlotOf host header segname sectname a
    → (a + 8 ≤ 0x1000) ⊎ (0x10b8 ≤ a)
slots_apart segname sectname header a =
    by_test (λ (r : ℕ × ℕ). (r.0 ≤ a) × (a + 8 ≤ r.0 + r.1) → (a + 8 ≤ 0x1000) ⊎ (0x10b8 ≤ a))
      (same_text sectname (codes "__got")) (λ _ h. inr (omega (arith, h)))
      (λ _ h. absurd (omega (arith, h)))

globals-IsLaidOut : IsLaidOut host (0x1000 ∷ []) pointer_space
unfolding u32_at
globals-IsLaidOut = record {
  sections = λ header member. elim member [
    | inl same ↦ subst (IsLoaded host) (sym same) host-IsLoaded
    | inr none_left ↦ absurd none_left
  ];
  storable = λ header member. elim member [
    | inl same ↦ subst (λ h. IsStorable host h pointer_space) (sym same) host-IsStorable
    | inr none_left ↦ absurd none_left
  ];
  apart = λ header other member member' segname sectname a inside. elim member' [
    | inl same ↦
        subst (λ o. (a + 8 ≤ o) ⊎ (table_stop pointer_space o ≤ a)) (sym same)
          (slots_apart segname sectname header a inside)
    | inr none_left ↦ absurd none_left
  ];
}

rebind_symbol_globally-IsGlobal_example :
    Ensures
      (IsGlobal host loader globals 0x7004 0x7010 none)
      (rebind_symbol_globally host loader globals 0x7004 0x7010 none)
rebind_symbol_globally-IsGlobal_example =
    rebind_symbol_globally-IsGlobal host host-IsHost loader globals globals-IsLaidOut 0x7004 0x7010
      none

-- The call of entry 1 and the callback for the image 5, interleaved.
Reach-applied_example : In {A = ℕ × ℕ} (1, 5) ((1, 5) ∷ (1, 5) ∷ [])
unfolding initial set_call publish add_callback visit set_notice apply_next
Reach-applied_example =
    Reach-applied (5 ∷ []) _ 1 5
      (later
        (later
          (later
            (later
              (later
                (later
                  (later (later (later start (call 1 refl)) (exchange 1 refl)) (once 1 refl refl))
                  (notify 5 refl))
                (count_images 1 refl))
              (visit_image 1 5 [] refl))
            (apply_entry 1 5 [] refl))
          (callback_returns 5 refl))
        (return_true 1 refl))
      refl (inl refl) refl

Reach-finishes_example :
    (w : Shared) × Steps (initial (5 ∷ [])) w
    × (w.calls 1 ≡ returned)
    × (w.images ≡ (initial (5 ∷ [])).images)
    × ((i : ℕ) → In i (initial (5 ∷ [])).images → In (1, i) w.applied)
Reach-finishes_example = Reach-finishes (5 ∷ []) (initial (5 ∷ [])) 1 start
