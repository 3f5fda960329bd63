-- ===== src/Rebind/Registry/Covered.antt =====
-- What holds in every interleaving of RorkHookRebind.c with dyld.
use Prim.Native.Nat.{ℕ}
use mathlib.Core.Path.{◌≡◌, refl, ◌∙◌}
use mathlib.Core.Logic.{inl, inr}
use mathlib.Core.Bool.{true}
use mathlib.Core.List.{List, [], ◌∷◌}
use rork_hook.Base.{◌==◌, ==_iff, Bool-cases, In}
use rork_hook.Rebind.Registry.{
  Call, not_called, linking, published, callback_ready, enumerating, returned, Notice, quiet,
  pending, running, Shared, is_in,
}

-- The entry is in the list.
abbrev pub IsPublished : Call → Type 0
IsPublished not_called = ⊥
IsPublished (linking head) = ⊥
IsPublished published = Unit
IsPublished callback_ready = Unit
IsPublished (enumerating left) = Unit
IsPublished returned = Unit

-- The callback is registered.
abbrev pub IsReady : Call → Type 0
IsReady not_called = ⊥
IsReady (linking head) = ⊥
IsReady published = ⊥
IsReady callback_ready = Unit
IsReady (enumerating left) = Unit
IsReady returned = Unit

-- The images are counted.
abbrev pub IsCounted : Call → Type 0
IsCounted not_called = ⊥
IsCounted (linking head) = ⊥
IsCounted published = ⊥
IsCounted callback_ready = ⊥
IsCounted (enumerating left) = Unit
IsCounted returned = Unit

pub counted_is_past_once : (c : Call) → IsCounted c → IsReady c
counted_is_past_once not_called h = absurd h
counted_is_past_once (linking head) h = absurd h
counted_is_past_once published h = absurd h
counted_is_past_once callback_ready h = absurd h
counted_is_past_once (enumerating left) h = tt
counted_is_past_once returned h = tt

pub counted_is_past_link : (c : Call) → IsCounted c → IsPublished c
counted_is_past_link not_called h = absurd h
counted_is_past_link (linking head) h = absurd h
counted_is_past_link published h = absurd h
counted_is_past_link callback_ready h = absurd h
counted_is_past_link (enumerating left) h = tt
counted_is_past_link returned h = tt

-- The entry is applied to the image, or it will be: by a callback that is due or that runs with the
-- entry before it, or by the call of the entry.
pub data IsCovered (w : Shared) (e i : ℕ) : Type 0 where
  is_applied : In (e, i) w.applied → IsCovered w e i
  is_pending : w.notices i ≡ pending → IsCovered w e i
  is_running : (left : List ℕ) → w.notices i ≡ running left → In e left → IsCovered w e i
  is_enumerated : (left : List ℕ) → w.calls e ≡ enumerating left → In i left → IsCovered w e i

pub record IsConsistent (w : Shared) : Type 0 where
  pub listed : (e : ℕ) → IsPublished (w.calls e) → In e w.rebinds
  pub ready : (e : ℕ) → IsReady (w.calls e) → w.callback_added ≡ true
  pub covered : (e i : ℕ) → IsCounted (w.calls e) → In i w.images → IsCovered w e i

pub In-is_in : (a : ℕ) (xs : List ℕ) → In a xs → is_in a xs ≡ true
In-is_in a [] h = absurd h
In-is_in a (x ∷ xs) (inl e) = rw (e, (==_iff x x).1 refl) refl
In-is_in a (x ∷ xs) (inr h) = elim (Bool-cases (a == x)) [
  | inl same ↦ rw same refl
  | inr other ↦ rw (other, In-is_in a xs h) refl
]

-- Where neither the notice of the image nor the call of the entry changes.
pub carry :
    {w w' : Shared} {e i : ℕ}
    → w'.notices i ≡ w.notices i
    → w'.calls e ≡ w.calls e
    → (In (e, i) w.applied → In (e, i) w'.applied)
    → IsCovered w e i
    → IsCovered w' e i
carry n c more (is_applied h) = is_applied (more h)
carry n c more (is_pending h) = is_pending (n ∙ h)
carry n c more (is_running left h k) = is_running left (n ∙ h) k
carry n c more (is_enumerated left h k) = is_enumerated left (c ∙ h) k

abbrev pub enumerated : Call → List ℕ
enumerated (enumerating left) = left
enumerated c = []

abbrev pub noticed : Notice → List ℕ
noticed (running left) = left
noticed quiet = []
noticed pending = []
