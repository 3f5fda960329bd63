-- ===== src/Rebind/Global/Visits.antt =====
-- The images that `RorkHookRebindSymbolGlobally` and `RorkHookHandleImageAdded` go over.
use rork_hook.Base.{
  ℕ, ◌≡◌, ◌≢◌, refl, sym, ◌∙◌, true, false, ◌⊎◌, inl, inr, List, [], ◌∷◌, ◌==◌, ==_iff, by_test,
}
use mathlib.Core.Bool.{false≢true}
use rork_hook.Outcome.{Outcome, ok, rejected, fault}
use rork_hook.Outcome.Ensures.{Leaves, leaves, leaves_rejected, leaves_fault, Leaves-bind}
use rork_hook.Space.{null}
use rork_hook.Pointer.{Process}
use rork_hook.Rebind.{Host, rebind_symbol_in_image}
use rork_hook.Rebind.Global.{GlobalRebind, excludes, apply_rebind, handle_image_added, each_image}

-- An entry passes over its source, an image that its filter excludes, and a null header; on every
-- other image it is a rebind of that image.
pub data Applies (x : Host) (entry : GlobalRebind) (header : ℕ) : Process → Process → Type 0 where
  passed_over :
      {s : Process}
      → (header ≡ null) ⊎ ((header ≡ entry.source_header) ⊎ (excludes entry.filter header ≡ true))
      → Applies x entry header s s
  rebound :
      {s s' : Process}
      → header ≢ null
      → header ≢ entry.source_header
      → excludes entry.filter header ≡ false
      → rebind_symbol_in_image x s header entry.replacee entry.replacement ≡ ok s'
      → Applies x entry header s s'

-- One after the other, each once and in order.
pub data InTurn {A : Type 0} (R : A → Process → Process → Type 0)
    : List A → Process → Process → Type 0 where
  finished : {s : Process} → InTurn R [] s s
  further :
      {a : A} {list : List A} {s s' s'' : Process}
      → R a s s'
      → InTurn R list s' s''
      → InTurn R (a ∷ list) s s''

-- The callback for an image applies the entries, newest first.
abbrev pub Handles : Host → List GlobalRebind → (header : ℕ) → Process → Process → Type 0
Handles x entries header = InTurn (λ entry. Applies x entry header) entries

known_result : (o : Outcome Process) → Leaves (λ s. o ≡ ok s) o
known_result (ok s) = leaves refl
known_result rejected = leaves_rejected
known_result fault = leaves_fault

weaker :
    {P Q : Process → Type 0} {o : Outcome Process}
    → Leaves P o
    → ((s : Process) → P s → Q s)
    → Leaves Q o
weaker (leaves p) next = leaves (next _ p)
weaker leaves_rejected next = leaves_rejected
weaker leaves_fault next = leaves_fault

differ : (a b : ℕ) → (a == b) ≡ false → a ≢ b
differ a b e is = false≢true (sym e ∙ (==_iff a b).1 is)

module _ (x : Host) where
  pub apply_rebind-Applies :
      (entry : GlobalRebind) (header : ℕ) (s : Process)
      → Leaves (Applies x entry header s) (apply_rebind x entry header s)
  unfolding apply_rebind
  apply_rebind-Applies entry header s =
      let Good : Outcome Process → Type 0 = Leaves (Applies x entry header s) in
      by_test Good (header == null)
        (λ is_null. leaves (passed_over (inl ((==_iff header null).0 is_null))))
        (λ nonnull.
          by_test Good (header == entry.source_header)
            (λ own. leaves (passed_over (inr (inl ((==_iff header entry.source_header).0 own)))))
            (λ foreign.
              by_test Good (excludes entry.filter header)
                (λ excluded. leaves (passed_over (inr (inr excluded))))
                (λ accepted.
                  weaker
                    (known_result
                      (rebind_symbol_in_image x s header entry.replacee entry.replacement))
                    λ s' e.
                      rebound (differ header null nonnull)
                        (differ header entry.source_header foreign) accepted e)))

  pub handle_image_added-Handles :
      (entries : List GlobalRebind) (header : ℕ) (s : Process)
      → Leaves (Handles x entries header s) (handle_image_added x entries header s)
  unfolding handle_image_added
  handle_image_added-Handles [] header s = leaves finished
  handle_image_added-Handles (entry ∷ entries) header s =
      Leaves-bind (apply_rebind-Applies entry header s) λ s' first.
        weaker (handle_image_added-Handles entries header s') λ s'' rest. further first rest

  pub each_image-InTurn :
      {R : ℕ → Process → Process → Type 0} (call : ℕ → Process → Outcome Process) (images : List ℕ)
      (s : Process)
      → ((header : ℕ) (t : Process) → Leaves (R header t) (call header t))
      → Leaves (InTurn R images s) (each_image call images s)
  unfolding each_image
  each_image-InTurn call [] s calls = leaves finished
  each_image-InTurn call (header ∷ images) s calls =
      Leaves-bind (calls header s)
        λ s' first. weaker (each_image-InTurn call images s' calls) λ s'' rest. further first rest
