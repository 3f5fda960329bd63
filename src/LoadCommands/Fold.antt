-- ===== src/LoadCommands/Fold.antt =====
-- `RorkHookForEachLoadCommandWithSize` with visitors that compute a step.
use rork_hook.Base.{
  ℕ, ◌+◌, ◌≤◌, ◌<◌, ◌≡◌, ◌≢◌, refl, List, [], ◌∷◌, arith, Bool, true, false, ◌∙◌, ap,
}
use rork_hook.Outcome.{Outcome, ok, rejected}
use rork_hook.Outcome.Ensures.{Ensures, returns, rejects}
use rork_hook.Space.{Space, null, u32_at}
use rork_hook.Space.Reads.{IsReadable, IsReadable-part}
use rork_hook.LoadCommands.{for_each_load_command_with_size, Visitor, cmdsize_offset}
use rork_hook.LoadCommands.Table.{IsCommand, Commands, IsTable, table_start, table_stop, visit_list}
use rork_hook.LoadCommands.Validate.{validate_load_commands-IsTable}
use rork_hook.LoadCommands.Visit.{for_each-visit_list}

module _ {S : Type 0} (step : (c : ℕ) → S → Bool × S) where
  -- The steps in order, up to the first that stops.
  unfoldable pub fold_visit : List ℕ → S → S
  fold_visit [] s = s
  fold_visit (c ∷ cs) s =
      let (go_on, s') = step c s in elim go_on [ false ↦ s' | true ↦ fold_visit cs s' ]

  abbrev after : List ℕ → Bool × S → S
  after cs result = elim result.0 [ false ↦ result.1 | true ↦ fold_visit cs result.1 ]

  pub fold_visit-stop :
      (c : ℕ) (cs : List ℕ) (s s' : S) → step c s ≡ (false, s') → fold_visit (c ∷ cs) s ≡ s'
  unfolding fold_visit
  fold_visit-stop c cs s s' e = ap (after cs) e

  pub fold_visit-go :
      (c : ℕ) (cs : List ℕ) (s s' : S)
      → step c s ≡ (true, s')
      → fold_visit (c ∷ cs) s ≡ fold_visit cs s'
  unfolding fold_visit
  fold_visit-go c cs s s' e = ap (after cs) e

  module _ (m : Space) (visitor : Visitor S) where
    -- The visitor takes this step at every command of a readable table.
    abbrev pub Computes : Type 0
    Computes =
        (c index : ℕ) (s : S)
        → 8 ≤ u32_at m (c + cmdsize_offset)
        → IsReadable m c (u32_at m (c + cmdsize_offset))
        → c ≢ null
        → visitor c index s ≡ ok (step c s)

    visit_list-fold :
        (stop a : ℕ) (cs : List ℕ) (index : ℕ) (s : S)
        → 0 < a
        → Computes
        → ((c : ℕ) → IsCommand m stop c → a ≤ c → IsReadable m c (u32_at m (c + cmdsize_offset)))
        → Commands m stop a cs
        → visit_list visitor index cs s ≡ ok (fold_visit cs s)
    unfolding fold_visit visit_list
    visit_list-fold stop a [] index s positive computes reads h = refl
    visit_list-fold stop a (c ∷ cs) index s positive computes reads (at, is, rest) =
        rw
          (
            at,
            computes a index s is.large (reads a is (omega arith))
                (λ e. omega (arith, e, positive)),
          )
          (choose (step a s).0 (step a s).1 _ _ (
            visit_list-fold stop (a + u32_at m (a + cmdsize_offset)) cs (index + 1) (step a s).1
              (omega arith) computes (λ c' is' low. reads c' is' (omega arith)) rest))
      where
        choose :
            (go_on : Bool) (s' t : S) (further : Outcome S)
            → further ≡ ok t
            → ◌≡◌ {A = Outcome S}
                (elim go_on [ false ↦ ok s' | true ↦ further ])
                (ok (elim go_on [ false ↦ s' | true ↦ t ]))
        choose true s' t further e = e
        choose false s' t further e = refl

    pub for_each-fold :
        (header mapped : ℕ) (cs : List ℕ) (s : S)
        → IsReadable m header mapped
        → IsTable m header mapped cs
        → Computes
        → for_each_load_command_with_size (λ _. m) visitor header mapped s ≡ ok (fold_visit cs s)
    for_each-fold header mapped cs s r t computes =
        for_each-visit_list m visitor header mapped cs s r t
        ∙ visit_list-fold (table_stop m header) (table_start header) cs 0 s (omega arith) computes
            (λ c is low. IsReadable-part _ _ r (omega arith) (omega (arith, is.inside, t.fits)))
            t.commands

-- On a readable mapping that holds no table the walk fails, whatever the visitor is: no callback
-- runs.
pub for_each-rejected :
    {S : Type 0} (m : Space) (visitor : Visitor S) (header mapped : ℕ) (s : S)
    → IsReadable m header mapped
    → ((cs : List ℕ) → ¬ IsTable m header mapped cs)
    → for_each_load_command_with_size (λ _. m) visitor header mapped s ≡ rejected
unfolding for_each_load_command_with_size
for_each-rejected m visitor header mapped s r no_table =
    rw
      (rejected_of (validate_load_commands-IsTable m header mapped r)
        λ cb (at, (cs, t)). no_table cs t)
      refl
  where
    rejected_of : {P : ℕ → Type 0} {o : Outcome ℕ} → Ensures P o → ((a : ℕ) → ¬ P a) → o ≡ rejected
    rejected_of (returns p) none_is = absurd (none_is _ p)
    rejected_of rejects none_is = refl
