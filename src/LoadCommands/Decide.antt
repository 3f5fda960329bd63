-- ===== src/LoadCommands/Decide.antt =====
-- `RorkHookValidateLoadCommands` as a decision.
use mathlib.Core.Logic.{◌⊎◌}
use rork_hook.Base.{ℕ, ◌≡◌, refl, true, sym, ◌∙◌, List, inl, inr}
use rork_hook.Outcome.{Outcome, ok, rejected}
use rork_hook.Outcome.Ensures.{Ensures, returns, rejects}
use rork_hook.Space.{Space}
use rork_hook.Space.Reads.{IsReadable}
use rork_hook.LoadCommands.{validate_load_commands}
use rork_hook.LoadCommands.Table.{IsTable, table_start}
use rork_hook.LoadCommands.Validate.{
  validate_load_commands-IsTable, validate_load_commands_complete,
}

-- A mapping that can be read holds a table, or none.
pub IsTable-cases :
    (m : Space) (header mapped : ℕ)
    → IsReadable m header mapped
    → ((cs : List ℕ) × IsTable m header mapped cs) ⊎ ((cs : List ℕ) → ¬ IsTable m header mapped cs)
IsTable-cases m header mapped r =
    cases (validate_load_commands m header mapped true) refl
      (validate_load_commands-IsTable m header mapped r)
  where
    differs : (a : ℕ) → ¬ (◌≡◌ {A = Outcome ℕ} rejected (ok a))
    differs a e = cc

    cases :
        (o : Outcome ℕ)
        → validate_load_commands m header mapped true ≡ o
        → Ensures (λ cb. (cb ≡ table_start header) × ((cs : List ℕ) × IsTable m header mapped cs)) o
        → ((cs : List ℕ) × IsTable m header mapped cs)
          ⊎ ((cs : List ℕ) → ¬ IsTable m header mapped cs)
    cases _ e (returns (at, table)) = inl table
    cases _ e rejects =
        inr (λ cs t. differs _ (sym e ∙ validate_load_commands_complete m header mapped r cs t))
