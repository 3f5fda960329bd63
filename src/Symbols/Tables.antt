-- ===== src/Symbols/Tables.antt =====
-- The commands that `RorkHookFindSymtab` finds in a readable mapping.
use rork_hook.Base.{ℕ, ◌≡◌, refl, List, ◌⊎◌, inl, inr}
use rork_hook.Outcome.{ok}
use rork_hook.Space.{Space, null}
use rork_hook.Space.Reads.{IsReadable}
use rork_hook.LoadCommands.Table.{IsTable}
use rork_hook.LoadCommands.Fold.{for_each-rejected}
use rork_hook.LoadCommands.Decide.{IsTable-cases}
use rork_hook.Symbols.{find_symtab, find_symtab_load_command}
use rork_hook.Symbols.Locate.{is_symtab, is_linkedit, last_such, find_symtab-last_such}

-- The last symbol-table command and the last `__LINKEDIT` segment.
abbrev pub symtab_of : Space → List ℕ → ℕ
symtab_of m commands = last_such (is_symtab m) null commands

abbrev pub linkedit_of : Space → List ℕ → ℕ
linkedit_of m commands = last_such (is_linkedit m) null commands

-- There is a table and they are found in it, or there is none and neither is found.
pub find_symtab-cases :
    (m : Space) (header mapped : ℕ)
    → IsReadable m header mapped
    → ((cs : List ℕ) × IsTable m header mapped cs
        × (find_symtab m header mapped
            ≡ ok (record { symtab = symtab_of m cs; linkedit = linkedit_of m cs })))
      ⊎ (find_symtab m header mapped ≡ ok (record { symtab = null; linkedit = null }))
unfolding find_symtab
find_symtab-cases m header mapped r = elim (IsTable-cases m header mapped r) [
  | inl (cs, table) ↦ inl (cs, table, find_symtab-last_such m header mapped cs r table)
  | inr no_table ↦ inr (
      rw
        (
          find_symtab,
          for_each-rejected m (find_symtab_load_command m) header mapped
              (record { symtab = null; linkedit = null }) r no_table,
        )
        refl)
]
