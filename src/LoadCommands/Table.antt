-- ===== src/LoadCommands/Table.antt =====
-- What a valid load-command table is, apart from how the source checks it.
use rork_hook.Base.{ℕ, ◌+◌, ◌*◌, ◌%◌, ◌≤◌, ◌≡◌, ◌≢◌, List, [], ◌∷◌, arith, length, true, false}
use rork_hook.Outcome.{Outcome, ok, ◌>>=◌}
use rork_hook.Space.{Space, null, u32_at}
use rork_hook.LoadCommands.{
  sizeof_header, mh_magic, ncmds_offset, sizeofcmds_offset, cmdsize_offset, Visitor,
}

-- A command at `a` of a legal size that ends by `stop`.
pub record IsCommand (m : Space) (stop a : ℕ) : Type 0 where
  pub large : 8 ≤ u32_at m (a + cmdsize_offset)
  pub aligned : u32_at m (a + cmdsize_offset) % 8 ≡ 0
  pub inside : a + u32_at m (a + cmdsize_offset) ≤ stop

-- Commands lie back to back from `a` to `stop`, at the listed addresses.
abbrev pub Commands : Space → (stop a : ℕ) → List ℕ → Type 0
Commands m stop a [] = a ≡ stop
Commands m stop a (c ∷ cs) =
    (c ≡ a) × IsCommand m stop a × Commands m stop (a + u32_at m (a + cmdsize_offset)) cs

abbrev pub table_start : ℕ → ℕ
table_start header = header + sizeof_header

abbrev pub table_stop : Space → ℕ → ℕ
table_stop m header = header + sizeof_header + u32_at m (header + sizeofcmds_offset)

-- The mapping of `mapped_size` bytes at `header` begins with a header whose commands are listed.
pub record IsTable (m : Space) (header mapped_size : ℕ) (cs : List ℕ) : Type 0 where
  pub nonnull : header ≢ null
  pub magic : u32_at m header ≡ mh_magic
  pub fits : table_stop m header ≤ header + mapped_size
  pub counted : length cs ≡ u32_at m (header + ncmds_offset)
  pub commands : Commands m (table_stop m header) (table_start header) cs

-- The callbacks in order, up to the first that stops.
unfoldable pub visit_list : {S : Type 0} → Visitor S → (index : ℕ) → List ℕ → S → Outcome S
visit_list visitor index [] s = ok s
visit_list visitor index (c ∷ cs) s = do
  (go_on, s') ← visitor c index s
  elim go_on [ false ↦ ok s' | true ↦ visit_list visitor (index + 1) cs s' ]

-- Every command takes eight bytes at least.
pub Commands-length :
    (m : Space) (stop a : ℕ) (cs : List ℕ) → Commands m stop a cs → length cs * 8 + a ≤ stop
Commands-length m stop a [] h = omega arith
Commands-length m stop a (c ∷ cs) (at, is, rest) =
    let room = Commands-length m stop (a + u32_at m (a + cmdsize_offset)) cs rest in
    omega (arith, is.large)
