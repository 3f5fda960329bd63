-- ===== src/MachO/Symtab.antt =====
-- The fields of `struct symtab_command`, by their offsets.
use rork_hook.Base.{ℕ, ◌+◌}
use rork_hook.Space.{Space, u32_at}

abbrev pub symoff : Space → ℕ → ℕ
symoff m c = u32_at m (c + 8)

abbrev pub nsyms : Space → ℕ → ℕ
nsyms m c = u32_at m (c + 12)

abbrev pub stroff : Space → ℕ → ℕ
stroff m c = u32_at m (c + 16)

abbrev pub strsize : Space → ℕ → ℕ
strsize m c = u32_at m (c + 20)
