-- ===== src/MachO/Command.antt =====
-- The fields of `struct load_command`, by their offsets.
use rork_hook.Base.{ℕ, ◌+◌}
use rork_hook.Space.{Space, u32_at}

abbrev pub cmd : Space → ℕ → ℕ
cmd m c = u32_at m c

abbrev pub cmdsize : Space → ℕ → ℕ
cmdsize m c = u32_at m (c + 4)
