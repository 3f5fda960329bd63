-- ===== src/MachO/Segment.antt =====
-- The fields of `struct segment_command_64`, by their offsets.
use rork_hook.Base.{ℕ, ◌+◌}
use rork_hook.Space.{Space, u32_at, u64_at}

-- The 16 bytes of the name stand here.
abbrev pub segname : ℕ → ℕ
segname c = c + 8

abbrev pub vmaddr : Space → ℕ → ℕ
vmaddr m c = u64_at m (c + 24)

abbrev pub vmsize : Space → ℕ → ℕ
vmsize m c = u64_at m (c + 32)

abbrev pub fileoff : Space → ℕ → ℕ
fileoff m c = u64_at m (c + 40)

abbrev pub filesize : Space → ℕ → ℕ
filesize m c = u64_at m (c + 48)

abbrev pub nsects : Space → ℕ → ℕ
nsects m c = u32_at m (c + 64)
