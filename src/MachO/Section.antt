-- ===== src/MachO/Section.antt =====
-- The fields of `section_64`.
use rork_hook.Base.{ℕ, ◌+◌}
use rork_hook.Space.{Space, u32_at}

abbrev pub sectname : ℕ → ℕ
sectname c = c

abbrev pub segname : ℕ → ℕ
segname c = c + 16

abbrev pub flags : Space → ℕ → ℕ
flags m c = u32_at m (c + 64)
