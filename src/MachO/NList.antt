-- ===== src/MachO/NList.antt =====
-- The fields of `struct nlist_64`, by their offsets.
use rork_hook.Base.{ℕ, ◌+◌}
use rork_hook.Space.{Space, byte_at, u32_at, u64_at}

abbrev pub n_strx : Space → ℕ → ℕ
n_strx m e = u32_at m e

abbrev pub n_type : Space → ℕ → ℕ
n_type m e = byte_at m (e + 4)

abbrev pub n_value : Space → ℕ → ℕ
n_value m e = u64_at m (e + 8)
