-- ===== src/SharedCache/Format/Header.antt =====
-- `RorkHookDyldCacheHeader`.
use rork_hook.Base.{ℕ, ◌+◌}
use rork_hook.Space.{Space, u32_at, u64_at}

abbrev pub mapping_offset : Space → ℕ → ℕ
mapping_offset m h = u32_at m (h + 16)

abbrev pub images_offset_old : Space → ℕ → ℕ
images_offset_old m h = u32_at m (h + 24)

abbrev pub images_count_old : Space → ℕ → ℕ
images_count_old m h = u32_at m (h + 28)

abbrev pub local_symbols_offset : Space → ℕ → ℕ
local_symbols_offset m h = u64_at m (h + 72)

abbrev pub local_symbols_size : Space → ℕ → ℕ
local_symbols_size m h = u64_at m (h + 80)

abbrev pub images_offset : Space → ℕ → ℕ
images_offset m h = u32_at m (h + 448)

abbrev pub images_count : Space → ℕ → ℕ
images_count m h = u32_at m (h + 452)
