-- ===== src/SharedCache/Format/LocalInfo.antt =====
-- `RorkHookDyldCacheLocalSymbolsInfo`.
use rork_hook.Base.{ℕ, ◌+◌}
use rork_hook.Space.{Space, u32_at}

abbrev pub nlist_offset : Space → ℕ → ℕ
nlist_offset m i = u32_at m i

abbrev pub nlist_count : Space → ℕ → ℕ
nlist_count m i = u32_at m (i + 4)

abbrev pub strings_offset : Space → ℕ → ℕ
strings_offset m i = u32_at m (i + 8)

abbrev pub strings_size : Space → ℕ → ℕ
strings_size m i = u32_at m (i + 12)

abbrev pub entries_offset : Space → ℕ → ℕ
entries_offset m i = u32_at m (i + 16)

abbrev pub entries_count : Space → ℕ → ℕ
entries_count m i = u32_at m (i + 20)
