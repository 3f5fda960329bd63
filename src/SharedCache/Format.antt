-- ===== src/SharedCache/Format.antt =====
-- The on-disk records of Sources/RorkHook/private/RorkHookDyldCache.h: sizes and the offsets of the
-- fields that the parser reads, as the header's static assertions state them.
pub mod Header
pub mod LocalInfo
pub mod Layout
use rork_hook.Base.{ℕ, ◌+◌, List, [], ◌∷◌}
use rork_hook.Space.{Space, u32_at}

abbrev pub sizeof_header : ℕ
sizeof_header = 456

abbrev pub sizeof_image_info : ℕ
sizeof_image_info = 32

abbrev pub sizeof_local_symbols_info : ℕ
sizeof_local_symbols_info = 24

abbrev pub sizeof_entry32 : ℕ
sizeof_entry32 = 12

abbrev pub sizeof_entry64 : ℕ
sizeof_entry64 = 16

-- offsetof(RorkHookDyldCacheHeader, symbolFileUUID)
abbrev pub symbol_file_uuid_offset : ℕ
symbol_file_uuid_offset = 400

-- "dyld_v1"
abbrev pub cache_magic : List ℕ
cache_magic = b'd' ∷ b'y' ∷ b'l' ∷ b'd' ∷ b'_' ∷ b'v' ∷ b'1' ∷ []

-- `pathFileOffset` of an image record.
abbrev pub path_file_offset : Space → ℕ → ℕ
path_file_offset m r = u32_at m (r + 24)

-- `nlistStartIndex` and `nlistCount` of the two per-image entries.
abbrev pub entry32_start : Space → ℕ → ℕ
entry32_start m r = u32_at m (r + 4)

abbrev pub entry32_count : Space → ℕ → ℕ
entry32_count m r = u32_at m (r + 8)

abbrev pub entry64_start : Space → ℕ → ℕ
entry64_start m r = u32_at m (r + 8)

abbrev pub entry64_count : Space → ℕ → ℕ
entry64_count m r = u32_at m (r + 12)
