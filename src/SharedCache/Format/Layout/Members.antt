-- ===== src/SharedCache/Format/Layout/Members.antt =====
-- The offsets that the parser of RorkHookSharedCache.c reads at, against the members of its records.
use native.Mathlib.Nat.{add-zero}
use rork_hook.Base.{ℕ, ◌≡◌, refl, ap, some}
use rork_hook.Base.Texts.{codes}
use rork_hook.Space.{Space, u32_at}
use rork_hook.SharedCache.Format.{
  sizeof_header, sizeof_image_info, sizeof_local_symbols_info, sizeof_entry32, sizeof_entry64,
  symbol_file_uuid_offset, path_file_offset, entry32_start, entry32_count, entry64_start,
  entry64_count,
}
use rork_hook.SharedCache.Format.Header
use rork_hook.SharedCache.Format.LocalInfo
use rork_hook.SharedCache.Format.Layout.{
  LayoutAssertions, offset_from, end_from, size_of, total, member_size, read_member, cache_header,
  image_info, local_symbols_info, local_symbols_entry32, local_symbols_entry64,
}

-- The members that the parser reads, at their places.
abbrev pub ReadsMembers : Space → (r : ℕ) → Type 0
ReadsMembers m r =
    (read_member m cache_header r (codes "mappingOffset") ≡ some (Header.mapping_offset m r))
    × (read_member m cache_header r (codes "imagesOffsetOld") ≡ some (Header.images_offset_old m r))
    × (read_member m cache_header r (codes "imagesCountOld") ≡ some (Header.images_count_old m r))
    × (read_member m cache_header r (codes "localSymbolsOffset")
        ≡ some (Header.local_symbols_offset m r))
    × (read_member m cache_header r (codes "localSymbolsSize")
        ≡ some (Header.local_symbols_size m r))
    × (read_member m cache_header r (codes "imagesOffset") ≡ some (Header.images_offset m r))
    × (read_member m cache_header r (codes "imagesCount") ≡ some (Header.images_count m r))
    × (read_member m local_symbols_info r (codes "nlistOffset") ≡ some (LocalInfo.nlist_offset m r))
    × (read_member m local_symbols_info r (codes "nlistCount") ≡ some (LocalInfo.nlist_count m r))
    × (read_member m local_symbols_info r (codes "stringsOffset")
        ≡ some (LocalInfo.strings_offset m r))
    × (read_member m local_symbols_info r (codes "stringsSize") ≡ some (LocalInfo.strings_size m r))
    × (read_member m local_symbols_info r (codes "entriesOffset")
        ≡ some (LocalInfo.entries_offset m r))
    × (read_member m local_symbols_info r (codes "entriesCount")
        ≡ some (LocalInfo.entries_count m r))
    × (read_member m image_info r (codes "pathFileOffset") ≡ some (path_file_offset m r))
    × (read_member m local_symbols_entry32 r (codes "nlistStartIndex") ≡ some (entry32_start m r))
    × (read_member m local_symbols_entry32 r (codes "nlistCount") ≡ some (entry32_count m r))
    × (read_member m local_symbols_entry64 r (codes "nlistStartIndex") ≡ some (entry64_start m r))
    × (read_member m local_symbols_entry64 r (codes "nlistCount") ≡ some (entry64_count m r))

-- The sizes that the parser uses, none of which has padding in it.
abbrev pub HasSizes : Type 0
HasSizes =
    (sizeof_header ≡ total cache_header)
    × (sizeof_image_info ≡ total image_info)
    × (sizeof_local_symbols_info ≡ total local_symbols_info)
    × (sizeof_entry32 ≡ total local_symbols_entry32)
    × (sizeof_entry64 ≡ total local_symbols_entry64)
    × (offset_from 0 cache_header (codes "symbolFileUUID") ≡ some symbol_file_uuid_offset)

-- Every field that the parser reads stands where the C ABI puts the member of that name in its
-- record, and is read in the size of the member; the sizes that the parser uses are those of the
-- records without padding; and the static assertions of the header hold.
pub records_laid_out : (m : Space) (r : ℕ) → ReadsMembers m r × HasSizes × LayoutAssertions
unfolding read_member offset_from member_size size_of end_from
records_laid_out m r = (
  (
    refl,
    refl,
    refl,
    refl,
    refl,
    refl,
    refl,
    ap (λ a. some (u32_at m a)) (add-zero r),
    refl,
    refl,
    refl,
    refl,
    refl,
    refl,
    refl,
    refl,
    refl,
    refl,
  ),
  (refl, refl, refl, refl, refl, refl),
  (refl, refl, refl, refl, refl, refl, refl, refl, refl, refl),
)
