-- ===== src/SharedCache/Image.antt =====
-- The first half of `RorkHookFindSharedCacheSymbolInData`: the image table and the image's index.
pub mod Search
use rork_hook.Base.{
  ℕ, zero, suc, ◌+◌, ◌*◌, Bool, true, false, ◌||◌, ◌&&◌, Option, none, some, List, leb, ◌==◌, neb,
  if◌then◌else◌, u64_max,
}
use rork_hook.Outcome.{Outcome, ok, ◌>>=◌, ◌>>◌, require, from_option}
use rork_hook.Space.{Space}
use rork_hook.SharedCache.{DataView, data_at, indexed_offset, read_record, string_equals}
use rork_hook.SharedCache.Format.{sizeof_image_info, path_file_offset}
use rork_hook.SharedCache.Format.Header

pub record ImageTable : Type 0 where
  pub offset : ℕ
  pub count : ℕ

-- The modern location of the table, or the legacy one where the modern is empty.
unfoldable pub image_table_location : Space → (main_header : ℕ) → ImageTable
image_table_location m h =
    if Header.images_offset m h == 0 || Header.images_count m h == 0
    then record { offset = Header.images_offset_old m h; count = Header.images_count_old m h }
    else record { offset = Header.images_offset m h; count = Header.images_count m h }

-- The table, when it is present and lies inside the view.
unfoldable pub image_table : Space → DataView → (main_header : ℕ) → Outcome ImageTable
image_table m view h = do
  let t = image_table_location m h
  require (neb t.offset 0 && neb t.count 0)
  require (leb (t.count * sizeof_image_info) u64_max)
  _ ← from_option (data_at view t.offset (t.count * sizeof_image_info))
  ok t

-- The loop over the images, at `index` with `left` to go; `none` when no path is equal.
unfoldable pub find_image :
    (m : Space) (view : DataView) (table_offset : ℕ) (image_path : List ℕ) (left index : ℕ)
    → Outcome (Option ℕ)
find_image m view table_offset image_path zero index = ok none
find_image m view table_offset image_path (suc left) index = do
  info_offset ← from_option (indexed_offset table_offset index sizeof_image_info true)
  image_info ← read_record m view info_offset true sizeof_image_info
  same ← string_equals m view (path_file_offset m image_info) (some image_path)
  elim same [
    | true ↦ ok (some index)
    | false ↦ find_image m view table_offset image_path left (index + 1)
  ]
