-- ===== src/SharedCache/Image/Search.antt =====
-- The image loop of `RorkHookFindSharedCacheSymbolInData` against the first image of a path.
use rork_hook.Base.{
  ℕ, zero, suc, ◌+◌, ◌-◌, ◌*◌, ◌≤◌, ◌<◌, ◌^◌, ◌≡◌, ◌≢◌, refl, Bool, false, Option, none, some, List,
  arith, leb, neb, ◌==◌, ◌||◌, ◌&&◌, if◌then◌else◌, Bool-cases, inl, inr, u64_max,
}
use rork_hook.Base.First.{IsFirst, IsFirst-step, IsFirst-here, IsFirst-empty}
use rork_hook.Outcome.{ok}
use rork_hook.Outcome.Ensures.{Ensures, returns, require-then, from_option-then}
use rork_hook.Space.{Space, null}
use rork_hook.Space.Reads.{u32_at-lt_wide}
use rork_hook.CString.Spelled.{IsText, spelled}
use rork_hook.SharedCache.{DataView, data_at}
use rork_hook.SharedCache.Views.{
  IsBacked, data_at_iff, indexed_offset_iff, read_record-ok, string_equals-spelled,
}
use rork_hook.SharedCache.Format.{path_file_offset}
use rork_hook.SharedCache.Format.Header
use rork_hook.SharedCache.Image.{image_table_location, image_table, find_image}

-- The path of image `k` of the table is `path`.
abbrev pub path_is : Space → DataView → (table_offset : ℕ) (path : List ℕ) (k : ℕ) → Bool
path_is m view table_offset path k =
    let o = path_file_offset m (view.bytes + (table_offset + k * 32)) in
    if leb view.size o then false else spelled m (view.bytes + o) (view.size - o) path

location_word : (m : Space) (h : ℕ) → (image_table_location m h).offset < 2 ^ 64
unfolding image_table_location
location_word m h =
    elim (Bool-cases (Header.images_offset m h == 0 || Header.images_count m h == 0)) [
      | inl legacy ↦ rw legacy (u32_at-lt_wide m _)
      | inr modern ↦ rw modern (u32_at-lt_wide m _)
    ]

-- An accepted table has entries, and all of them lie inside the view.
pub image_table-inside :
    (m : Space) (view : DataView) (h : ℕ)
    → Ensures
        (λ t.
          (t ≡ image_table_location m h)
          × (view.bytes ≢ null)
          × (t.offset + t.count * 32 ≤ view.size))
        (image_table m view h)
unfolding image_table
image_table-inside m view h =
    let t = image_table_location m h in
    require-then (neb t.offset 0 && neb t.count 0) λ _.
      require-then (leb (t.count * 32) u64_max) λ small.
        from_option-then (data_at view t.offset (t.count * 32)) λ a e.
          let (storage, fits, at) =
            (data_at_iff view t.offset (t.count * 32) a (location_word m h)).0 e in
          returns (refl, storage, fits)

module _ (m : Space) (view : DataView) (table_offset : ℕ) (path : List ℕ) where
  -- When the image records from the start index on lie inside a readable non-null view below 2^64
  -- in size, the loop over the images returns the index of the first one with the path, and none
  -- exactly when no image has it. The path holds no zero byte.
  pub find_image-IsFirst :
      IsBacked m view
      → view.size < 2 ^ 64
      → view.bytes ≢ null
      → IsText path
      → (left index : ℕ) → table_offset + (index + left) * 32 ≤ view.size
      → (r : Option ℕ) × (find_image m view table_offset path left index ≡ ok r)
        × IsFirst (path_is m view table_offset path) index (index + left) r
  unfolding find_image
  find_image-IsFirst backed word storage text zero index fits =
      (none, refl, IsFirst-empty (path_is m view table_offset path) index)
  find_image-IsFirst backed word storage text (suc left) index fits =
      let at = table_offset + index * 32 in
      let (r, rest, first) =
        find_image-IsFirst backed word storage text left (index + 1) (omega arith) in
      let offset = (indexed_offset_iff table_offset index 32 at).1 (refl, omega arith) in
      let record_read =
        read_record-ok m view backed at 32 (omega arith) storage (omega arith) (omega arith) in
      let compared =
        string_equals-spelled m view backed (path_file_offset m (view.bytes + at)) path
          (u32_at-lt_wide m _) storage text in
      elim (Bool-cases (path_is m view table_offset path index)) [
        | inl same ↦
            (some index, rw (offset, record_read, compared, same), IsFirst-here _ index left same)
        | inr other ↦ (
          r,
          rw (offset, record_read, compared, other, rest),
          IsFirst-step _ index left r other first,
        )
      ]
