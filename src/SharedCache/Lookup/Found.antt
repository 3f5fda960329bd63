-- ===== src/SharedCache/Lookup/Found.antt =====
-- `RorkHookFindSharedCacheSymbolInData` on caches that define the symbol.
use mathlib.Core.Path.{subst}
use native.Mathlib.Nat.{zero-add, add-zero}
use rork_hook.Base.{
  ℕ, ◌+◌, ◌-◌, ◌*◌, ◌≤◌, ◌<◌, ◌^◌, ◌≡◌, ◌≢◌, refl, ap, ◌∙◌, true, not, ◌||◌, some, List, arith, leb,
  ◌==◌, u64_max, lt→ltb,
}
use rork_hook.Base.First.{IsFirst, same_index}
use rork_hook.Outcome.{ok}
use rork_hook.Space.{Space, null}
use rork_hook.CString.{memcmp_equal}
use rork_hook.CString.Spelled.{IsText}
use rork_hook.Platform.{Platform}
use rork_hook.Region.{sign_pointer_if_executable}
use rork_hook.MachO.NList
use rork_hook.SharedCache.{DataView, read_record}
use rork_hook.SharedCache.Views.{IsBacked, read_record-ok}
use rork_hook.SharedCache.Format.{cache_magic}
use rork_hook.SharedCache.Format.Header
use rork_hook.SharedCache.Format.LocalInfo
use rork_hook.SharedCache.Image.{image_table_location, find_image}
use rork_hook.SharedCache.Image.Search.{path_is, find_image-IsFirst}
use rork_hook.SharedCache.Local.{find_local_symbol}
use rork_hook.SharedCache.Local.Bounds.{IsPart-IsBacked, entry_range}
use rork_hook.SharedCache.Local.Search.{symbol_is, record_at, records_at, find_local_symbol-IsFirst}
use rork_hook.SharedCache.Lookup.{find_symbol_record, find_shared_cache_symbol_in_data}
use rork_hook.SharedCache.Lookup.Complete.{
  region, pool, entry_size, image_table-ok, local_view-region, image_entry-ok, symbol_tables-ok,
}

-- The two views form a cache in which record `index` is the first one of the image `image` that
-- defines `name`, and `image` the first one with the path.
pub record IsCache (m : Space) (main symbols : DataView) (path name : List ℕ) (image index : ℕ)
    : Type 0 where
  pub main_storage : main.bytes ≢ null
  pub symbols_storage : symbols.bytes ≢ null
  pub main_header : 456 ≤ main.size
  pub symbols_header : 456 ≤ symbols.size
  pub main_magic : memcmp_equal m main.bytes cache_magic ≡ ok true
  pub symbols_magic : memcmp_equal m symbols.bytes cache_magic ≡ ok true
  pub images_placed : (image_table_location m main.bytes).offset ≢ 0
  pub images_counted : (image_table_location m main.bytes).count ≢ 0
  pub images_fit : let t = image_table_location m main.bytes in t.offset + t.count * 32 ≤ main.size
  pub first_image :
      let t = image_table_location m main.bytes in
      IsFirst (path_is m main t.offset path) 0 t.count (some image)
  pub region_placed : Header.local_symbols_offset m symbols.bytes ≢ 0
  pub region_fits :
      Header.local_symbols_offset m symbols.bytes + (region m symbols symbols.bytes).size
      ≤ symbols.size
  pub info_fits : 24 ≤ (region m symbols symbols.bytes).size
  pub listed : image < LocalInfo.entries_count m (region m symbols symbols.bytes).bytes
  pub entry_fits :
      let local = region m symbols symbols.bytes in
      let size = entry_size m main.bytes in
      LocalInfo.entries_offset m local.bytes + image * size + size ≤ local.size
  pub range_fits :
      let local = region m symbols symbols.bytes in
      let range = entry_range m local main.bytes local.bytes image in
      range.start + range.count ≤ LocalInfo.nlist_count m local.bytes
  pub table_fits :
      let local = region m symbols symbols.bytes in
      LocalInfo.nlist_offset m local.bytes + LocalInfo.nlist_count m local.bytes * 16 ≤ local.size
  pub strings_fit :
      let local = region m symbols symbols.bytes in
      LocalInfo.strings_offset m local.bytes + LocalInfo.strings_size m local.bytes ≤ local.size
  pub first_symbol :
      let local = region m symbols symbols.bytes in
      let range = entry_range m local main.bytes local.bytes image in
      IsFirst
        (symbol_is m local (pool m local) (LocalInfo.nlist_offset m local.bytes) name)
        range.start
        (range.start + range.count)
        (some index)

read_first :
    (m : Space) (view : DataView) (size : ℕ)
    → IsBacked m view
    → view.bytes ≢ null
    → 0 < size
    → size ≤ view.size
    → read_record m view 0 true size ≡ ok view.bytes
read_first m view size backed storage nonempty fits =
    read_record-ok m view backed 0 size (omega arith) storage nonempty (omega arith)
    ∙ ap ok (add-zero view.bytes)

-- The address of the record.
abbrev pub defining : Space → (symbols : DataView) → (index : ℕ) → ℕ
defining m symbols index =
    let local = region m symbols symbols.bytes in
    record_at local (LocalInfo.nlist_offset m local.bytes) index

module _ (m : Space) (main symbols : DataView) (path name : List ℕ) (image index : ℕ)
    (c : IsCache m main symbols path name image index) (main_backed : IsBacked m main)
    (symbols_backed : IsBacked m symbols) (main_word : main.size < 2 ^ 64)
    (symbols_word : symbols.size < 2 ^ 64) (path_text : IsText path) (name_text : IsText name) where
  abbrev local : DataView
  local = region m symbols symbols.bytes

  abbrev strings : DataView
  strings = pool m local

  local-IsBacked : IsBacked m local
  local-IsBacked =
      IsPart-IsBacked m symbols local (Header.local_symbols_offset m symbols.bytes)
        (record { place = refl; fits = c.region_fits }) symbols_backed

  strings-IsBacked : IsBacked m strings
  strings-IsBacked =
      IsPart-IsBacked m local strings (LocalInfo.strings_offset m local.bytes)
        (record { place = refl; fits = c.strings_fit }) local-IsBacked

  find_image-some :
      let t = image_table_location m main.bytes in
      find_image m main t.offset path t.count 0 ≡ ok (some image)
  find_image-some =
      let t = image_table_location m main.bytes in
      let (r, found, first) =
        find_image-IsFirst m main t.offset path main_backed main_word c.main_storage path_text
          t.count 0 (omega (arith, c.images_fit)) in
      let first_of =
        subst (λ n. IsFirst (path_is m main t.offset path) 0 n r) (zero-add t.count) first in
      found
      ∙ ap ok (
          same_index (path_is m main t.offset path) 0 t.count r (some image) first_of c.first_image)

  find_local_symbol-some :
      let range = entry_range m local main.bytes local.bytes image in
      find_local_symbol m local strings
        (LocalInfo.nlist_offset m local.bytes)
        name
        range.count
        range.start
      ≡ ok (some (defining m symbols index))
  find_local_symbol-some =
      let range = entry_range m local main.bytes local.bytes image in
      let offset = LocalInfo.nlist_offset m local.bytes in
      let (j, found, first) =
        find_local_symbol-IsFirst m local strings offset name local-IsBacked strings-IsBacked
          (omega (arith, c.symbols_storage)) (omega (arith, c.symbols_storage))
          (omega (arith, c.region_fits)) name_text range.count range.start
          (omega (arith, c.range_fits, c.table_fits)) in
      found
      ∙ ap (λ o. ok (records_at local offset o))
          (same_index (symbol_is m local strings offset name) range.start
            (range.start + range.count) j (some index) first c.first_symbol)

  find_symbol_record-defining :
      find_symbol_record m main symbols path name ≡ ok (defining m symbols index)
  unfolding find_symbol_record
  find_symbol_record-defining =
      rw
        (
          read_first m main 456 main_backed c.main_storage (omega arith) c.main_header,
          read_first m symbols 456 symbols_backed c.symbols_storage (omega arith) c.symbols_header,
          c.main_magic,
          c.symbols_magic,
          image_table-ok m main main.bytes c.main_storage c.images_placed c.images_counted
              c.images_fit main_word,
          find_image-some,
          local_view-region m symbols symbols.bytes symbols_word c.region_placed c.region_fits,
          read_first m local 24 local-IsBacked (omega (arith, c.symbols_storage)) (omega arith)
              c.info_fits,
          lt→ltb _ _ c.listed,
          image_entry-ok m local main.bytes image local-IsBacked (omega (arith, c.symbols_storage))
              (omega (arith, c.region_fits)) c.entry_fits,
          symbol_tables-ok m local (entry_range m local main.bytes local.bytes image)
              (omega (arith, c.symbols_storage)) (omega (arith, c.region_fits)) c.range_fits
              c.table_fits c.strings_fit,
          find_local_symbol-some,
        )
        refl

  -- Whenever two readable views below 2^64 in size form a cache, which is that their headers, image
  -- table, local-symbol region, entry, symbol table and string pool lie inside them, and the image
  -- with the path and the record with the name are the first of theirs, the lookup returns the
  -- slide plus the value of that record, signed if it is executable, if the sum is below 2^64. The
  -- path and the name hold no zero byte.
  pub find_shared_cache_symbol_in_data_complete :
      (p : Platform) (slide : ℕ)
      → slide + NList.n_value m (defining m symbols index) < 2 ^ 64
      → find_shared_cache_symbol_in_data p m main.bytes main.size symbols.bytes symbols.size slide
          (some path)
          (some name)
        ≡ ok (sign_pointer_if_executable p m (slide + NList.n_value m (defining m symbols index)))
  unfolding find_shared_cache_symbol_in_data
  find_shared_cache_symbol_in_data_complete p slide room =
      let given : not (main.bytes == null || symbols.bytes == null) ≡ true =
        ground (arith, c.main_storage, c.symbols_storage) in
      let small : leb (NList.n_value m (defining m symbols index)) (u64_max - slide) ≡ true =
        ground arith in
      rw (given, find_symbol_record-defining, small) refl
