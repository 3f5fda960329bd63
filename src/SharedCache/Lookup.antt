-- ===== src/SharedCache/Lookup.antt =====
-- `RorkHookFindSharedCacheSymbolInData`, from its steps.
pub mod Correct
pub mod Complete
pub mod Found
use rork_hook.Base.{
  ℕ, ◌+◌, ◌-◌, Bool, true, not, ◌||◌, ◌&&◌, Option, none, some, List, ltb, leb, ◌==◌, u64_max,
}
use rork_hook.Outcome.{Outcome, ok, ◌>>=◌, ◌>>◌, require, from_option}
use rork_hook.Space.{Space, null}
use rork_hook.CString.{memcmp_equal}
use rork_hook.Platform.{Platform}
use rork_hook.Region.{sign_pointer_if_executable}
use rork_hook.MachO.NList
use rork_hook.SharedCache.{DataView, read_record}
use rork_hook.SharedCache.Format.{sizeof_header, sizeof_local_symbols_info, cache_magic}
use rork_hook.SharedCache.Format.LocalInfo
use rork_hook.SharedCache.Image.{image_table, find_image}
use rork_hook.SharedCache.Local.{local_view, image_entry, symbol_tables, find_local_symbol}

-- The record that defines the symbol.
unfoldable pub find_symbol_record :
    Space → (main_view symbols_view : DataView) → (image_path symbol_name : List ℕ) → Outcome ℕ
find_symbol_record m main_view symbols_view image_path symbol_name = do
  main_header ← read_record m main_view 0 true sizeof_header
  symbols_header ← read_record m symbols_view 0 true sizeof_header
  main_magic ← memcmp_equal m main_header cache_magic
  require main_magic
  symbols_magic ← memcmp_equal m symbols_header cache_magic
  require symbols_magic
  table ← image_table m main_view main_header
  image ← find_image m main_view table.offset image_path table.count 0
  image_index ← from_option image
  local ← local_view m symbols_view symbols_header
  symbols_info ← read_record m local 0 true sizeof_local_symbols_info
  require (ltb image_index (LocalInfo.entries_count m symbols_info))
  range ← image_entry m local main_header symbols_info image_index
  strings ← symbol_tables m local symbols_info range
  symbol ←
      find_local_symbol m local strings (LocalInfo.nlist_offset m symbols_info) symbol_name
        range.count range.start
  from_option symbol

unfoldable pub find_shared_cache_symbol_in_data :
    Platform
    → (m : Space) → (main_data main_size symbols_data symbols_size slide : ℕ)
    → (image_path symbol_name : Option (List ℕ)) → Outcome ℕ
find_shared_cache_symbol_in_data p m main_data main_size symbols_data symbols_size slide image_path
      symbol_name =
    do
      require (not (main_data == null || symbols_data == null))
      path ← from_option image_path
      name ← from_option symbol_name
      symbol ←
          find_symbol_record m (record { bytes = main_data; size = main_size })
            (record { bytes = symbols_data; size = symbols_size }) path name
      require (leb (NList.n_value m symbol) (u64_max - slide))
      ok (sign_pointer_if_executable p m (slide + NList.n_value m symbol))
