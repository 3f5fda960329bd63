-- ===== src/Tests/CacheRuns.antt =====
-- Runs on the shared cache.
use rork_hook.Base.{
  ℕ, ◌+◌, ◌-◌, ◌^◌, ◌<◌, ◌≡◌, ◌≢◌, leb→le, refl, arith, false, some, Option, leb, if◌then◌else◌,
}
use rork_hook.Base.First.{IsFirst}
use rork_hook.Outcome.{ok}
use rork_hook.Outcome.Ensures.{Ensures}
use rork_hook.Space.{byte_at, readable_range, readable, can_read, u32_at, u64_at}
use rork_hook.CString.{matches_string, memchr_nul, memcmp_equal, bytes_equal}
use rork_hook.CString.Spelled.{spelled}
use rork_hook.MachO.NList
use rork_hook.Region.{sign_pointer_if_executable, query_region}
use rork_hook.SharedCache.{data_at, indexed_offset, read_record, string_equals}
use rork_hook.SharedCache.Views.{string_equals-spelled}
use rork_hook.SharedCache.Format.Header
use rork_hook.SharedCache.Image.{image_table_location, image_table, find_image}
use rork_hook.SharedCache.Image.Search.{path_is, find_image-IsFirst}
use rork_hook.SharedCache.Local.{
  local_view, image_entry, symbol_tables, symbol_matches, symbol_record, find_local_symbol,
}
use rork_hook.SharedCache.Local.Bounds.{IsPart, local_view-IsPart, IsTables, symbol_tables-IsTables}
use rork_hook.SharedCache.Local.Search.{symbol_is, records_at, find_local_symbol-IsFirst}
use rork_hook.SharedCache.Lookup.{find_symbol_record, find_shared_cache_symbol_in_data}
use rork_hook.SharedCache.Lookup.Found.{
  IsCache, defining, find_shared_cache_symbol_in_data_complete,
}
use rork_hook.Tests.Kernel.{one_region}
use rork_hook.Tests.Image.{name_g}
use rork_hook.Tests.Cache.{
  path_a, cache, main_view, symbols_view, main_view-IsBacked, symbols_view-IsBacked, local, strings,
  local-IsBacked, strings-IsBacked, path_a-IsText, name_g-IsText,
}

find_image-IsFirst_example :
    (r : Option ℕ) × (find_image cache main_view 456 path_a 1 0 ≡ ok r)
    × IsFirst (path_is cache main_view 456 path_a) 0 (0 + 1) r
find_image-IsFirst_example =
    find_image-IsFirst cache main_view 456 path_a main_view-IsBacked (omega arith)
      (λ e. omega (arith, e)) path_a-IsText 1 0 (omega arith)

find_local_symbol-IsFirst_example :
    (j : Option ℕ) × (find_local_symbol cache local strings 40 name_g 1 0
      ≡ ok (records_at local 40 j))
    × IsFirst (symbol_is cache local strings 40 name_g) 0 (0 + 1) j
find_local_symbol-IsFirst_example =
    find_local_symbol-IsFirst cache local strings 40 name_g local-IsBacked strings-IsBacked
      (λ e. omega (arith, e)) (λ e. omega (arith, e)) (omega arith) name_g-IsText 1 0 (omega arith)

string_equals-spelled_example :
    string_equals cache strings 1 (some name_g)
    ≡ ok (
        if leb strings.size 1
        then false
        else spelled cache (strings.bytes + 1) (strings.size - 1) name_g)
string_equals-spelled_example =
    string_equals-spelled cache strings strings-IsBacked 1 name_g (omega arith)
      (λ e. omega (arith, e)) name_g-IsText

local_view-IsPart_example :
    Ensures
      (λ v.
        IsPart symbols_view v (Header.local_symbols_offset cache 0x3000)
        × (Header.local_symbols_offset cache 0x3000 ≢ 0))
      (local_view cache symbols_view 0x3000)
local_view-IsPart_example = local_view-IsPart cache symbols_view 0x3000

symbol_tables-IsTables_example :
    Ensures
      (IsTables cache local 0x31c8 (record { start = 0; count = 1 }))
      (symbol_tables cache local 0x31c8 (record { start = 0; count = 1 }))
symbol_tables-IsTables_example =
    symbol_tables-IsTables cache local 0x31c8 (record { start = 0; count = 1 })

-- The symbol is found, with the slide added.
find_shared_cache_symbol_in_data_run :
    find_shared_cache_symbol_in_data
      (one_region 16 5)
      cache
      0x2000
      492
      0x3000
      516
      0x4000
      (some path_a)
      (some name_g)
    ≡ ok 0x4040
unfolding find_shared_cache_symbol_in_data find_symbol_record image_table_location image_table
    find_image local_view image_entry symbol_tables symbol_matches symbol_record find_local_symbol
    data_at indexed_offset read_record string_equals matches_string memchr_nul memcmp_equal
    bytes_equal sign_pointer_if_executable query_region can_read readable_range readable u32_at
    u64_at
find_shared_cache_symbol_in_data_run = refl

cache-IsCache : IsCache cache main_view symbols_view path_a name_g 0 0
unfolding memcmp_equal bytes_equal can_read readable_range readable byte_at u32_at u64_at
    image_table_location spelled
cache-IsCache = record {
  main_storage = λ e. omega (arith, e);
  symbols_storage = λ e. omega (arith, e);
  main_header = omega arith;
  symbols_header = omega arith;
  main_magic = refl;
  symbols_magic = refl;
  images_placed = λ e. omega (arith, e);
  images_counted = λ e. omega (arith, e);
  images_fit = leb→le _ _ refl;
  first_image =
      (omega arith, leb→le 1 1 refl, refl, record { each = λ k l h. absurd (omega arith) });
  region_placed = λ e. omega (arith, e);
  region_fits = leb→le _ _ refl;
  info_fits = leb→le _ _ refl;
  listed = leb→le 1 1 refl;
  entry_fits = leb→le _ _ refl;
  range_fits = leb→le _ _ refl;
  table_fits = leb→le _ _ refl;
  strings_fit = leb→le _ _ refl;
  first_symbol =
      (omega arith, leb→le 1 1 refl, refl, record { each = λ k l h. absurd (omega arith) });
}

room : 0x4000 + NList.n_value cache (defining cache symbols_view 0) < 2 ^ 64
unfolding u64_at
room = omega arith

find_shared_cache_symbol_in_data_complete_example :
    find_shared_cache_symbol_in_data
      (one_region 16 5)
      cache
      0x2000
      492
      0x3000
      516
      0x4000
      (some path_a)
      (some name_g)
    ≡ ok (
        sign_pointer_if_executable
          (one_region 16 5)
          cache
          (0x4000 + NList.n_value cache (defining cache symbols_view 0)))
find_shared_cache_symbol_in_data_complete_example =
    find_shared_cache_symbol_in_data_complete cache main_view symbols_view path_a name_g 0 0
      cache-IsCache main_view-IsBacked symbols_view-IsBacked (omega arith) (omega arith)
      path_a-IsText name_g-IsText (one_region 16 5) 0x4000 room
