-- ===== src/Tests/Cache.antt =====
-- A shared cache with one image, "/a", and its symbols file with the one symbol "_g".
use rork_hook.Base.{
  ℕ, ◌+◌, ◌-◌, ◌%◌, ◌==◌, ◌||◌, ◌&&◌, refl, arith, List, [], ◌∷◌, none, some, leb, ltb,
  if◌then◌else◌,
}
use rork_hook.Space.{Space, readable_range, readable}
use rork_hook.Space.Reads.{IsReadable-of_range}
use rork_hook.CString.Spelled.{IsText}
use rork_hook.SharedCache.{DataView}
use rork_hook.SharedCache.Views.{IsBacked}
use rork_hook.SharedCache.Format.{cache_magic}
use rork_hook.Tests.Bytes.{bytes_of, ◌then_bytes◌, padding, field_of, entry}
use rork_hook.Tests.Image.{symbol_bytes, name_g}

-- "/a"
abbrev pub path_a : List ℕ
path_a = b'/' ∷ b'a' ∷ []

abbrev pub main_bytes : List ℕ
main_bytes =
    field_of 16 cache_magic
    then_bytes bytes_of 4 456
    then_bytes padding 428
    then_bytes bytes_of 4 456
    then_bytes bytes_of 4 1
    then_bytes padding 24
    then_bytes bytes_of 4 488
    then_bytes padding 4
    then_bytes path_a
    then_bytes padding 2

abbrev local_bytes : List ℕ
local_bytes =
    bytes_of 4 40
    then_bytes bytes_of 4 1
    then_bytes bytes_of 4 56
    then_bytes bytes_of 4 4
    then_bytes bytes_of 4 24
    then_bytes bytes_of 4 1
    then_bytes padding 12
    then_bytes bytes_of 4 1
    then_bytes symbol_bytes 1 0x40
    then_bytes 0 ∷ (name_g then_bytes padding 1)

abbrev pub symbols_bytes : List ℕ
symbols_bytes =
    field_of 16 cache_magic
    then_bytes padding 56
    then_bytes bytes_of 8 456
    then_bytes padding 376
    then_bytes local_bytes

-- The views stand at 0x2000 and 0x3000; the third page is code.
abbrev pub cache : Space
cache = record {
  byte =
      λ a. if ltb a 0x3000 then entry main_bytes (a - 0x2000) else entry symbols_bytes (a - 0x3000);
  protection = λ a.
      if (leb 0x2000 a && ltb a (0x2000 + 492)) || (leb 0x3000 a && ltb a (0x3000 + 516))
      then some 1
      else if a - a % 0x1000 == 0x4000
      then some 5
      else none;
}

abbrev pub main_view : DataView
main_view = record { bytes = 0x2000; size = 492 }

abbrev pub symbols_view : DataView
symbols_view = record { bytes = 0x3000; size = 516 }

pub main_view-IsBacked : IsBacked cache main_view
unfolding readable_range readable
main_view-IsBacked = IsReadable-of_range cache 0x2000 492 refl

pub symbols_view-IsBacked : IsBacked cache symbols_view
unfolding readable_range readable
symbols_view-IsBacked = IsReadable-of_range cache 0x3000 516 refl

-- The part of the symbols view that holds the local symbols, and its strings.
abbrev pub local : DataView
local = record { bytes = 0x31c8; size = 60 }

abbrev pub strings : DataView
strings = record { bytes = 0x3200; size = 4 }

pub local-IsBacked : IsBacked cache local
unfolding readable_range readable
local-IsBacked = IsReadable-of_range cache 0x31c8 60 refl

pub strings-IsBacked : IsBacked cache strings
unfolding readable_range readable
strings-IsBacked = IsReadable-of_range cache 0x3200 4 refl

pub path_a-IsText : IsText path_a
path_a-IsText = (λ e. omega (arith, e), (λ e. omega (arith, e), tt))

pub name_g-IsText : IsText name_g
name_g-IsText = (λ e. omega (arith, e), (λ e. omega (arith, e), tt))
