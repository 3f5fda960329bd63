-- ===== src/Tests/ImageRuns.antt =====
-- Runs on the loaded image: the table, the slide and the symbols.
use mathlib.Core.Path.{subst}
use rork_hook.Base.{
  ℕ, ◌+◌, ◌^◌, ◌≡◌, ◌<◌, ◌≤◌, ◌==◌, sym, refl, arith, true, List, [], some, Option,
}
use rork_hook.Base.Int.{pos}
use rork_hook.Base.First.{IsFirst}
use rork_hook.Outcome.{ok, rejected}
use rork_hook.Outcome.Ensures.{Ensures, returns}
use rork_hook.Space.{Space, null, u32_at, u64_at, can_read, read_u32, readable_range, readable}
use rork_hook.Space.Reads.{IsReadable, IsReadable-of_range, IsReadable-part}
use rork_hook.Region.{
  readable_memory_length, query_region, memory_is_readable, sign_pointer_if_executable,
}
use rork_hook.CString.{matches_string, memchr_nul, memcmp_equal, bytes_equal, strncmp_equal}
use rork_hook.Region.Readable.{readable_memory_length-eq, memory_is_readable-IsReadable}
use rork_hook.LoadCommands.{
  Visitor, validate_load_commands, check_commands, visit_commands, for_each_load_command_with_size,
  for_each_load_command,
}
use rork_hook.LoadCommands.Table.{IsTable, table_start, visit_list}
use rork_hook.LoadCommands.Validate.{
  validate_load_commands-IsTable, validate_load_commands_complete,
}
use rork_hook.LoadCommands.Visit.{for_each-visit_list, for_each-Ensures}
use rork_hook.LoadCommands.Fold.{for_each-rejected}
use rork_hook.ImageSlide.{image_slide, image_slide_load_command, address_difference}
use rork_hook.ImageSlide.Exact.{slide_in, slide_result, image_slide-slide_in}
use rork_hook.Symbols.{
  find_symtab, find_symtab_load_command, find_symbol_entry, search_entries, entry_matches,
  apply_slide, file_range_in_segment, symbol_table_size, range_is_valid,
}
use rork_hook.Symbols.Entry.{symbol_is, entry_of, find_symbol_entry-IsFirst}
use rork_hook.Symbols.Locate.{is_symtab, is_linkedit, last_such, find_symtab-last_such}
use rork_hook.Symbols.Live.{find_symbol}
use rork_hook.Symbols.Live.Safety.{IsLoadedSymbol, find_symbol-IsLoadedSymbol}
use rork_hook.Symbols.FileImage.{
  find_symbol_in_file_image_with_size, find_file_address_load_command,
}
use rork_hook.Symbols.FileImage.Safety.{
  IsFileSymbol, find_symbol_in_file_image_with_size-IsFileSymbol,
}
use rork_hook.Tests.Bytes.{space_of}
use rork_hook.Tests.Cache.{name_g-IsText}
use rork_hook.Tests.Kernel.{one_region, one_region-IsTruthful}
use rork_hook.Tests.Image.{image, image-IsReadable, image_commands, image-IsTable, name_g}

validate_load_commands-IsTable_example :
    Ensures
      (λ cb. (cb ≡ table_start 0x1000) × ((cs : List ℕ) × IsTable image 0x1000 240 cs))
      (validate_load_commands image 0x1000 240 true)
validate_load_commands-IsTable_example =
    validate_load_commands-IsTable image 0x1000 240 image-IsReadable

validate_load_commands_complete_example :
    validate_load_commands image 0x1000 240 true ≡ ok (table_start 0x1000)
validate_load_commands_complete_example =
    validate_load_commands_complete image 0x1000 240 image-IsReadable image_commands image-IsTable

-- A visitor that counts the commands and stops at the second.
abbrev counting : Visitor ℕ
counting command index n = ok (index == 0, n + 1)

for_each-visit_list_example :
    for_each_load_command_with_size (λ _. image) counting 0x1000 240 5
    ≡ visit_list counting 0 image_commands 5
for_each-visit_list_example =
    for_each-visit_list image counting 0x1000 240 image_commands 5 image-IsReadable image-IsTable

for_each-Ensures_example :
    Ensures (λ n. 5 ≤ n) (for_each_load_command_with_size (λ _. image) counting 0x1000 240 5)
for_each-Ensures_example =
    for_each-Ensures image counting 0x1000 240 5 image-IsReadable
      (λ stop c index n is low last holds. returns (omega (arith, holds))) (omega arith)

-- Sixteen bytes are no table: they end inside the header.
abbrev short : Space
short = space_of 0x1000 16 1 []

short-IsReadable : IsReadable short 0x1000 16
unfolding readable_range readable
short-IsReadable = IsReadable-of_range short 0x1000 16 refl

short_no-IsTable : (cs : List ℕ) → ¬ IsTable short 0x1000 16 cs
short_no-IsTable cs t = omega (arith, t.fits)

for_each-rejected_example :
    for_each_load_command_with_size (λ _. short) counting 0x1000 16 5 ≡ rejected
for_each-rejected_example =
    for_each-rejected short counting 0x1000 16 5 short-IsReadable short_no-IsTable

readable_length : readable_memory_length (one_region 240 5) image 0x1000 ≡ 240
readable_length =
    readable_memory_length-eq (one_region 240 5) (one_region-IsTruthful 240 5) image 0x1000
      {r = record { start = 0x1000; size = 240; protection = 5 }} (λ e. omega (arith, e)) refl
      (record { above = omega arith; below = omega arith; bounded = omega arith }) refl

pub loaded-IsTable :
    IsTable image 0x1000 (readable_memory_length (one_region 240 5) image 0x1000) image_commands
loaded-IsTable =
    subst (λ n. IsTable image 0x1000 n image_commands) (sym readable_length) image-IsTable

pub slide_is : slide_in image 0x1000 image_commands ≡ some (pos 0xf00)
unfolding slide_in u32_at u64_at
slide_is = refl

image_slide-slide_in_example :
    image_slide (one_region 240 5) image 0x1000
    ≡ ok (slide_result (slide_in image 0x1000 image_commands))
image_slide-slide_in_example =
    image_slide-slide_in image (one_region 240 5) 0x1000 image_commands
      (one_region-IsTruthful 240 5) loaded-IsTable

reported : memory_is_readable (one_region 240 5) image 0x1020 32 ≡ true
unfolding memory_is_readable readable_memory_length query_region
reported = refl

memory_is_readable-IsReadable_example : (0 < 32) × IsReadable image 0x1020 32
memory_is_readable-IsReadable_example =
    memory_is_readable-IsReadable (one_region 240 5) (one_region-IsTruthful 240 5) image 0x1020 32
      reported

short_length : readable_memory_length (one_region 16 1) short 0x1000 ≡ 16
short_length =
    readable_memory_length-eq (one_region 16 1) (one_region-IsTruthful 16 1) short 0x1000
      {r = record { start = 0x1000; size = 16; protection = 1 }} (λ e. omega (arith, e)) refl
      (record { above = omega arith; below = omega arith; bounded = omega arith }) refl

unmapped_no-IsTable :
    (cs : List ℕ)
    → ¬ IsTable short 0x1000 (readable_memory_length (one_region 16 1) short 0x1000) cs
unmapped_no-IsTable cs t = omega (arith, t.fits, short_length)

find_symtab-last_such_example :
    find_symtab image 0x1000 240
    ≡ ok (record {
      symtab = last_such (is_symtab image) null image_commands;
      linkedit = last_such (is_linkedit image) null image_commands;
    })
find_symtab-last_such_example =
    find_symtab-last_such image 0x1000 240 image_commands image-IsReadable image-IsTable

-- The two entries stand at 0x10c8 and the strings at 0x10e8.
find_symbol_entry-IsFirst_example :
    (j : Option ℕ) × (find_symbol_entry image 0x10c8 0x10e8 8 2 (some name_g) true
      ≡ entry_of image 0x10c8 0x10e8 8 name_g j)
    × IsFirst (symbol_is image 0x10c8 0x10e8 8 name_g) 0 2 j
find_symbol_entry-IsFirst_example =
    find_symbol_entry-IsFirst image 0x10c8 0x10e8 8 name_g 2 (λ e. omega (arith, e))
      (λ e. omega (arith, e))
      (IsReadable-part 0x10c8 32 image-IsReadable (omega arith) (omega arith))
      (IsReadable-part 0x10e8 8 image-IsReadable (omega arith) (omega arith)) name_g-IsText

find_symbol-IsLoadedSymbol_example :
    Ensures
      (IsLoadedSymbol (one_region 240 5) image 0x1000 name_g)
      (find_symbol (one_region 240 5) image 0x1000 (some name_g))
find_symbol-IsLoadedSymbol_example =
    find_symbol-IsLoadedSymbol (one_region 240 5) image (one_region-IsTruthful 240 5) 0x1000 name_g
      name_g-IsText

find_symbol_in_file_image_with_size-IsFileSymbol_example :
    Ensures
      (IsFileSymbol (one_region 240 5) image 0x1000 240 name_g)
      (find_symbol_in_file_image_with_size (one_region 240 5) image 0x1000 240 (some name_g))
find_symbol_in_file_image_with_size-IsFileSymbol_example =
    find_symbol_in_file_image_with_size-IsFileSymbol image (one_region 240 5) 0x1000 240 name_g
      (one_region-IsTruthful 240 5) name_g-IsText

-- The symbol is found at its slid address, and signed.
find_symbol_run : find_symbol (one_region 240 5) image 0x1000 (some name_g) ≡ ok (0x1020 + 2 ^ 56)
unfolding find_symbol find_symtab find_symtab_load_command for_each_load_command_with_size
    visit_commands validate_load_commands check_commands readable_memory_length query_region
    memory_is_readable sign_pointer_if_executable can_read readable_range readable read_u32 u32_at
    u64_at image_slide image_slide_load_command for_each_load_command address_difference apply_slide
    file_range_in_segment symbol_table_size find_symbol_entry search_entries entry_matches
    matches_string memchr_nul memcmp_equal bytes_equal strncmp_equal
find_symbol_run = refl

-- The same symbol in the file, without a slide.
find_symbol_in_file_image_run :
    find_symbol_in_file_image_with_size (one_region 240 5) image 0x1000 240 (some name_g)
    ≡ ok (0x1020 + 2 ^ 56)
unfolding find_symbol_in_file_image_with_size find_file_address_load_command range_is_valid
    find_symtab find_symtab_load_command for_each_load_command_with_size visit_commands
    validate_load_commands check_commands readable_memory_length query_region memory_is_readable
    sign_pointer_if_executable can_read readable_range readable read_u32 u32_at u64_at
    symbol_table_size find_symbol_entry search_entries entry_matches matches_string memchr_nul
    memcmp_equal bytes_equal strncmp_equal
find_symbol_in_file_image_run = refl
