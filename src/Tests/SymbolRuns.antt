-- ===== src/Tests/SymbolRuns.antt =====
-- A symbol of the loaded image and of the file is found, and the records of the cache format.
use rork_hook.Base.{ℕ, ◌≡◌, refl, arith, true, false, some, ◌==◌, Bool-cases, inl, inr}
use mathlib.Core.Path.{subst}
use rork_hook.Base.Int.{pos, ◌+ℤ◌}
use rork_hook.Outcome.{ok}
use rork_hook.Space.{u16_at, u32_at, u64_at, byte_at}
use rork_hook.Region.{
  memory_is_readable, readable_memory_length, query_region, sign_pointer_if_executable,
}
use rork_hook.CString.Padded.{padded}
use rork_hook.CString.Spelled.{spelled}
use rork_hook.Symbols.Entry.{symbol_is}
use rork_hook.Symbols.Locate.{last_such}
use rork_hook.Symbols.Live.{find_symbol}
use rork_hook.Symbols.Live.Found.{IsImage, find_symbol_complete}
use rork_hook.Symbols.FileImage.{find_symbol_in_file_image_with_size}
use rork_hook.Symbols.FileImage.Translated.{file_offset_of}
use rork_hook.Symbols.FileImage.Found.{IsFileImage, find_symbol_in_file_image_with_size_complete}
use rork_hook.Tests.Cache.{name_g-IsText}
use rork_hook.Tests.Kernel.{one_region, one_region-IsTruthful}
use rork_hook.Tests.Image.{image, image_commands, image-IsTable, name_g}
use rork_hook.Tests.ImageRuns.{loaded-IsTable, slide_is}

image-IsImage :
    IsImage (one_region 240 5) image 0x1000 image_commands (pos 0xf00) 0x10c8 name_g 1 0x1020
unfolding last_such padded spelled u16_at u32_at u64_at byte_at memory_is_readable
    readable_memory_length query_region ◌+ℤ◌
image-IsImage = record {
  table = loaded-IsTable;
  symtab_there = λ e. omega (arith, e);
  linkedit_there = λ e. omega (arith, e);
  slid = slide_is;
  linkedit_slid = refl;
  symbols_in = (omega arith, omega arith);
  strings_in = (omega arith, omega arith);
  strings_nonempty = omega arith;
  symbols = 0x10c8;
  strings = 0x10e8;
  symbols_place = refl;
  strings_place = refl;
  symbols_word = omega arith;
  strings_word = omega arith;
  symbols_readable = refl;
  strings_readable = refl;
  first = (
    omega arith,
    omega arith,
    refl,
    record {
      each = λ k low high. elim (Bool-cases (k == 0)) [
        | inl here ↦
            subst (λ n. symbol_is image 0x10c8 0x10e8 8 name_g n ≡ false) (zero_of k here) refl
        | inr other ↦ absurd (ground (arith, other, high))
      ];
    },
  );
  address_slid = refl;
}
  where
    zero_of : (k : ℕ) → (k == 0) ≡ true → 0 ≡ k
    zero_of k e = ground arith

file-IsFileImage : IsFileImage (one_region 240 5) image 0x1000 240 image_commands name_g 1 0x20
unfolding last_such padded spelled u16_at u32_at u64_at byte_at memory_is_readable
    readable_memory_length query_region file_offset_of image-IsImage
file-IsFileImage = record {
  reported = refl;
  table = image-IsTable;
  symtab_there = λ e. omega (arith, e);
  symbols_in = omega arith;
  strings_in = omega arith;
  strings_nonempty = omega arith;
  first = image-IsImage.first;
  in_segment = refl;
  inside = omega arith;
}

find_symbol_in_file_image_with_size_complete_example :
    find_symbol_in_file_image_with_size (one_region 240 5) image 0x1000 240 (some name_g)
    ≡ ok (sign_pointer_if_executable (one_region 240 5) image 0x1020)
find_symbol_in_file_image_with_size_complete_example =
    find_symbol_in_file_image_with_size_complete (one_region 240 5) image
      (one_region-IsTruthful 240 5) 0x1000 240 image_commands name_g 1 0x20 file-IsFileImage
      name_g-IsText

find_symbol_complete_example :
    find_symbol (one_region 240 5) image 0x1000 (some name_g)
    ≡ ok (sign_pointer_if_executable (one_region 240 5) image 0x1020)
find_symbol_complete_example =
    find_symbol_complete (one_region 240 5) image (one_region-IsTruthful 240 5) 0x1000
      image_commands (pos 0xf00) 0x10c8 name_g 1 0x1020 image-IsImage name_g-IsText
