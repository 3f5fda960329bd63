-- ===== src/Symbols/Live.antt =====
-- `RorkHookFindSymbol`: a private symbol of a loaded image.
pub mod Safety
pub mod Found
use rork_hook.Base.{ℕ, ◌+◌, ◌-◌, true, not, ◌||◌, ◌&&◌, Option, List, leb, ◌==◌, neb, u64_max}
use rork_hook.Outcome.{Outcome, ok, ◌>>=◌, ◌>>◌, require, from_option}
use rork_hook.Space.{Space, null, can_read}
use rork_hook.Platform.{Platform}
use rork_hook.Region.{readable_memory_length, memory_is_readable, sign_pointer_if_executable}
use rork_hook.MachO.{sizeof_symtab_command, sizeof_segment_command}
use rork_hook.MachO.Segment
use rork_hook.MachO.Symtab
use rork_hook.MachO.NList
use rork_hook.ImageSlide.{image_slide}
use rork_hook.Symbols.{
  find_symtab, symbol_table_size, file_range_in_segment, find_symbol_entry, apply_slide,
}

unfoldable pub find_symbol :
    Platform → Space → (header : ℕ) → (symbol_name : Option (List ℕ)) → Outcome ℕ
find_symbol p m header symbol_name = do
  require (not (header == null))
  name ← from_option symbol_name
  found ← find_symtab m header (readable_memory_length p m header)
  require (not (found.symtab == null || found.linkedit == null))
  can_read m found.symtab sizeof_symtab_command
  symbol_bytes ← from_option (symbol_table_size (Symtab.nsyms m found.symtab) true)
  (slide, slide_resolved) ← image_slide p m header
  require slide_resolved
  can_read m found.linkedit sizeof_segment_command
  linkedit_address ← from_option (apply_slide (Segment.vmaddr m found.linkedit) slide true)
  symbol_relative_offset ←
      file_range_in_segment m (Symtab.symoff m found.symtab) symbol_bytes found.linkedit true
  string_relative_offset ←
      file_range_in_segment m (Symtab.stroff m found.symtab) (Symtab.strsize m found.symtab)
        found.linkedit true
  require (
      leb symbol_relative_offset u64_max
      && (leb string_relative_offset u64_max
          && (leb linkedit_address (u64_max - symbol_relative_offset)
              && leb linkedit_address (u64_max - string_relative_offset))))
  let symbols = linkedit_address + symbol_relative_offset
  let string_table = linkedit_address + string_relative_offset
  require (neb symbol_bytes 0 && memory_is_readable p m symbols symbol_bytes)
  require (
      neb (Symtab.strsize m found.symtab) 0
      && memory_is_readable p m string_table (Symtab.strsize m found.symtab))
  entry ←
      find_symbol_entry m symbols string_table (Symtab.strsize m found.symtab)
        (Symtab.nsyms m found.symtab) (Option.some name) true
  symbol_address ← from_option (apply_slide (NList.n_value m entry) slide true)
  ok (sign_pointer_if_executable p m symbol_address)
