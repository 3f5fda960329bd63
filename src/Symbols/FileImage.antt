-- ===== src/Symbols/FileImage.antt =====
-- `RorkHookFindSymbolInFileImageWithSize` and `RorkHookFindSymbolInFileImage`.
pub mod Found
pub mod Safety
pub mod Translated
use rork_hook.Base.{
  ℕ, ◌+◌, ◌-◌, Bool, true, false, not, ◌||◌, ◌&&◌, Option, List, ltb, leb, ◌==◌, neb, u64_max,
  if◌then◌else◌,
}
use rork_hook.Outcome.{Outcome, ok, ◌>>=◌, ◌>>◌, require, from_option}
use rork_hook.Space.{Space, null, can_read, read_u32}
use rork_hook.Platform.{Platform}
use rork_hook.Region.{readable_memory_length, memory_is_readable, sign_pointer_if_executable}
use rork_hook.MachO.{lc_segment, sizeof_segment_command, sizeof_symtab_command}
use rork_hook.MachO.Segment
use rork_hook.MachO.Symtab
use rork_hook.MachO.NList
use rork_hook.LoadCommands.{Visitor, for_each_load_command_with_size, cmdsize_offset, sizeof_header}
use rork_hook.Symbols.{find_symtab, symbol_table_size, range_is_valid, find_symbol_entry}

pub record FileAddressContext : Type 0 where
  pub virtual_address : ℕ
  pub file_offset : ℕ
  pub found : Bool

-- The visitor: it stops at the segment whose file bytes hold the address.
unfoldable pub find_file_address_load_command : Space → Visitor FileAddressContext
find_file_address_load_command m command index context =
    if command == null then ok (false, context) else (do
      cmd ← read_u32 m command
      cmdsize ← read_u32 m (command + cmdsize_offset)
      if neb cmd lc_segment || ltb cmdsize sizeof_segment_command then ok (true, context) else (do
        can_read m command sizeof_segment_command
        let segment_offset = context.virtual_address - Segment.vmaddr m command
        if ltb context.virtual_address (Segment.vmaddr m command)
              || (leb (Segment.vmsize m command) segment_offset
                  || (leb (Segment.filesize m command) segment_offset
                      || ltb (u64_max - Segment.fileoff m command) segment_offset))
            then ok (true, context)
            else ok (
              false,
              record context {
                file_offset = Segment.fileoff m command + segment_offset;
                found = true;
              },
            )))

unfoldable pub find_symbol_in_file_image_with_size :
    Platform → Space → (header mapped_size : ℕ) → (symbol_name : Option (List ℕ)) → Outcome ℕ
find_symbol_in_file_image_with_size p m header mapped_size symbol_name = do
  require (not (header == null))
  name ← from_option symbol_name
  require (leb sizeof_header mapped_size && memory_is_readable p m header mapped_size)
  found ← find_symtab m header mapped_size
  require (not (found.symtab == null))
  can_read m found.symtab sizeof_symtab_command
  symbol_bytes ← from_option (symbol_table_size (Symtab.nsyms m found.symtab) true)
  require
      (neb symbol_bytes 0 && range_is_valid (Symtab.symoff m found.symtab) symbol_bytes mapped_size)
  require (
      neb (Symtab.strsize m found.symtab) 0
      && range_is_valid (Symtab.stroff m found.symtab) (Symtab.strsize m found.symtab) mapped_size)
  entry ←
      find_symbol_entry m (header + Symtab.symoff m found.symtab)
        (header + Symtab.stroff m found.symtab) (Symtab.strsize m found.symtab)
        (Symtab.nsyms m found.symtab) (Option.some name) true
  context ←
      for_each_load_command_with_size (λ _. m) (find_file_address_load_command m) header mapped_size
        (record { virtual_address = NList.n_value m entry; file_offset = 0; found = false })
  require (
      context.found
      && (leb context.file_offset u64_max && range_is_valid context.file_offset 1 mapped_size))
  ok (sign_pointer_if_executable p m (header + context.file_offset))

pub find_symbol_in_file_image :
    Platform → Space → (header : ℕ) → (symbol_name : Option (List ℕ)) → Outcome ℕ
find_symbol_in_file_image p m header symbol_name = do
  require (not (header == null))
  name ← from_option symbol_name
  find_symbol_in_file_image_with_size p m header (readable_memory_length p m header)
      (Option.some name)
