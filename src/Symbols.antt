-- ===== src/Symbols.antt =====
-- The symbol tables of Sources/RorkHook/RorkHookSymbols.c: the visitor that locates them, the
-- checked ranges and the search. A null pointer is 0; an `out` pointer is `true` where one is given.
pub mod Ranges
pub mod Entry
pub mod Locate
pub mod Tables
pub mod Live
pub mod FileImage
use rork_hook.Base.{
  ℕ, zero, suc, ◌+◌, ◌-◌, ◌*◌, Bool, true, false, not, ◌||◌, ◌&&◌, Option, none, some, List, [],
  ◌∷◌, ltb, leb, ◌==◌, neb, if◌then◌else◌, u64, u64_max, bit_and,
}
use rork_hook.Base.Int.{ℤ, pos, negsuc}
use rork_hook.Outcome.{Outcome, ok, rejected, fault, ◌>>=◌, ◌>>◌, require, from_option}
use rork_hook.Space.{Space, null, can_read, read_u32}
use rork_hook.CString.{matches_string, strncmp_equal}
use rork_hook.MachO.{
  lc_segment, lc_symtab, sizeof_segment_command, sizeof_symtab_command, sizeof_nlist, n_type_mask,
  n_sect,
}
use rork_hook.MachO.Segment
use rork_hook.MachO.NList
use rork_hook.LoadCommands.{Visitor, for_each_load_command_with_size, cmdsize_offset}

-- The commands of the symbol table and of the `__LINKEDIT` segment, once found.
pub record FindSymtabContext : Type 0 where
  pub symtab : ℕ
  pub linkedit : ℕ

-- "__LINKEDIT"
abbrev pub seg_linkedit : List ℕ
seg_linkedit = b'_' ∷ b'_' ∷ b'L' ∷ b'I' ∷ b'N' ∷ b'K' ∷ b'E' ∷ b'D' ∷ b'I' ∷ b'T' ∷ []

unfoldable pub find_symtab_load_command : Space → Visitor FindSymtabContext
find_symtab_load_command m command index context =
    if command == null then ok (false, context) else (do
      cmd ← read_u32 m command
      cmdsize ← read_u32 m (command + cmdsize_offset)
      if cmd == lc_symtab && leb sizeof_symtab_command cmdsize
          then ok (true, record context { symtab = command })
          else (if cmd == lc_segment && leb sizeof_segment_command cmdsize
              then (do
                is_linkedit ← strncmp_equal m (Segment.segname command) seg_linkedit 16
                ok (true, if is_linkedit then record context { linkedit = command } else context))
              else ok (true, context)))

-- The returned command, null for an invalid table, and what is stored through `linkeditOut`.
unfoldable pub find_symtab : Space → (header mapped_size : ℕ) → Outcome FindSymtabContext
find_symtab m header mapped_size =
    elim (for_each_load_command_with_size (λ _. m) (find_symtab_load_command m) header mapped_size
      (record { symtab = null; linkedit = null })) [
        | ok context ↦ ok context
        | rejected ↦ ok (record { symtab = null; linkedit = null })
        | fault ↦ fault
      ]

unfoldable pub range_is_valid : (offset length total_size : ℕ) → Bool
range_is_valid offset length total_size = leb offset total_size && leb length (total_size - offset)

unfoldable pub symbol_table_size : (symbol_count : ℕ) (size_out : Bool) → Option ℕ
symbol_table_size symbol_count size_out =
    if not size_out
    then none
    else if ltb u64_max (symbol_count * sizeof_nlist)
    then none
    else some (symbol_count * sizeof_nlist)

-- The fields of the segment are those of the command at its address.
unfoldable pub file_range_in_segment :
    Space → (file_offset length segment : ℕ) → (relative_offset_out : Bool) → Outcome ℕ
file_range_in_segment m file_offset length segment relative_offset_out = do
  require (not (segment == null) && relative_offset_out)
  can_read m segment sizeof_segment_command
  require (leb (Segment.fileoff m segment) file_offset)
  let relative_offset = file_offset - Segment.fileoff m segment
  require (
      leb relative_offset (Segment.filesize m segment)
      && leb length (Segment.filesize m segment - relative_offset))
  ok relative_offset

-- One round of the search: whether the entry, which has been copied, defines the name.
unfoldable pub entry_matches :
    Space
    → (string_table string_table_size : ℕ) → (symbol_name : List ℕ) → (entry : ℕ) → Outcome Bool
entry_matches m string_table string_table_size symbol_name entry =
    let string_offset = NList.n_strx m entry in
    if string_offset == 0
      || (leb string_table_size string_offset
          || neb (bit_and (NList.n_type m entry) n_type_mask) n_sect)
    then ok false
    else matches_string m (string_table + string_offset) (string_table_size - string_offset)
        symbol_name

unfoldable pub search_entries :
    (m : Space) (symbols string_table string_table_size : ℕ) (symbol_name : List ℕ)
    → (left index : ℕ) → Outcome ℕ
search_entries m symbols string_table string_table_size symbol_name zero index = rejected
search_entries m symbols string_table string_table_size symbol_name (suc left) index = do
  let entry = symbols + index * sizeof_nlist
  can_read m entry sizeof_nlist
  matching ← entry_matches m string_table string_table_size symbol_name entry
  elim matching [
    | true ↦ ok entry
    | false ↦ search_entries m symbols string_table string_table_size symbol_name left (index + 1)
  ]

-- The address of the entry that the source copies out.
unfoldable pub find_symbol_entry :
    Space
    → (symbols string_table string_table_size symbol_count : ℕ) → (symbol_name : Option (List ℕ))
    → (entry_out : Bool) → Outcome ℕ
find_symbol_entry m symbols string_table string_table_size symbol_count symbol_name entry_out = do
  require (not (symbols == null || string_table == null) && entry_out)
  name ← from_option symbol_name
  search_entries m symbols string_table string_table_size name symbol_count 0

-- A slide of -(n + 1) has the magnitude n + 1.
unfoldable pub apply_slide : (address : ℕ) → (slide : ℤ) → (result_out : Bool) → Option ℕ
apply_slide address (negsuc n) result_out =
    let magnitude = u64 (n + 1) in
    if not result_out || ltb u64_max address
    then none
    else if ltb address magnitude
    then none
    else some (address - magnitude)
apply_slide address (pos magnitude) result_out =
    if not result_out || ltb u64_max address
    then none
    else if ltb (u64_max - magnitude) address
    then none
    else some (address + magnitude)
