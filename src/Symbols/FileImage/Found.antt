-- ===== src/Symbols/FileImage/Found.antt =====
-- `RorkHookFindSymbolInFileImageWithSize` on a well-formed file.
use rork_hook.Base.{
  ℕ, ◌+◌, ◌*◌, ◌≤◌, ◌<◌, ◌≡◌, ◌≢◌, refl, ap, ◌∙◌, true, not, ◌&&◌, some, List, arith, leb, le→leb,
  ◌==◌, neb, u64_max,
}
use rork_hook.Base.First.{IsFirst, same_index}
use rork_hook.Outcome.{ok}
use rork_hook.Outcome.Ensures.{result}
use rork_hook.Space.{Space, null}
use rork_hook.Space.Reads.{IsReadable, IsReadable-part, can_read-ok, u32_at-lt}
use rork_hook.Platform.{Platform, IsTruthful}
use rork_hook.Region.{memory_is_readable, sign_pointer_if_executable}
use rork_hook.Region.Readable.{memory_is_readable-IsReadable}
use rork_hook.CString.Spelled.{IsText}
use rork_hook.MachO.Symtab
use rork_hook.MachO.NList
use rork_hook.LoadCommands.{sizeof_header}
use rork_hook.LoadCommands.Table.{IsTable}
use rork_hook.Symbols.{range_is_valid, find_symbol_entry}
use rork_hook.Symbols.Entry.{symbol_is, entry_of, find_symbol_entry-IsFirst}
use rork_hook.Symbols.Locate.{find_symtab-last_such, find_symtab-IsFound}
use rork_hook.Symbols.Tables.{symtab_of}
use rork_hook.Symbols.Live.Found.{symbol_table_size-some}
use rork_hook.Symbols.FileImage.{find_symbol_in_file_image_with_size}
use rork_hook.Symbols.FileImage.Translated.{
  file_offset_of, for_each-translated, file_offset_of-word,
}

-- A mapped file whose symbol `index` is the first of this name, and the place of its code.
pub record IsFileImage (p : Platform) (m : Space) (header mapped : ℕ) (commands name : List ℕ)
    (index offset : ℕ) : Type 0 where
  pub reported : memory_is_readable p m header mapped ≡ true
  pub table : IsTable m header mapped commands
  pub symtab_there : symtab_of m commands ≢ null
  pub symbols_in :
      Symtab.symoff m (symtab_of m commands) + Symtab.nsyms m (symtab_of m commands) * 16 ≤ mapped
  pub strings_in :
      Symtab.stroff m (symtab_of m commands) + Symtab.strsize m (symtab_of m commands) ≤ mapped
  pub strings_nonempty : 0 < Symtab.strsize m (symtab_of m commands)
  pub first :
      IsFirst
        (symbol_is m
          (header + Symtab.symoff m (symtab_of m commands))
          (header + Symtab.stroff m (symtab_of m commands))
          (Symtab.strsize m (symtab_of m commands))
          name)
        0
        (Symtab.nsyms m (symtab_of m commands))
        (some index)
  pub in_segment :
      file_offset_of m
        (NList.n_value m (header + Symtab.symoff m (symtab_of m commands) + index * 16))
        commands
      ≡ some offset
  pub inside : offset < mapped

fits_and_valid :
    (n offset length mapped : ℕ)
    → 0 < n
    → offset + length ≤ mapped
    → (neb n 0 && range_is_valid offset length mapped) ≡ true
unfolding range_is_valid
fits_and_valid n offset length mapped positive fits = ground arith

place_valid :
    (offset mapped : ℕ)
    → offset ≤ u64_max
    → offset < mapped
    → (leb offset u64_max && range_is_valid offset 1 mapped) ≡ true
unfolding range_is_valid
place_valid offset mapped word inside = ground arith

module _ (p : Platform) (m : Space) (truthful : IsTruthful p) (header mapped : ℕ)
    (commands name : List ℕ) (index offset : ℕ)
    (i : IsFileImage p m header mapped commands name index offset) (text : IsText name) where
  abbrev t : ℕ
  t = symtab_of m commands

  abbrev symbols : ℕ
  symbols = header + Symtab.symoff m t

  abbrev strings : ℕ
  strings = header + Symtab.stroff m t

  reads : IsReadable m header mapped
  reads = (memory_is_readable-IsReadable p truthful m header mapped i.reported).1

  symtab_reads : IsReadable m t 24
  symtab_reads =
      let found =
        result (find_symtab-IsFound m header mapped reads)
          (find_symtab-last_such m header mapped commands reads i.table) in
      found.symtab_reads i.symtab_there

  entry-found :
      find_symbol_entry m symbols strings (Symtab.strsize m t) (Symtab.nsyms m t) (some name) true
      ≡ ok (symbols + index * 16)
  entry-found =
      let (j, found, first) =
        find_symbol_entry-IsFirst m symbols strings (Symtab.strsize m t) name (Symtab.nsyms m t)
          (omega (arith, i.table.nonnull)) (omega (arith, i.table.nonnull))
          (IsReadable-part _ _ reads (omega arith) (omega (arith, i.symbols_in)))
          (IsReadable-part _ _ reads (omega arith) (omega (arith, i.strings_in))) text in
      found
      ∙ ap (entry_of m symbols strings (Symtab.strsize m t) name) (
          same_index (symbol_is m symbols strings (Symtab.strsize m t) name) 0 (Symtab.nsyms m t) j
            (some index) first i.first)

  -- With a kernel that reports regions truthfully, and a mapped file with a valid table and a
  -- symbol table, whose symbols and strings lie in the file: the search returns the place in the
  -- file, signed if it is executable, that the first segment which holds the value of the first
  -- entry of the name gives it, when that is inside the file. The name holds no zero byte.
  pub find_symbol_in_file_image_with_size_complete :
      find_symbol_in_file_image_with_size p m header mapped (some name)
      ≡ ok (sign_pointer_if_executable p m (header + offset))
  unfolding find_symbol_in_file_image_with_size
  find_symbol_in_file_image_with_size_complete =
      let va = NList.n_value m (symbols + index * 16) in
      let given : not (header == null) ≡ true = ground (arith, i.table.nonnull) in
      let there : not (t == null) ≡ true = ground (arith, i.symtab_there) in
      let large : leb sizeof_header mapped ≡ true =
        le→leb sizeof_header mapped (omega (arith, i.table.fits)) in
      rw
        (
          given,
          large,
          i.reported,
          find_symtab-last_such m header mapped commands reads i.table,
          there,
          can_read-ok m t 24 symtab_reads (omega arith) (omega arith),
          symbol_table_size-some (Symtab.nsyms m t) (u32_at-lt m _),
          fits_and_valid (Symtab.nsyms m t * 16) (Symtab.symoff m t) (Symtab.nsyms m t * 16) mapped
              (omega (arith, i.first)) i.symbols_in,
          fits_and_valid (Symtab.strsize m t) (Symtab.stroff m t) (Symtab.strsize m t) mapped
              i.strings_nonempty i.strings_in,
          entry-found,
          for_each-translated m header mapped va commands reads i.table,
          i.in_segment,
          place_valid offset mapped (file_offset_of-word m va commands offset i.in_segment)
              i.inside,
        )
        refl
