-- ===== src/Symbols/FileImage/Safety.antt =====
-- `RorkHookFindSymbolInFileImageWithSize` on arbitrary bytes.
use mathlib.Core.Path.{subst}
use rork_hook.Base.{
  ℕ, ◌+◌, ◌*◌, ◌<◌, ◌≡◌, ◌≢◌, refl, true, not, ◌&&◌, Option, none, inl, inr, some, List, arith, leb,
  ◌==◌, neb, u64_max, &&_parts,
}
use rork_hook.Base.First.{IsFirst}
use rork_hook.Outcome.Ensures.{
  Ensures, returns, rejects, result, bind, require-then, access-then, from_option-then,
}
use rork_hook.Space.{Space, null, can_read}
use rork_hook.Space.Reads.{IsReadable, IsReadable-part, readable_range-IsReadable}
use rork_hook.Platform.{Platform, IsTruthful}
use rork_hook.Region.{memory_is_readable, sign_pointer_if_executable}
use rork_hook.Region.Readable.{memory_is_readable-IsReadable}
use rork_hook.CString.Spelled.{IsText}
use rork_hook.MachO.Symtab
use rork_hook.MachO.NList
use rork_hook.LoadCommands.{sizeof_header}
use rork_hook.Symbols.{symbol_table_size, range_is_valid, find_symbol_entry}
use rork_hook.Symbols.Ranges.{range_is_valid_iff, symbol_table_size-eq}
use rork_hook.Symbols.Entry.{symbol_is, find_symbol_entry-Ensures}
use rork_hook.Symbols.Locate.{find_symtab-IsFound}
use rork_hook.Symbols.FileImage.{find_symbol_in_file_image_with_size}
use rork_hook.Symbols.Tables.{symtab_of, find_symtab-cases}
use rork_hook.Symbols.FileImage.Translated.{file_offset_of, translated, for_each-translated}
use mathlib.Core.Bool.{false≢true}
use rork_hook.LoadCommands.Table.{IsTable}

-- `a` is the signed address, in the file image, of the first symbol of this name.
pub record IsFileSymbol (p : Platform) (m : Space) (header mapped : ℕ) (name : List ℕ) (a : ℕ)
    : Type 0 where
  pub commands : List ℕ
  pub index : ℕ
  pub offset : ℕ
  pub table : IsTable m header mapped commands
  pub symtab_there : symtab_of m commands ≢ null
  pub first :
      IsFirst
        (symbol_is m
          (header + Symtab.symoff m (symtab_of m commands))
          (header + Symtab.stroff m (symtab_of m commands))
          (Symtab.strsize m (symtab_of m commands))
          name)
        0
        (Symtab.nsyms m (symtab_of m commands))
        (some index)
  -- The first segment that holds the value of the entry gives its place.
  pub in_segment :
      file_offset_of m
        (NList.n_value m (header + Symtab.symoff m (symtab_of m commands) + index * 16))
        commands
      ≡ some offset
  pub inside : offset < mapped
  pub place : a ≡ sign_pointer_if_executable p m (header + offset)

module _ (m : Space) where
  -- The rest of the search, once the symbol table is known.
  module _ (p : Platform) (header mapped : ℕ) (name : List ℕ) (t : ℕ) (nonnull : header ≢ null)
      (r : IsReadable m header mapped) (text : IsText name) where
    abbrev symbols : ℕ
    symbols = header + Symtab.symoff m t

    abbrev strings : ℕ
    strings = header + Symtab.stroff m t

    entry_found :
        (bytes : ℕ)
        → symbol_table_size (Symtab.nsyms m t) true ≡ some bytes
        → (neb bytes 0 && range_is_valid (Symtab.symoff m t) bytes mapped) ≡ true
        → (neb (Symtab.strsize m t) 0
            && range_is_valid (Symtab.stroff m t) (Symtab.strsize m t) mapped)
          ≡ true
        → Ensures
            (λ e.
              (k : ℕ) × (e ≡ symbols + k * 16)
              × IsFirst
                  (symbol_is m symbols strings (Symtab.strsize m t) name)
                  0
                  (Symtab.nsyms m t)
                  (some k))
            (find_symbol_entry m symbols strings
              (Symtab.strsize m t)
              (Symtab.nsyms m t)
              (some name)
              true)
    entry_found bytes is_size symbols_fit strings_fit =
        let size = symbol_table_size-eq (Symtab.nsyms m t) bytes is_size in
        let room =
          (range_is_valid_iff (Symtab.symoff m t) bytes mapped).0
            (&&_parts (neb bytes 0) _ symbols_fit).1 in
        let pool =
          (range_is_valid_iff (Symtab.stroff m t) (Symtab.strsize m t) mapped).0
            (&&_parts (neb (Symtab.strsize m t) 0) _ strings_fit).1 in
        find_symbol_entry-Ensures m symbols strings (Symtab.strsize m t) name (Symtab.nsyms m t)
          (omega (arith, nonnull)) (omega (arith, nonnull))
          (IsReadable-part _ _ r (omega arith) (omega (arith, size, room)))
          (IsReadable-part _ _ r (omega arith) (omega (arith, pool))) text

    address_translated :
        (cs : List ℕ) (e k : ℕ) (o : Option ℕ)
        → IsTable m header mapped cs
        → symtab_of m cs ≢ null
        → t ≡ symtab_of m cs
        → e ≡ symbols + k * 16
        → IsFirst
            (symbol_is m symbols strings (Symtab.strsize m t) name)
            0
            (Symtab.nsyms m t)
            (some k)
        → file_offset_of m (NList.n_value m e) cs ≡ o
        → (let context = translated (NList.n_value m e) o in
            (context.found
              && (leb context.file_offset u64_max && range_is_valid context.file_offset 1 mapped))
            ≡ true)
        → IsFileSymbol p m header mapped name (
            sign_pointer_if_executable p m
              (header + (translated (NList.n_value m e) o).file_offset))
    address_translated cs e k none table there is_t at first is done = absurd (false≢true done)
    address_translated cs e k (some o) table there is_t at first is done =
        let inside =
          (range_is_valid_iff o 1 mapped).0
            (&&_parts (leb o u64_max) (range_is_valid o 1 mapped) done).1 in
        record {
          commands = cs;
          index = k;
          offset = o;
          table = table;
          symtab_there = there;
          first =
              subst
                (λ u.
                  IsFirst
                    (symbol_is m (header + Symtab.symoff m u) (header + Symtab.stroff m u)
                      (Symtab.strsize m u) name)
                    0 (Symtab.nsyms m u) (some k))
                is_t first;
          in_segment =
              subst
                (λ u.
                  file_offset_of m (NList.n_value m (header + Symtab.symoff m u + k * 16)) cs
                  ≡ some o)
                is_t (subst (λ a. file_offset_of m (NList.n_value m a) cs ≡ some o) at is);
          inside = omega (arith, inside);
          place = refl;
        }

  -- With a kernel that reports regions truthfully, and whatever bytes the memory holds, the search
  -- of a file image never reads outside readable memory; and when it returns an address, the file
  -- has a valid table with a symbol table, of which the last counts, and the address is that of the
  -- first entry of the name there, translated to a file offset by the first segment of the table
  -- whose file bytes hold it, and inside the file. The name holds no zero byte.
  pub find_symbol_in_file_image_with_size-IsFileSymbol :
      (p : Platform) (header mapped : ℕ) (name : List ℕ)
      → IsTruthful p
      → IsText name
      → Ensures
          (IsFileSymbol p m header mapped name)
          (find_symbol_in_file_image_with_size p m header mapped (some name))
  unfolding find_symbol_in_file_image_with_size can_read
  find_symbol_in_file_image_with_size-IsFileSymbol p header mapped name truthful text =
      require-then (not (header == null)) λ given.
        let nonnull : header ≢ null = ground arith in
        require-then (leb sizeof_header mapped && memory_is_readable p m header mapped) λ large.
          let (_, reads) =
            &&_parts (leb sizeof_header mapped) (memory_is_readable p m header mapped) large in
          let (_, r) = memory_is_readable-IsReadable p truthful m header mapped reads in
          elim (find_symtab-cases m header mapped r) [
            | inr none_found ↦ rw none_found rejects
            | inl (cs, table, found) ↦
                let t = symtab_of m cs in
                let is_found = result (find_symtab-IsFound m header mapped r) found in
                rw found (
                  require-then (not (t == null)) λ has_symtab.
                    let there : t ≢ null = ground arith in
                    access-then _ (readable_range-IsReadable m t 24 (is_found.symtab_reads there)) (
                      from_option-then (symbol_table_size (Symtab.nsyms m t) true) λ bytes is_size.
                        require-then
                          (neb bytes 0 && range_is_valid (Symtab.symoff m t) bytes mapped)
                          λ symbols_fit.
                            require-then
                              (neb (Symtab.strsize m t) 0
                                && range_is_valid (Symtab.stroff m t) (Symtab.strsize m t) mapped)
                              λ strings_fit.
                                bind
                                  (entry_found p header mapped name t nonnull r text bytes is_size
                                    symbols_fit strings_fit)
                                  λ e (k, at, first).
                                    let va = NList.n_value m e in
                                    let o = file_offset_of m va cs in
                                    rw (for_each-translated m header mapped va cs r table) (
                                      require-then
                                        ((translated va o).found
                                          && (leb (translated va o).file_offset u64_max
                                              && range_is_valid (translated va o).file_offset 1
                                                  mapped))
                                        λ done. returns (
                                          address_translated p header mapped name t nonnull r text
                                            cs e k o table there refl at first refl done))))
          ]
