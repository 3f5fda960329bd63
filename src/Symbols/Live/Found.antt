-- ===== src/Symbols/Live/Found.antt =====
-- `RorkHookFindSymbol` on a well-formed image.
use rork_hook.Base.{
  ℕ, ◌+◌, ◌-◌, ◌*◌, ◌^◌, ◌≤◌, ◌<◌, ◌≡◌, ◌≢◌, refl, ap, ◌∙◌, true, not, ◌||◌, ◌&&◌, some, List,
  arith, leb, le→leb, ◌==◌, neb, u64_max,
}
use rork_hook.Base.Int.{ℤ, pos, ◌+ℤ◌}
use rork_hook.Base.First.{IsFirst, same_index}
use rork_hook.Outcome.{ok}
use rork_hook.Outcome.Ensures.{result}
use rork_hook.Space.{Space, null}
use rork_hook.Space.Reads.{IsReadable, can_read-ok, u64_at-lt, u32_at-lt}
use rork_hook.Platform.{Platform, IsTruthful}
use rork_hook.Region.{readable_memory_length, memory_is_readable, sign_pointer_if_executable}
use rork_hook.Region.Readable.{
  readable_memory_length-IsReadable, memory_is_readable-IsReadable, memory_is_readable-nonnull,
}
use rork_hook.CString.Spelled.{IsText}
use rork_hook.MachO.Segment
use rork_hook.MachO.Symtab
use rork_hook.MachO.NList
use rork_hook.Arm64.Offset.{as_address}
use rork_hook.LoadCommands.Table.{IsTable}
use rork_hook.ImageSlide.Exact.{slide_in, image_slide-slide_in}
use rork_hook.ImageSlide.Bounds.{slide_in-Fits}
use rork_hook.Symbols.{symbol_table_size, apply_slide, find_symbol_entry, file_range_in_segment}
use rork_hook.Symbols.Ranges.{apply_slide-as_address}
use rork_hook.Symbols.Entry.{symbol_is, entry_of, find_symbol_entry-IsFirst}
use rork_hook.Symbols.Locate.{IsFound, find_symtab-last_such, find_symtab-IsFound}
use rork_hook.Symbols.Tables.{symtab_of, linkedit_of}
use rork_hook.Symbols.Live.{find_symbol}

-- A range of the file lies in the file bytes of the segment.
abbrev pub InSegment : Space → (segment file_offset length : ℕ) → Type 0
InSegment m segment file_offset length =
    (Segment.fileoff m segment ≤ file_offset)
    × (file_offset + length ≤ Segment.fileoff m segment + Segment.filesize m segment)

-- A loaded image whose symbol `index` is the first of this name.
pub record IsImage (p : Platform) (m : Space) (header : ℕ) (commands : List ℕ) (slide : ℤ)
    (linkedit : ℕ) (name : List ℕ) (index address : ℕ) : Type 0 where
  pub table : IsTable m header (readable_memory_length p m header) commands
  pub symtab_there : symtab_of m commands ≢ null
  pub linkedit_there : linkedit_of m commands ≢ null
  pub slid : slide_in m header commands ≡ some slide
  pub linkedit_slid :
      as_address (pos (Segment.vmaddr m (linkedit_of m commands)) +ℤ slide) ≡ some linkedit
  pub symbols_in :
      InSegment m
        (linkedit_of m commands)
        (Symtab.symoff m (symtab_of m commands))
        (Symtab.nsyms m (symtab_of m commands) * 16)
  pub strings_in :
      InSegment m
        (linkedit_of m commands)
        (Symtab.stroff m (symtab_of m commands))
        (Symtab.strsize m (symtab_of m commands))
  pub strings_nonempty : 0 < Symtab.strsize m (symtab_of m commands)
  -- Where the tables stand in memory, in which they can be read.
  pub symbols : ℕ
  pub strings : ℕ
  pub symbols_place :
      symbols + Segment.fileoff m (linkedit_of m commands)
      ≡ linkedit + Symtab.symoff m (symtab_of m commands)
  pub strings_place :
      strings + Segment.fileoff m (linkedit_of m commands)
      ≡ linkedit + Symtab.stroff m (symtab_of m commands)
  pub symbols_word : symbols < 2 ^ 64
  pub strings_word : strings < 2 ^ 64
  pub symbols_readable :
      memory_is_readable p m symbols (Symtab.nsyms m (symtab_of m commands) * 16) ≡ true
  pub strings_readable :
      memory_is_readable p m strings (Symtab.strsize m (symtab_of m commands)) ≡ true
  pub first :
      IsFirst
        (symbol_is m symbols strings (Symtab.strsize m (symtab_of m commands)) name)
        0
        (Symtab.nsyms m (symtab_of m commands))
        (some index)
  pub address_slid :
      as_address (pos (NList.n_value m (symbols + index * 16)) +ℤ slide) ≡ some address

pub symbol_table_size-some : (n : ℕ) → n < 2 ^ 32 → symbol_table_size n true ≡ some (n * 16)
unfolding symbol_table_size
symbol_table_size-some n h = ground arith

all_fit :
    (base so po symbols strings : ℕ)
    → base + so ≡ symbols
    → base + po ≡ strings
    → symbols < 2 ^ 64
    → strings < 2 ^ 64
    → (leb so u64_max && (leb po u64_max && (leb base (u64_max - so) && leb base (u64_max - po))))
      ≡ true
all_fit base so po symbols strings a b c d = ground arith

file_range_in_segment-ok :
    (m : Space) (file_offset length segment : ℕ)
    → segment ≢ null
    → IsReadable m segment 72
    → InSegment m segment file_offset length
    → file_range_in_segment m file_offset length segment true
      ≡ ok (file_offset - Segment.fileoff m segment)
unfolding file_range_in_segment
file_range_in_segment-ok m file_offset length segment nonnull r (low, high) =
    let given : (not (segment == null) && true) ≡ true = ground arith in
    let o = file_offset - Segment.fileoff m segment in
    let fits : (leb o (Segment.filesize m segment) && leb length (Segment.filesize m segment - o))
        ≡ true =
      ground arith in
    rw
      (
        given,
        can_read-ok m segment 72 r (omega arith) (omega arith),
        le→leb (Segment.fileoff m segment) file_offset low,
        fits,
      )
      refl

module _ (p : Platform) (m : Space) (truthful : IsTruthful p) (header : ℕ) (commands : List ℕ)
    (slide : ℤ) (linkedit : ℕ) (name : List ℕ) (index address : ℕ)
    (i : IsImage p m header commands slide linkedit name index address) (text : IsText name) where
  abbrev t : ℕ
  t = symtab_of m commands

  abbrev l : ℕ
  l = linkedit_of m commands

  located : IsFound m (record { symtab = t; linkedit = l })
  located =
      let r = readable_memory_length-IsReadable p truthful m header in
      result (find_symtab-IsFound m header (readable_memory_length p m header) r)
        (find_symtab-last_such m header (readable_memory_length p m header) commands r i.table)

  slid_as :
      (a b : ℕ)
      → a < 2 ^ 64
      → as_address (pos a +ℤ slide) ≡ some b
      → apply_slide a slide true ≡ some b
  slid_as a b word e =
      apply_slide-as_address a slide word (slide_in-Fits m header commands slide i.slid) ∙ e

  entry-found :
      find_symbol_entry m i.symbols i.strings
        (Symtab.strsize m t)
        (Symtab.nsyms m t)
        (some name)
        true
      ≡ ok (i.symbols + index * 16)
  entry-found =
      let (_, reads) =
        memory_is_readable-IsReadable p truthful m i.symbols (Symtab.nsyms m t * 16)
          i.symbols_readable in
      let (_, pool) =
        memory_is_readable-IsReadable p truthful m i.strings (Symtab.strsize m t)
          i.strings_readable in
      let (j, found, first) =
        find_symbol_entry-IsFirst m i.symbols i.strings (Symtab.strsize m t) name (Symtab.nsyms m t)
          (memory_is_readable-nonnull p truthful m i.symbols (Symtab.nsyms m t * 16)
            i.symbols_readable)
          (memory_is_readable-nonnull p truthful m i.strings (Symtab.strsize m t)
            i.strings_readable)
          reads pool text in
      found
      ∙ ap (entry_of m i.symbols i.strings (Symtab.strsize m t) name) (
          same_index (symbol_is m i.symbols i.strings (Symtab.strsize m t) name) 0
            (Symtab.nsyms m t) j (some index) first i.first)

  -- With a kernel that reports regions truthfully, and an image with a valid table, a symbol table,
  -- a __LINKEDIT segment and a slide, whose symbols and strings lie in the file bytes of that
  -- segment and can be read where it is loaded: RorkHookFindSymbol returns the slid value of the
  -- first entry of the name, signed if it is executable, when the sum is an address. The name holds
  -- no zero byte.
  pub find_symbol_complete :
      find_symbol p m header (some name) ≡ ok (sign_pointer_if_executable p m address)
  unfolding find_symbol
  find_symbol_complete =
      let r = readable_memory_length-IsReadable p truthful m header in
      let so = Symtab.symoff m t - Segment.fileoff m l in
      let po = Symtab.stroff m t - Segment.fileoff m l in
      let linkedit_reads = located.linkedit_reads i.linkedit_there in
      let given : not (header == null) ≡ true = ground (arith, i.table.nonnull) in
      let both_there : not (t == null || l == null) ≡ true =
        ground (arith, i.symtab_there, i.linkedit_there) in
      let symbols_at : linkedit + so ≡ i.symbols = omega (arith, i.symbols_place, i.symbols_in) in
      let strings_at : linkedit + po ≡ i.strings = omega (arith, i.strings_place, i.strings_in) in
      let fit : (leb so u64_max
            && (leb po u64_max && (leb linkedit (u64_max - so) && leb linkedit (u64_max - po))))
          ≡ true =
        all_fit linkedit so po i.symbols i.strings symbols_at strings_at i.symbols_word
          i.strings_word in
      let some_symbols : neb (Symtab.nsyms m t * 16) 0 ≡ true = ground (arith, i.first) in
      let some_strings : neb (Symtab.strsize m t) 0 ≡ true = ground (arith, i.strings_nonempty) in
      rw
        (
          given,
          find_symtab-last_such m header (readable_memory_length p m header) commands r i.table,
          both_there,
          can_read-ok m t 24 (located.symtab_reads i.symtab_there) (omega arith) (omega arith),
          symbol_table_size-some (Symtab.nsyms m t) (u32_at-lt m _),
          image_slide-slide_in m p header commands truthful i.table,
          i.slid,
          can_read-ok m l 72 linkedit_reads (omega arith) (omega arith),
          slid_as (Segment.vmaddr m l) linkedit (u64_at-lt m _) i.linkedit_slid,
          file_range_in_segment-ok m (Symtab.symoff m t) (Symtab.nsyms m t * 16) l i.linkedit_there
              linkedit_reads i.symbols_in,
          file_range_in_segment-ok m (Symtab.stroff m t) (Symtab.strsize m t) l i.linkedit_there
              linkedit_reads i.strings_in,
          fit,
          symbols_at,
          strings_at,
          some_symbols,
          i.symbols_readable,
          some_strings,
          i.strings_readable,
          entry-found,
          slid_as (NList.n_value m (i.symbols + index * 16)) address (u64_at-lt m _) i.address_slid,
        )
        refl
