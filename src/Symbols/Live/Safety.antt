-- ===== src/Symbols/Live/Safety.antt =====
-- `RorkHookFindSymbol` on arbitrary bytes.
use mathlib.Core.Path.{subst}
use rork_hook.Base.{
  ℕ, ◌+◌, ◌-◌, ◌*◌, ◌^◌, ◌<◌, ◌≡◌, ◌≢◌, inl, inr, Option-cases, refl, true, not, ◌||◌, ◌&&◌, some,
  List, arith, leb, ◌==◌, neb, u64_max, &&_parts, sym, ◌∙◌,
}
use rork_hook.Base.Int.{ℤ, pos, ◌+ℤ◌, Fits}
use rork_hook.Base.First.{IsFirst}
use rork_hook.Outcome.{ok, ◌>>=◌, ◌>>◌, require, from_option}
use rork_hook.Outcome.Ensures.{
  Ensures, returns, rejects, result, bind, require-then, access-then, from_option-then,
}
use rork_hook.Space.{Space, null, can_read}
use rork_hook.Space.Reads.{IsReadable, readable_range-IsReadable, u64_at-lt}
use rork_hook.Platform.{Platform, IsTruthful}
use rork_hook.Region.{readable_memory_length, memory_is_readable, sign_pointer_if_executable}
use rork_hook.Region.Readable.{
  readable_memory_length-IsReadable, memory_is_readable-IsReadable, memory_is_readable-nonnull,
}
use rork_hook.CString.Spelled.{IsText}
use rork_hook.MachO.Segment
use rork_hook.MachO.Symtab
use rork_hook.MachO.NList
use rork_hook.Arm64.Offset.{as_address}
use rork_hook.LoadCommands.Table.{IsTable}
use rork_hook.ImageSlide.Exact.{slide_in, image_slide-slide_in}
use rork_hook.ImageSlide.Bounds.{slide_in-Fits}
use rork_hook.Symbols.{symbol_table_size, apply_slide, find_symbol_entry, file_range_in_segment}
use rork_hook.Symbols.Ranges.{
  symbol_table_size-eq, apply_slide-as_address, file_range_in_segment-Within,
}
use rork_hook.Symbols.Entry.{symbol_is, find_symbol_entry-Ensures}
use rork_hook.Symbols.Locate.{find_symtab-IsFound}
use rork_hook.Symbols.Tables.{symtab_of, linkedit_of, find_symtab-cases}
use rork_hook.Symbols.Live.{find_symbol}

-- `a` is the signed address of the first symbol of this name in the loaded image.
pub record IsLoadedSymbol (p : Platform) (m : Space) (header : ℕ) (name : List ℕ) (a : ℕ)
    : Type 0 where
  pub commands : List ℕ
  pub slide : ℤ
  pub symtab : ℕ
  pub linkedit : ℕ
  pub linkedit_address : ℕ
  pub symbols : ℕ
  pub strings : ℕ
  pub index : ℕ
  pub address : ℕ
  -- The slide is that of the image.
  pub table : IsTable m header (readable_memory_length p m header) commands
  -- The last symbol table and the last `__LINKEDIT` segment of the table.
  pub symtab_found : symtab ≡ symtab_of m commands
  pub symtab_there : symtab ≢ null
  pub linkedit_found : linkedit ≡ linkedit_of m commands
  pub linkedit_there : linkedit ≢ null
  pub slid_by : slide_in m header commands ≡ some slide
  -- The tables stand at their file offsets in the slid segment.
  pub linkedit_slid : as_address (pos (Segment.vmaddr m linkedit) +ℤ slide) ≡ some linkedit_address
  pub symbols_place :
      symbols + Segment.fileoff m linkedit ≡ linkedit_address + Symtab.symoff m symtab
  pub strings_place :
      strings + Segment.fileoff m linkedit ≡ linkedit_address + Symtab.stroff m symtab
  -- The entry is the first of the name, and its address is slid too.
  pub first :
      IsFirst
        (symbol_is m symbols strings (Symtab.strsize m symtab) name)
        0
        (Symtab.nsyms m symtab)
        (some index)
  pub address_slid :
      as_address (pos (NList.n_value m (symbols + index * 16)) +ℤ slide) ≡ some address
  pub place : a ≡ sign_pointer_if_executable p m address

module _ (p : Platform) (m : Space) (truthful : IsTruthful p) where
  entry_found :
      (symbols strings strings_size count bytes : ℕ) (name : List ℕ)
      → symbol_table_size count true ≡ some bytes
      → (neb bytes 0 && memory_is_readable p m symbols bytes) ≡ true
      → (neb strings_size 0 && memory_is_readable p m strings strings_size) ≡ true
      → IsText name
      → Ensures
          (λ e.
            (k : ℕ) × (e ≡ symbols + k * 16)
            × IsFirst (symbol_is m symbols strings strings_size name) 0 count (some k))
          (find_symbol_entry m symbols strings strings_size count (some name) true)
  entry_found symbols strings strings_size count bytes name is_size symbols_in strings_in text =
      let size = symbol_table_size-eq count bytes is_size in
      let (_, reads) = &&_parts (neb bytes 0) (memory_is_readable p m symbols bytes) symbols_in in
      let (_, pool) =
        &&_parts (neb strings_size 0) (memory_is_readable p m strings strings_size) strings_in in
      find_symbol_entry-Ensures m symbols strings strings_size name count
        (memory_is_readable-nonnull p truthful m symbols bytes reads)
        (memory_is_readable-nonnull p truthful m strings strings_size pool)
        (rw size at (memory_is_readable-IsReadable p truthful m symbols bytes reads).1)
        (memory_is_readable-IsReadable p truthful m strings strings_size pool).1 text

  slid_as :
      (address : ℕ) (z : ℤ) (a : ℕ)
      → address < 2 ^ 64
      → Fits (2 ^ 63) z
      → apply_slide address z true ≡ some a
      → as_address (pos address +ℤ z) ≡ some a
  slid_as address z a word small e = sym (apply_slide-as_address address z word small) ∙ e

  module _ (header : ℕ) (name : List ℕ) (text : IsText name) (t l : ℕ) (cs : List ℕ) (z : ℤ)
      (table : IsTable m header (readable_memory_length p m header) cs)
      (by : slide_in m header cs ≡ some z) (is_symtab : t ≡ symtab_of m cs) (is_there : t ≢ null)
      (is_linkedit : l ≡ linkedit_of m cs) (linkedit_there : l ≢ null) where
    -- The search once both tables are placed.
    tables_searched :
        (base o s bytes : ℕ)
        → apply_slide (Segment.vmaddr m l) z true ≡ some base
        → Segment.fileoff m l + o ≡ Symtab.symoff m t
        → Segment.fileoff m l + s ≡ Symtab.stroff m t
        → symbol_table_size (Symtab.nsyms m t) true ≡ some bytes
        → (neb bytes 0 && memory_is_readable p m (base + o) bytes) ≡ true
        → (neb (Symtab.strsize m t) 0 && memory_is_readable p m (base + s) (Symtab.strsize m t))
          ≡ true
        → Ensures (IsLoadedSymbol p m header name) (do
          e ←
              find_symbol_entry m
                (base + o)
                (base + s)
                (Symtab.strsize m t)
                (Symtab.nsyms m t)
                (some name)
                true
          a ← from_option (apply_slide (NList.n_value m e) z true)
          ok (sign_pointer_if_executable p m a))
    tables_searched base o s bytes is_base o_at s_at is_size symbols_in strings_in =
        let small = slide_in-Fits m header cs z by in
        bind
          (entry_found (base + o) (base + s) (Symtab.strsize m t) (Symtab.nsyms m t) bytes name
            is_size symbols_in strings_in text)
          λ e (k, at, first). from_option-then (apply_slide (NList.n_value m e) z true) λ a is_a.
            returns (record {
              commands = cs;
              slide = z;
              symtab = t;
              linkedit = l;
              linkedit_address = base;
              symbols = base + o;
              strings = base + s;
              index = k;
              address = a;
              table = table;
              symtab_found = is_symtab;
              symtab_there = is_there;
              linkedit_found = is_linkedit;
              linkedit_there = linkedit_there;
              slid_by = by;
              linkedit_slid = slid_as _ z base (u64_at-lt m _) small is_base;
              symbols_place = omega (arith, o_at);
              strings_place = omega (arith, s_at);
              first = first;
              address_slid =
                  subst (λ b. as_address (pos (NList.n_value m b) +ℤ z) ≡ some a) at
                    (slid_as _ z a (u64_at-lt m _) small is_a);
              place = refl;
            })

    -- The placing of both tables in the slid segment.
    linkedit_searched :
        (bytes : ℕ)
        → symbol_table_size (Symtab.nsyms m t) true ≡ some bytes
        → IsReadable m l 72
        → Ensures (IsLoadedSymbol p m header name) (do
          base ← from_option (apply_slide (Segment.vmaddr m l) z true)
          o ← file_range_in_segment m (Symtab.symoff m t) bytes l true
          s ← file_range_in_segment m (Symtab.stroff m t) (Symtab.strsize m t) l true
          require (
              leb o u64_max
              && (leb s u64_max && (leb base (u64_max - o) && leb base (u64_max - s))))
          require (neb bytes 0 && memory_is_readable p m (base + o) bytes)
          require
              (neb (Symtab.strsize m t) 0 && memory_is_readable p m (base + s) (Symtab.strsize m t))
          e ←
              find_symbol_entry m
                (base + o)
                (base + s)
                (Symtab.strsize m t)
                (Symtab.nsyms m t)
                (some name)
                true
          a ← from_option (apply_slide (NList.n_value m e) z true)
          ok (sign_pointer_if_executable p m a))
    linkedit_searched bytes is_size r =
        from_option-then (apply_slide (Segment.vmaddr m l) z true) λ base is_base.
          bind (file_range_in_segment-Within m (Symtab.symoff m t) bytes l r) λ o (o_at, _).
            bind (file_range_in_segment-Within m (Symtab.stroff m t) (Symtab.strsize m t) l r)
              λ s (s_at, _).
                require-then
                  (leb o u64_max
                    && (leb s u64_max && (leb base (u64_max - o) && leb base (u64_max - s))))
                  λ _.
                    require-then (neb bytes 0 && memory_is_readable p m (base + o) bytes)
                      λ symbols_in.
                        require-then
                          (neb (Symtab.strsize m t) 0
                            && memory_is_readable p m (base + s) (Symtab.strsize m t))
                          λ strings_in.
                            tables_searched base o s bytes is_base o_at s_at is_size symbols_in
                              strings_in

  -- With a kernel that reports regions truthfully, and whatever bytes the memory holds,
  -- RorkHookFindSymbol never reads outside readable memory; and when it returns an address, the
  -- image has a valid table, and the address is that of the first entry of the name in its last
  -- symbol table, read where the slid last __LINKEDIT segment places it, slid by the slide of the
  -- image without wrap-around and signed if it is executable. The name holds no zero byte.
  pub find_symbol-IsLoadedSymbol :
      (header : ℕ) (name : List ℕ)
      → IsText name
      → Ensures (IsLoadedSymbol p m header name) (find_symbol p m header (some name))
  unfolding find_symbol can_read
  find_symbol-IsLoadedSymbol header name text = require-then (not (header == null)) λ given.
      let mapped = readable_memory_length p m header in
      let r = readable_memory_length-IsReadable p truthful m header in
      elim (find_symtab-cases m header mapped r) [
        | inr none_found ↦ rw none_found rejects
        | inl (cs, table, found) ↦
            let t = symtab_of m cs in
            let l = linkedit_of m cs in
            let is_found = result (find_symtab-IsFound m header mapped r) found in
            rw found (
              require-then (not (t == null || l == null)) λ both.
                let symtab_there : t ≢ null = ground arith in
                let linkedit_there : l ≢ null = ground arith in
                let linkedit_reads = is_found.linkedit_reads linkedit_there in
                access-then _
                  (readable_range-IsReadable m t 24 (is_found.symtab_reads symtab_there))
                  (from_option-then (symbol_table_size (Symtab.nsyms m t) true) λ bytes is_size.
                    rw (image_slide-slide_in m p header cs truthful table)
                      (elim (Option-cases (slide_in m header cs)) [
                        | inl unresolved ↦ rw unresolved rejects
                        | inr (z, by) ↦ rw by (
                            access-then _ (readable_range-IsReadable m l 72 linkedit_reads) (
                              linkedit_searched header name text t l cs z table by refl symtab_there
                                refl linkedit_there bytes is_size linkedit_reads))
                      ])))
      ]
