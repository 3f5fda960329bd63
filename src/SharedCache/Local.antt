-- ===== src/SharedCache/Local.antt =====
-- The second half of `RorkHookFindSharedCacheSymbolInData`: the local-symbol region, the image's
-- range of symbols and the tables.
pub mod Bounds
pub mod Search
use rork_hook.Base.{
  ℕ, zero, suc, ◌+◌, ◌-◌, ◌*◌, Bool, true, false, not, ◌||◌, ◌&&◌, Option, none, some, List, ltb,
  leb, ◌==◌, neb, if◌then◌else◌, u64_max, bit_and,
}
use rork_hook.Outcome.{Outcome, ok, rejected, fault, ◌>>=◌, ◌>>◌, require, from_option}
use rork_hook.Space.{Space}
use rork_hook.MachO.{sizeof_nlist, n_type_mask, n_sect}
use rork_hook.MachO.NList
use rork_hook.SharedCache.{DataView, data_at, indexed_offset, read_record, string_equals}
use rork_hook.SharedCache.Format.{
  symbol_file_uuid_offset, sizeof_entry32, sizeof_entry64, entry32_start, entry32_count,
  entry64_start, entry64_count,
}
use rork_hook.SharedCache.Format.Header
use rork_hook.SharedCache.Format.LocalInfo

-- The region of the symbols view that the header describes; a size of zero means the rest.
unfoldable pub local_view :
    Space → (symbols_view : DataView) → (symbols_header : ℕ) → Outcome DataView
local_view m symbols_view h = do
  let local_base = Header.local_symbols_offset m h
  require (neb local_base 0 && leb local_base u64_max)
  require (leb local_base symbols_view.size && leb (Header.local_symbols_size m h) u64_max)
  let local_size =
      if Header.local_symbols_size m h == 0
      then symbols_view.size - local_base
      else Header.local_symbols_size m h
  require (leb local_size (symbols_view.size - local_base))
  ok (record { bytes = symbols_view.bytes + local_base; size = local_size })

pub record SymbolRange : Type 0 where
  pub start : ℕ
  pub count : ℕ

-- The image's entry, in the 64-bit format when the mapping table begins after the sidecar's UUID.
unfoldable pub image_entry :
    Space → (local : DataView) → (main_header symbols_info image_index : ℕ) → Outcome SymbolRange
image_entry m local h i image_index =
    if leb symbol_file_uuid_offset (Header.mapping_offset m h)
    then (do
      entry_offset ←
          from_option
            (indexed_offset (LocalInfo.entries_offset m i) image_index sizeof_entry64 true)
      entry ← read_record m local entry_offset true sizeof_entry64
      ok (record { start = entry64_start m entry; count = entry64_count m entry }))
    else (do
      entry_offset ←
          from_option
            (indexed_offset (LocalInfo.entries_offset m i) image_index sizeof_entry32 true)
      entry ← read_record m local entry_offset true sizeof_entry32
      ok (record { start = entry32_start m entry; count = entry32_count m entry }))

-- The range lies in the symbol table, and both tables lie in the local view; the string pool.
unfoldable pub symbol_tables :
    Space → (local : DataView) → (symbols_info : ℕ) → SymbolRange → Outcome DataView
symbol_tables m local i range = do
  let nlist_end = range.start + range.count
  require (leb nlist_end u64_max && leb nlist_end (LocalInfo.nlist_count m i))
  let nlist_table_size = LocalInfo.nlist_count m i * sizeof_nlist
  require (leb nlist_table_size u64_max)
  _ ← from_option (data_at local (LocalInfo.nlist_offset m i) nlist_table_size)
  _ ← from_option (data_at local (LocalInfo.strings_offset m i) (LocalInfo.strings_size m i))
  ok (record {
    bytes = local.bytes + LocalInfo.strings_offset m i;
    size = LocalInfo.strings_size m i;
  })

-- Whether the record at `symbol` defines the name, read as the loop's condition reads it.
unfoldable pub symbol_matches : Space → (strings : DataView) → List ℕ → (symbol : ℕ) → Outcome Bool
symbol_matches m strings symbol_name symbol =
    if NList.n_strx m symbol == 0
      || (leb strings.size (NList.n_strx m symbol)
          || neb (bit_and (NList.n_type m symbol) n_type_mask) n_sect)
    then ok false
    else string_equals m strings (NList.n_strx m symbol) (some symbol_name)

-- The address of the record at `index`; `none` is a `continue`.
unfoldable pub symbol_record :
    Space → (local : DataView) → (nlist_offset index : ℕ) → Outcome (Option ℕ)
symbol_record m local nlist_offset index =
    elim (indexed_offset nlist_offset index sizeof_nlist true) [
      | none ↦ ok none
      | some symbol_offset ↦ elim (read_record m local symbol_offset true sizeof_nlist) [
        | ok symbol ↦ ok (some symbol)
        | rejected ↦ ok none
        | fault ↦ fault
      ]
    ]

-- The loop over the image's symbols: the first matching record.
unfoldable pub find_local_symbol :
    (m : Space) (local strings : DataView) (nlist_offset : ℕ) (symbol_name : List ℕ)
    → (left index : ℕ) → Outcome (Option ℕ)
find_local_symbol m local strings nlist_offset symbol_name zero index = ok none
find_local_symbol m local strings nlist_offset symbol_name (suc left) index = do
  found ← symbol_record m local nlist_offset index
  matching ← elim found [
    | none ↦ ok false
    | some symbol ↦ symbol_matches m strings symbol_name symbol
  ]
  elim matching [
    | true ↦ ok found
    | false ↦ find_local_symbol m local strings nlist_offset symbol_name left (index + 1)
  ]
