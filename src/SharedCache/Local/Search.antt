-- ===== src/SharedCache/Local/Search.antt =====
-- The symbol loop of `RorkHookFindSharedCacheSymbolInData` against the first record of a name.
use rork_hook.Base.{
  ℕ, zero, suc, ◌+◌, ◌-◌, ◌*◌, ◌≤◌, ◌<◌, ◌^◌, ◌≡◌, ◌≢◌, refl, Bool, false, Option, none, some, List,
  arith, leb, neb, ◌==◌, ◌||◌, if◌then◌else◌, Bool-cases, inl, inr, bit_and,
}
use rork_hook.Base.First.{IsFirst, IsFirst-step, IsFirst-here, IsFirst-empty}
use rork_hook.Outcome.{ok}
use rork_hook.Space.{Space, null}
use rork_hook.Space.Reads.{u32_at-lt_wide}
use rork_hook.CString.Spelled.{IsText, spelled}
use rork_hook.MachO.{n_type_mask, n_sect}
use rork_hook.MachO.NList
use rork_hook.SharedCache.{DataView}
use rork_hook.SharedCache.Views.{
  IsBacked, indexed_offset_iff, read_record-ok, string_equals-spelled,
}
use rork_hook.SharedCache.Local.{symbol_matches, symbol_record, find_local_symbol}

-- A section symbol of this name in the string pool.
abbrev pub defines : Space → (strings : DataView) → (name : List ℕ) → (e : ℕ) → Bool
defines m strings name e =
    if NList.n_strx m e == 0
      || (leb strings.size (NList.n_strx m e)
          || neb (bit_and (NList.n_type m e) n_type_mask) n_sect)
    then false
    else spelled m (strings.bytes + NList.n_strx m e) (strings.size - NList.n_strx m e) name

-- The address of record `k` of the symbol table.
abbrev pub record_at : (local : DataView) (nlist_offset k : ℕ) → ℕ
record_at local nlist_offset k = local.bytes + (nlist_offset + k * 16)

abbrev pub records_at : (local : DataView) (nlist_offset : ℕ) → Option ℕ → Option ℕ
records_at local nlist_offset none = none
records_at local nlist_offset (some k) = some (record_at local nlist_offset k)

symbol_matches-defines :
    (m : Space) (strings : DataView) (name : List ℕ) (e : ℕ)
    → IsBacked m strings
    → strings.bytes ≢ null
    → IsText name
    → symbol_matches m strings name e ≡ ok (defines m strings name e)
unfolding symbol_matches
symbol_matches-defines m strings name e backed storage text =
    let o = NList.n_strx m e in
    let skip =
      NList.n_strx m e == 0
      || (leb strings.size o || neb (bit_and (NList.n_type m e) n_type_mask) n_sect) in
    elim (Bool-cases skip) [
      | inl out ↦ rw out
      | inr considered ↦
          let inside : leb strings.size o ≡ false = ground arith in
          rw
            (
              considered,
              string_equals-spelled m strings backed o name (u32_at-lt_wide m _) storage text,
              inside,
            )
            refl
    ]

module _ (m : Space) (local strings : DataView) (nlist_offset : ℕ) (name : List ℕ) where
  abbrev pub symbol_is : ℕ → Bool
  symbol_is k = defines m strings name (record_at local nlist_offset k)

  symbol_record-at :
      (k : ℕ)
      → IsBacked m local
      → local.bytes ≢ null
      → local.size < 2 ^ 64
      → nlist_offset + k * 16 + 16 ≤ local.size
      → symbol_record m local nlist_offset k ≡ ok (some (record_at local nlist_offset k))
  unfolding symbol_record
  symbol_record-at k backed storage word fits =
      let at = nlist_offset + k * 16 in
      rw ((indexed_offset_iff nlist_offset k 16 at).1 (refl, omega arith), symbol_record)
        (rw (read_record-ok m local backed at 16 (omega arith) storage (omega arith) fits) refl)

  -- When the records from the start index on lie inside a readable view below 2^64 in size, and the
  -- string pool is readable, the loop over the records of the image returns the first one that
  -- defines the name, and none exactly when no record does. Neither view is null, and the name
  -- holds no zero byte.
  pub find_local_symbol-IsFirst :
      IsBacked m local
      → IsBacked m strings
      → local.bytes ≢ null
      → strings.bytes ≢ null
      → local.size < 2 ^ 64
      → IsText name
      → (left index : ℕ) → nlist_offset + (index + left) * 16 ≤ local.size
      → (j : Option ℕ) × (find_local_symbol m local strings nlist_offset name left index
          ≡ ok (records_at local nlist_offset j))
        × IsFirst symbol_is index (index + left) j
  unfolding find_local_symbol
  find_local_symbol-IsFirst backed pool storage pool_storage word text zero index fits =
      (none, refl, IsFirst-empty symbol_is index)
  find_local_symbol-IsFirst backed pool storage pool_storage word text (suc left) index fits =
      let (j, rest, first) =
        find_local_symbol-IsFirst backed pool storage pool_storage word text left (index + 1)
          (omega arith) in
      let read = symbol_record-at index backed storage word (omega arith) in
      let compared =
        symbol_matches-defines m strings name (record_at local nlist_offset index) pool pool_storage
          text in
      elim (Bool-cases (symbol_is index)) [
        | inl same ↦ (some index, rw (read, compared, same), IsFirst-here symbol_is index left same)
        | inr other ↦
            (j, rw (read, compared, other, rest), IsFirst-step symbol_is index left j other first)
      ]
