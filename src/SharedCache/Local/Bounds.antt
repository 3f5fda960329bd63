-- ===== src/SharedCache/Local/Bounds.antt =====
-- The bounds of the local-symbol region of `RorkHookFindSharedCacheSymbolInData`.
use rork_hook.Base.{
  ℕ, ◌+◌, ◌-◌, ◌*◌, ◌≤◌, ◌≡◌, ◌≢◌, refl, true, arith, leb, neb, ◌==◌, ◌&&◌, if◌then◌else◌,
  Bool-cases, inl, inr, u64_max, leb→le, &&_parts,
}
use rork_hook.Outcome.Ensures.{Ensures, returns, bind, require-then, from_option-then}
use rork_hook.Space.{Space, null}
use rork_hook.Space.Reads.{IsReadable-part, u32_at-lt_wide}
use rork_hook.SharedCache.{DataView, data_at, indexed_offset}
use rork_hook.SharedCache.Views.{IsBacked, data_at_iff, indexed_offset_iff, read_record-Within}
use rork_hook.SharedCache.Format.{
  symbol_file_uuid_offset, entry32_start, entry32_count, entry64_start, entry64_count,
}
use rork_hook.SharedCache.Format.Header
use rork_hook.SharedCache.Format.LocalInfo
use rork_hook.SharedCache.Local.{local_view, SymbolRange, image_entry, symbol_tables}

-- `inner` is the part of `outer` from `offset` on, or less.
pub record IsPart (outer inner : DataView) (offset : ℕ) : Type 0 where
  pub place : inner.bytes ≡ outer.bytes + offset
  pub fits : offset + inner.size ≤ outer.size

pub IsPart-IsBacked :
    (m : Space) (outer inner : DataView) (offset : ℕ)
    → IsPart outer inner offset
    → IsBacked m outer
    → IsBacked m inner
IsPart-IsBacked m outer inner offset part backed =
    IsReadable-part inner.bytes inner.size backed (omega (arith, part.place))
      (omega (arith, part.place, part.fits))

pub local_view-IsPart :
    (m : Space) (view : DataView) (h : ℕ)
    → Ensures
        (λ local.
          IsPart view local (Header.local_symbols_offset m h)
          × (Header.local_symbols_offset m h ≢ 0))
        (local_view m view h)
unfolding local_view
local_view-IsPart m view h =
    let base = Header.local_symbols_offset m h in
    let size = Header.local_symbols_size m h in
    let local_size = if size == 0 then view.size - base else size in
    require-then (neb base 0 && leb base u64_max) λ nonzero.
      require-then (leb base view.size && leb size u64_max) λ inside.
        require-then (leb local_size (view.size - base)) λ fits. returns (
          record {
            place = refl;
            fits =
                part_fits base view.size local_size
                  (leb→le _ _ (&&_parts (leb base view.size) (leb size u64_max) inside).0)
                  (leb→le _ _ fits);
          },
          ground arith,
        )
  where
    part_fits : (base total size : ℕ) → base ≤ total → size ≤ total - base → base + size ≤ total
    part_fits base total size p q = omega arith

-- The entry of the image, in either format.
abbrev pub entry_range : Space → (local : DataView) → (main_header symbols_info k : ℕ) → SymbolRange
entry_range m local h i k =
    if leb symbol_file_uuid_offset (Header.mapping_offset m h)
    then (let entry = local.bytes + (LocalInfo.entries_offset m i + k * 16) in
        record { start = entry64_start m entry; count = entry64_count m entry })
    else (let entry = local.bytes + (LocalInfo.entries_offset m i + k * 12) in
        record { start = entry32_start m entry; count = entry32_count m entry })

pub image_entry-eq :
    (m : Space) (local : DataView) (h i k : ℕ)
    → IsBacked m local
    → Ensures (λ range. range ≡ entry_range m local h i k) (image_entry m local h i k)
unfolding image_entry
image_entry-eq m local h i k backed =
    elim (Bool-cases (leb symbol_file_uuid_offset (Header.mapping_offset m h))) [
      | inl modern ↦ rw modern (
          from_option-then (indexed_offset (LocalInfo.entries_offset m i) k 16 true) λ offset e.
            let (at, word) = (indexed_offset_iff (LocalInfo.entries_offset m i) k 16 offset).0 e in
            bind (read_record-Within m local backed offset 16 word)
              λ entry (there, fits). rw (there, at) (returns refl))
      | inr legacy ↦ rw legacy (
          from_option-then (indexed_offset (LocalInfo.entries_offset m i) k 12 true) λ offset e.
            let (at, word) = (indexed_offset_iff (LocalInfo.entries_offset m i) k 12 offset).0 e in
            bind (read_record-Within m local backed offset 12 word)
              λ entry (there, fits). rw (there, at) (returns refl))
    ]

-- What accepted tables satisfy: the image's range, the whole symbol table and the string pool.
pub record IsTables (m : Space) (local : DataView) (i : ℕ) (range : SymbolRange)
    (strings : DataView) : Type 0 where
  pub storage : local.bytes ≢ null
  pub in_table : range.start + range.count ≤ LocalInfo.nlist_count m i
  pub table_fits : LocalInfo.nlist_offset m i + LocalInfo.nlist_count m i * 16 ≤ local.size
  pub strings_part : IsPart local strings (LocalInfo.strings_offset m i)
  pub strings_size : strings.size ≡ LocalInfo.strings_size m i

pub symbol_tables-IsTables :
    (m : Space) (local : DataView) (i : ℕ) (range : SymbolRange)
    → Ensures (IsTables m local i range) (symbol_tables m local i range)
unfolding symbol_tables
symbol_tables-IsTables m local i range =
    let end = range.start + range.count in
    let size = LocalInfo.nlist_count m i * 16 in
    require-then (leb end u64_max && leb end (LocalInfo.nlist_count m i)) λ inside.
      require-then (leb size u64_max) λ small.
        from_option-then (data_at local (LocalInfo.nlist_offset m i) size) λ a e.
          from_option-then
            (data_at local (LocalInfo.strings_offset m i) (LocalInfo.strings_size m i))
            λ b f.
              let (storage, table, _) =
                (data_at_iff local (LocalInfo.nlist_offset m i) size a (u32_at-lt_wide m _)).0 e in
              let (_, pool, _) =
                (data_at_iff local (LocalInfo.strings_offset m i) (LocalInfo.strings_size m i) b
                    (u32_at-lt_wide m _)).0
                  f in
              returns (record {
                storage = storage;
                in_table = leb→le _ _ (&&_parts (leb end u64_max) _ inside).1;
                table_fits = table;
                strings_part = record { place = refl; fits = pool };
                strings_size = refl;
              })
