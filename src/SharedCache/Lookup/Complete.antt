-- ===== src/SharedCache/Lookup/Complete.antt =====
-- The steps of `RorkHookFindSharedCacheSymbolInData` on parts that lie inside their views.
use rork_hook.Base.{
  ℕ, ◌+◌, ◌-◌, ◌*◌, ◌≤◌, ◌<◌, ◌^◌, ◌≡◌, ◌≢◌, refl, true, ◌&&◌, arith, leb, ◌==◌, neb, u64_max,
  if◌then◌else◌, Bool-cases, inl, inr,
}
use rork_hook.Outcome.{ok}
use rork_hook.Space.{Space, null}
use rork_hook.Space.Reads.{u32_at-lt_wide, u64_at-lt}
use rork_hook.SharedCache.{DataView}
use rork_hook.SharedCache.Views.{IsBacked, data_at_iff, indexed_offset_iff, read_record-ok}
use rork_hook.SharedCache.Format.{symbol_file_uuid_offset}
use rork_hook.SharedCache.Format.Header
use rork_hook.SharedCache.Format.LocalInfo
use rork_hook.SharedCache.Image.{image_table_location, image_table}
use rork_hook.SharedCache.Local.{SymbolRange, local_view, image_entry, symbol_tables}
use rork_hook.SharedCache.Local.Bounds.{entry_range}

-- The region of the local symbols, by the header at `h`.
abbrev pub region : Space → DataView → (h : ℕ) → DataView
region m view h = record {
  bytes = view.bytes + Header.local_symbols_offset m h;
  size =
      if Header.local_symbols_size m h == 0
      then view.size - Header.local_symbols_offset m h
      else Header.local_symbols_size m h;
}

-- The string pool of a region.
abbrev pub pool : Space → DataView → DataView
pool m local = record {
  bytes = local.bytes + LocalInfo.strings_offset m local.bytes;
  size = LocalInfo.strings_size m local.bytes;
}

-- The bytes of an entry of the image table of a region.
abbrev pub entry_size : Space → (main_header : ℕ) → ℕ
entry_size m h = if leb symbol_file_uuid_offset (Header.mapping_offset m h) then 16 else 12

module _ (m : Space) where
  pub image_table-ok :
      (view : DataView) (h : ℕ)
      → let t = image_table_location m h in
        view.bytes ≢ null
        → t.offset ≢ 0
        → t.count ≢ 0
        → t.offset + t.count * 32 ≤ view.size
        → view.size < 2 ^ 64
        → image_table m view h ≡ ok t
  unfolding image_table
  image_table-ok view h storage a b fits word =
      let t = image_table_location m h in
      let placed : (neb t.offset 0 && neb t.count 0) ≡ true = ground arith in
      let small : leb (t.count * 32) u64_max ≡ true = ground arith in
      rw
        (
          placed,
          small,
          (data_at_iff view t.offset (t.count * 32) (view.bytes + t.offset) (omega arith)).1
              (storage, fits, refl),
        )
        refl

  pub local_view-region :
      (view : DataView) (h : ℕ)
      → view.size < 2 ^ 64
      → Header.local_symbols_offset m h ≢ 0
      → Header.local_symbols_offset m h + (region m view h).size ≤ view.size
      → local_view m view h ≡ ok (region m view h)
  unfolding local_view
  local_view-region view h word nonzero fits =
      let base = Header.local_symbols_offset m h in
      let size = Header.local_symbols_size m h in
      let a : (neb base 0 && leb base u64_max) ≡ true = ground (arith, u64_at-lt m (h + 72)) in
      let b : (leb base view.size && leb size u64_max) ≡ true =
        ground (arith, u64_at-lt m (h + 80)) in
      let c : leb (region m view h).size (view.size - base) ≡ true = ground arith in
      rw (a, b, c) refl

  pub image_entry-ok :
      (local : DataView) (h k : ℕ)
      → IsBacked m local
      → local.bytes ≢ null
      → local.size < 2 ^ 64
      → LocalInfo.entries_offset m local.bytes + k * entry_size m h + entry_size m h ≤ local.size
      → image_entry m local h local.bytes k ≡ ok (entry_range m local h local.bytes k)
  unfolding image_entry
  image_entry-ok local h k backed storage word fits =
      elim (Bool-cases (leb symbol_file_uuid_offset (Header.mapping_offset m h))) [
        | inl modern ↦
            let at = LocalInfo.entries_offset m local.bytes + k * 16 in
            let room : at + 16 ≤ local.size = rw modern at fits in
            rw
              (
                modern,
                (indexed_offset_iff (LocalInfo.entries_offset m local.bytes) k 16 at).1
                    (refl, omega arith),
                read_record-ok m local backed at 16 (omega arith) storage (omega arith) room,
              )
              refl
        | inr legacy ↦
            let at = LocalInfo.entries_offset m local.bytes + k * 12 in
            let room : at + 12 ≤ local.size = rw legacy at fits in
            rw
              (
                legacy,
                (indexed_offset_iff (LocalInfo.entries_offset m local.bytes) k 12 at).1
                    (refl, omega arith),
                read_record-ok m local backed at 12 (omega arith) storage (omega arith) room,
              )
              refl
      ]

  pub symbol_tables-ok :
      (local : DataView) (range : SymbolRange)
      → local.bytes ≢ null
      → local.size < 2 ^ 64
      → range.start + range.count ≤ LocalInfo.nlist_count m local.bytes
      → LocalInfo.nlist_offset m local.bytes + LocalInfo.nlist_count m local.bytes * 16 ≤ local.size
      → LocalInfo.strings_offset m local.bytes + LocalInfo.strings_size m local.bytes ≤ local.size
      → symbol_tables m local local.bytes range ≡ ok (pool m local)
  unfolding symbol_tables
  symbol_tables-ok local range storage word in_table table strings =
      let i = local.bytes in
      let end = range.start + range.count in
      let n = LocalInfo.nlist_count m i in
      let a : (leb end u64_max && leb end n) ≡ true = ground (arith, u32_at-lt_wide m (i + 4)) in
      let b : leb (n * 16) u64_max ≡ true = ground arith in
      rw
        (
          a,
          b,
          (data_at_iff local (LocalInfo.nlist_offset m i) (n * 16) _ (omega arith)).1
              (storage, table, refl),
          (data_at_iff local (LocalInfo.strings_offset m i) (LocalInfo.strings_size m i) _
                (omega arith)).1
              (storage, strings, refl),
        )
        refl
