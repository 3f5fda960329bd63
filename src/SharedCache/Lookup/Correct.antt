-- ===== src/SharedCache/Lookup/Correct.antt =====
-- `RorkHookFindSharedCacheSymbolInData` on arbitrary bytes.
use mathlib.Core.Path.{sym, subst}
use mathlib.Core.Option.{some-injective}
use native.Mathlib.Nat.{zero-add}
use rork_hook.Base.{
  ℕ, ◌+◌, ◌-◌, ◌*◌, ◌≤◌, ◌<◌, ◌^◌, ◌≡◌, ◌≢◌, refl, Bool, true, not, ◌||◌, Option, none, some, List,
  arith, leb, ltb, ◌==◌, u64_max, leb→le, ltb→lt, none-ne-some,
}
use rork_hook.Base.First.{IsFirst}
use rork_hook.Outcome.{ok, ◌>>=◌, from_option}
use rork_hook.Outcome.Ensures.{Ensures, returns, rejects, bind, require-then, from_option-then}
use rork_hook.Space.{Space, null}
use rork_hook.Space.Reads.{IsReadable-part}
use rork_hook.CString.{memcmp_equal}
use rork_hook.CString.Spelled.{IsText, memcmp_equal-returns}
use rork_hook.Platform.{Platform}
use rork_hook.Region.{sign_pointer_if_executable}
use rork_hook.MachO.NList
use rork_hook.SharedCache.{DataView}
use rork_hook.SharedCache.Views.{IsBacked, read_record-start}
use rork_hook.SharedCache.Format.{cache_magic}
use rork_hook.SharedCache.Format.Header
use rork_hook.SharedCache.Format.LocalInfo
use rork_hook.SharedCache.Image.{image_table_location, find_image}
use rork_hook.SharedCache.Image.Search.{path_is, image_table-inside, find_image-IsFirst}
use rork_hook.SharedCache.Local.{find_local_symbol}
use rork_hook.SharedCache.Local.Bounds.{
  IsPart, IsPart-IsBacked, local_view-IsPart, entry_range, image_entry-eq, IsTables,
  symbol_tables-IsTables,
}
use rork_hook.SharedCache.Local.Search.{symbol_is, record_at, records_at, find_local_symbol-IsFirst}
use rork_hook.SharedCache.Lookup.{find_symbol_record, find_shared_cache_symbol_in_data}

-- `e` is the record that defines `name` for the image `path`.
pub record IsDefinition (m : Space) (main symbols : DataView) (path name : List ℕ) (e : ℕ)
    : Type 0 where
  pub image : ℕ
  pub local : DataView
  pub strings : DataView
  pub index : ℕ
  -- Both views begin with the magic of a cache.
  pub main_magic : memcmp_equal m main.bytes cache_magic ≡ ok true
  pub symbols_magic : memcmp_equal m symbols.bytes cache_magic ≡ ok true
  -- The image is the first of the table with that path.
  pub first_image :
      let t = image_table_location m main.bytes in
      IsFirst (path_is m main t.offset path) 0 t.count (some image)
  -- The region and the tables lie inside the symbols view, and the image has an entry.
  pub local_part : IsPart symbols local (Header.local_symbols_offset m symbols.bytes)
  pub listed : image < LocalInfo.entries_count m local.bytes
  pub tables :
      IsTables m local local.bytes (entry_range m local main.bytes local.bytes image) strings
  -- The record is the first in the image's range that defines the name.
  pub first_symbol :
      let range = entry_range m local main.bytes local.bytes image in
      IsFirst
        (symbol_is m local strings (LocalInfo.nlist_offset m local.bytes) name)
        range.start
        (range.start + range.count)
        (some index)
  pub place : e ≡ record_at local (LocalInfo.nlist_offset m local.bytes) index

from_option-Ensures :
    {A : Type 0} {P : A → Type 0} (o : Option A)
    → ((a : A) → o ≡ some a → P a)
    → Ensures P (from_option o)
from_option-Ensures none holds = rejects
from_option-Ensures (some a) holds = returns (holds a refl)

found_symbol :
    (test : ℕ → Bool) (lo hi : ℕ) (local : DataView) (nlist_offset : ℕ) (j : Option ℕ) {e : ℕ}
    → IsFirst test lo hi j
    → records_at local nlist_offset j ≡ some e
    → (k : ℕ) × (e ≡ record_at local nlist_offset k) × IsFirst test lo hi (some k)
found_symbol test lo hi local nlist_offset none first is = absurd (none-ne-some is)
found_symbol test lo hi local nlist_offset (some k) first is =
    (k, sym (some-injective _ _ is), first)

module _ (m : Space) (main symbols : DataView) (path name : List ℕ) (main_backed : IsBacked m main)
    (symbols_backed : IsBacked m symbols) (main_word : main.size < 2 ^ 64)
    (symbols_word : symbols.size < 2 ^ 64) (path_text : IsText path) (name_text : IsText name) where
  -- The search for the image, as a postcondition.
  find_image-Ensures :
      (offset count : ℕ)
      → main.bytes ≢ null
      → offset + count * 32 ≤ main.size
      → Ensures
          (IsFirst (path_is m main offset path) 0 count)
          (find_image m main offset path count 0)
  find_image-Ensures offset count storage fits =
      let (r, found, first) =
        find_image-IsFirst m main offset path main_backed main_word storage path_text count 0
          (omega arith) in
      rw found (returns (rw zero-add at first))

  -- The image's symbols, once the region and the tables are accepted.
  symbol_found :
      (image : ℕ) (local strings : DataView)
      → let t = image_table_location m main.bytes in
        let range = entry_range m local main.bytes local.bytes image in
        memcmp_equal m main.bytes cache_magic ≡ ok true
        → memcmp_equal m symbols.bytes cache_magic ≡ ok true
        → IsFirst (path_is m main t.offset path) 0 t.count (some image)
        → IsPart symbols local (Header.local_symbols_offset m symbols.bytes)
        → image < LocalInfo.entries_count m local.bytes
        → IsTables m local local.bytes range strings
        → Ensures (IsDefinition m main symbols path name) (
            find_local_symbol m local strings
              (LocalInfo.nlist_offset m local.bytes)
              name
              range.count
              range.start
            >>= from_option)
  symbol_found image local strings magic symbols_magic first part listed tables =
      let range = entry_range m local main.bytes local.bytes image in
      let offset = LocalInfo.nlist_offset m local.bytes in
      let backed = IsPart-IsBacked m symbols local _ part symbols_backed in
      let pool = IsPart-IsBacked m local strings _ tables.strings_part backed in
      let (j, found, least) =
        find_local_symbol-IsFirst m local strings offset name backed pool tables.storage
          (omega (arith, tables.storage, tables.strings_part.place)) (omega (arith, part.fits))
          name_text range.count range.start (omega (arith, tables.in_table, tables.table_fits)) in
      rw found (
        from_option-Ensures (records_at local offset j) λ e is.
          let (k, place, first_k) =
            found_symbol (symbol_is m local strings offset name) range.start
              (range.start + range.count) local offset j least is in
          record {
            image = image;
            local = local;
            strings = strings;
            index = k;
            main_magic = magic;
            symbols_magic = symbols_magic;
            first_image = first;
            local_part = part;
            listed = listed;
            tables = tables;
            first_symbol = first_k;
            place = place;
          })

  pub find_symbol_record-IsDefinition :
      Ensures (IsDefinition m main symbols path name) (find_symbol_record m main symbols path name)
  unfolding find_symbol_record
  find_symbol_record-IsDefinition =
      bind (read_record-start m main main_backed 456) λ h (h_at, h_fits).
        bind (read_record-start m symbols symbols_backed 456) λ s (s_at, s_fits).
          rw (h_at, s_at)
            (bind
              (memcmp_equal-returns m main.bytes cache_magic
                (IsReadable-part _ _ main_backed (omega arith) (omega arith)))
              λ main_magic main_is. require-then main_magic λ main_true.
                bind
                  (memcmp_equal-returns m symbols.bytes cache_magic
                    (IsReadable-part _ _ symbols_backed (omega arith) (omega arith)))
                  λ symbols_magic symbols_is. require-then symbols_magic λ symbols_true.
                    bind (image_table-inside m main main.bytes) λ t (t_at, storage, t_fits).
                      let location = image_table_location m main.bytes in
                      rw t_at (
                        bind
                          (find_image-Ensures location.offset location.count storage
                            (rw t_at at t_fits))
                          λ image first. from_option-then image λ k is_k.
                            bind (local_view-IsPart m symbols symbols.bytes) λ local (part, _).
                              let backed = IsPart-IsBacked m symbols local _ part symbols_backed in
                              bind (read_record-start m local backed 24) λ i (i_at, _). rw i_at (
                                require-then (ltb k (LocalInfo.entries_count m local.bytes))
                                  λ listed.
                                    bind (image_entry-eq m local main.bytes local.bytes k backed)
                                      λ range range_at. rw range_at (
                                        bind
                                          (symbol_tables-IsTables m local local.bytes
                                            (entry_range m local main.bytes local.bytes k))
                                          λ strings tables.
                                            symbol_found k local strings (rw main_true at main_is)
                                              (rw symbols_true at symbols_is)
                                              (subst
                                                (IsFirst (path_is m main location.offset path) 0
                                                  location.count)
                                                is_k first)
                                              part (ltb→lt _ _ listed) tables))))

pub find_shared_cache_symbol_in_data-IsDefinition :
    (p : Platform) (m : Space) (main symbols : DataView) (slide : ℕ) (path name : List ℕ)
    → IsBacked m main
    → IsBacked m symbols
    → main.size < 2 ^ 64
    → symbols.size < 2 ^ 64
    → slide < 2 ^ 64
    → IsText path
    → IsText name
    → Ensures
        (λ r.
          (e : ℕ) × IsDefinition m main symbols path name e
          × (slide + NList.n_value m e < 2 ^ 64)
          × (r ≡ sign_pointer_if_executable p m (slide + NList.n_value m e)))
        (find_shared_cache_symbol_in_data p m main.bytes main.size symbols.bytes symbols.size slide
          (some path)
          (some name))
unfolding find_shared_cache_symbol_in_data
find_shared_cache_symbol_in_data-IsDefinition p m main symbols slide path name mb sb mw sw sl pt
      nt =
    require-then (not (main.bytes == null || symbols.bytes == null)) λ _.
      bind (find_symbol_record-IsDefinition m main symbols path name mb sb mw sw pt nt) λ e defined.
        require-then (leb (NList.n_value m e) (u64_max - slide))
          λ room. returns (e, defined, omega (arith, leb→le _ _ room), refl)
