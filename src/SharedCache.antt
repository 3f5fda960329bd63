-- ===== src/SharedCache.antt =====
-- The bounded views of Sources/RorkHook/RorkHookSharedCache.c: subranges, checked offsets, record
-- reads and string comparison. A pointer is 0 where the source has NULL; an `out` pointer is
-- `true` where one is given.
pub mod Format
pub mod Views
pub mod Image
pub mod Local
pub mod Lookup
pub mod AtPath
pub mod Located
pub mod Active
use rork_hook.Base.{
  ℕ, ◌+◌, ◌-◌, ◌*◌, Bool, not, ◌||◌, ◌&&◌, Option, none, some, List, ltb, leb, ◌==◌, neb,
  if◌then◌else◌, u64_max,
}
use rork_hook.Outcome.{Outcome, ok, ◌>>=◌, ◌>>◌, require, from_option}
use rork_hook.Space.{Space, null, can_read}
use rork_hook.CString.{matches_string}

pub record DataView : Type 0 where
  pub bytes : ℕ
  pub size : ℕ

unfoldable pub data_at : DataView → (offset length : ℕ) → Option ℕ
data_at view offset length =
    if view.bytes == null || ltb u64_max offset
    then none
    else if ltb view.size offset || ltb (view.size - offset) length
    then none
    else some (view.bytes + offset)

-- `base + index * stride`, with the overflow checks of the compiler's builtins.
unfoldable pub indexed_offset : (base index stride : ℕ) (offset_out : Bool) → Option ℕ
indexed_offset base index stride offset_out =
    if not offset_out
    then none
    else if ltb u64_max (index * stride) || ltb u64_max (base + index * stride)
    then none
    else some (base + index * stride)

-- The copy of a record is read where the record stands, so its address is what is returned.
unfoldable pub read_record :
    Space → DataView → (offset : ℕ) (record_out : Bool) (record_size : ℕ) → Outcome ℕ
read_record m view offset record_out record_size = do
  require (record_out && neb record_size 0)
  bytes ← from_option (data_at view offset record_size)
  can_read m bytes record_size
  ok bytes

unfoldable pub string_equals : Space → DataView → (offset : ℕ) → Option (List ℕ) → Outcome Bool
string_equals m view offset expected = elim expected [
  | none ↦ ok Bool.false
  | some text ↦
      if view.bytes == null || (ltb u64_max offset || leb view.size offset)
      then ok Bool.false
      else matches_string m (view.bytes + offset) (view.size - offset) text
]
