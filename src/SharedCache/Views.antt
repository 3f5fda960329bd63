-- ===== src/SharedCache/Views.antt =====
-- The views of RorkHookSharedCache.c against ranges of numbers.
use rork_hook.Base.{
  ℕ, ◌+◌, ◌-◌, ◌*◌, ◌≤◌, ◌<◌, ◌^◌, ◌≡◌, ◌≢◌, ◌↔◌, refl, true, false, some, List, arith, ltb, leb,
  ◌==◌, neb, ◌&&◌, ◌||◌, if◌then◌else◌, u64_max, Bool-cases, inl, inr,
}
use rork_hook.Outcome.{ok}
use rork_hook.Outcome.Ensures.{Ensures, returns, require-then, from_option-then, mono}
use rork_hook.Space.{Space, null}
use rork_hook.Space.Reads.{IsReadable, IsReadable-part, can_read-ok}
use rork_hook.CString.Spelled.{IsText, spelled, matches_string-spelled}
use rork_hook.SharedCache.{DataView, data_at, indexed_offset, read_record, string_equals}

-- The whole view can be read.
abbrev pub IsBacked : Space → DataView → Type 0
IsBacked m view = IsReadable m view.bytes view.size

-- For a 64-bit offset a range of a view is granted at an address exactly when the view is not null,
-- the range ends inside the view, and the address is the offset from the start of the view.
pub data_at_iff :
    (view : DataView) (offset length a : ℕ)
    → offset < 2 ^ 64
    → (data_at view offset length ≡ some a)
      ↔ ((view.bytes ≢ null) × (offset + length ≤ view.size) × (a ≡ view.bytes + offset))
unfolding data_at
data_at_iff view offset length a h = (λ e. ground arith, λ p. ground arith)

-- The offset of an element is returned exactly when it is the base plus the index times the stride,
-- and below 2^64.
pub indexed_offset_iff :
    (base index stride a : ℕ)
    → (indexed_offset base index stride true ≡ some a)
      ↔ ((a ≡ base + index * stride) × (a < 2 ^ 64))
unfolding indexed_offset
indexed_offset_iff base index stride a = (λ e. ground arith, λ p. ground arith)

offset_checks :
    (view : DataView) (offset : ℕ)
    → offset < 2 ^ 64
    → view.bytes ≢ null
    → (view.bytes == null || (ltb u64_max offset || leb view.size offset)) ≡ leb view.size offset
offset_checks view offset h storage = ground arith

module _ (m : Space) (view : DataView) (backed : IsBacked m view) where
  pub read_record-Within :
      (offset size : ℕ)
      → offset < 2 ^ 64
      → Ensures
          (λ a. (a ≡ view.bytes + offset) × (offset + size ≤ view.size))
          (read_record m view offset true size)
  unfolding read_record
  read_record-Within offset size h = require-then (true && neb size 0) λ _.
      from_option-then (data_at view offset size) λ a e.
        let (storage, fits, at) = (data_at_iff view offset size a h).0 e in
        rw (can_read-ok m a size backed (omega arith) (omega arith)) (returns (at, fits))

  pub read_record-start :
      (size : ℕ)
      → Ensures (λ a. (a ≡ view.bytes) × (size ≤ view.size)) (read_record m view 0 true size)
  read_record-start size =
      mono (read_record-Within 0 size (omega arith)) λ a (at, fits). (omega arith, omega arith)

  -- A record inside the view is read.
  pub read_record-ok :
      (offset size : ℕ)
      → offset < 2 ^ 64
      → view.bytes ≢ null
      → 0 < size
      → offset + size ≤ view.size
      → read_record m view offset true size ≡ ok (view.bytes + offset)
  unfolding read_record
  read_record-ok offset size h storage nonempty fits =
      let nonzero : neb size 0 ≡ true = ground arith in
      rw
        (
          nonzero,
          (data_at_iff view offset size (view.bytes + offset) h).1 (storage, fits, refl),
          can_read-ok m (view.bytes + offset) size backed (omega arith) (omega arith),
        )
        refl

  -- The comparison never faults, and says whether the string stands at the offset, terminator and
  -- all, inside the view.
  pub string_equals-spelled :
      (offset : ℕ) (xs : List ℕ)
      → offset < 2 ^ 64
      → view.bytes ≢ null
      → IsText xs
      → string_equals m view offset (some xs)
        ≡ ok (
            if leb view.size offset
            then false
            else spelled m (view.bytes + offset) (view.size - offset) xs)
  unfolding string_equals
  string_equals-spelled offset xs h storage t =
      rw (offset_checks view offset h storage) (elim (Bool-cases (leb view.size offset)) [
        | inl out ↦ rw out
        | inr inside ↦
            rw
              (
                inside,
                matches_string-spelled m (view.bytes + offset) (view.size - offset) xs
                    (IsReadable-part _ _ backed (omega arith) (ground arith)) t,
              )
              refl
      ])
