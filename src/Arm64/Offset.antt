-- ===== src/Arm64/Offset.antt =====
-- `RorkHookAddSignedOffset` against the exact sum of integers.
use rork_hook.Base.{ℕ, ◌^◌, ◌<◌, ◌≡◌, true, Option, none, some, arith, ltb, if◌then◌else◌}
use rork_hook.Base.Int.{ℤ, pos, negsuc, ◌+ℤ◌, Fits}
use rork_hook.Arm64.{add_signed_offset}

-- An integer as an address of the 64-bit space, if it is one.
abbrev pub as_address : ℤ → Option ℕ
as_address (pos n) = if ltb n (2 ^ 64) then some n else none
as_address (negsuc n) = none

-- The sum of a 64-bit base and a signed 64-bit offset is the exact sum of integers when that is a
-- 64-bit address, and there is no result otherwise.
pub add_signed_offset-as_address :
    (base : ℕ) (offset : ℤ)
    → base < 2 ^ 64
    → Fits (2 ^ 63) offset
    → add_signed_offset true base offset ≡ as_address (pos base +ℤ offset)
unfolding add_signed_offset ◌+ℤ◌
add_signed_offset-as_address base (pos n) h f = ground arith
add_signed_offset-as_address base (negsuc n) h f = ground arith
