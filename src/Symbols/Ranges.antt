-- ===== src/Symbols/Ranges.antt =====
-- The ranges and the slide arithmetic of RorkHookSymbols.c against numbers.
use rork_hook.Base.{
  ℕ, ◌+◌, ◌-◌, ◌*◌, ◌^◌, ◌≤◌, ◌<◌, ◌≡◌, ◌↔◌, true, not, ◌&&◌, arith, leb, ◌==◌, leb→le, &&_parts,
  some,
}
use rork_hook.Base.Int.{ℤ, pos, negsuc, ◌+ℤ◌, Fits}
use rork_hook.Outcome.Ensures.{Ensures, returns, require-then, access-then}
use rork_hook.Space.{Space, null, can_read}
use rork_hook.Space.Reads.{IsReadable, readable_range-IsReadable}
use rork_hook.MachO.Segment
use rork_hook.Arm64.Offset.{as_address}
use rork_hook.Symbols.{range_is_valid, file_range_in_segment, apply_slide, symbol_table_size}

-- A range is valid exactly when it ends by the end of the file.
pub range_is_valid_iff :
    (offset length total : ℕ)
    → (range_is_valid offset length total ≡ true) ↔ (offset + length ≤ total)
unfolding range_is_valid
range_is_valid_iff offset length total = (λ e. ground arith, λ p. ground arith)

-- A 64-bit address with a signed 64-bit slide applied is the exact sum of integers when that is a
-- 64-bit address, and there is no result otherwise.
pub apply_slide-as_address :
    (address : ℕ) (slide : ℤ)
    → address < 2 ^ 64
    → Fits (2 ^ 63) slide
    → apply_slide address slide true ≡ as_address (pos address +ℤ slide)
unfolding apply_slide ◌+ℤ◌
apply_slide-as_address address (pos n) h f = ground arith
apply_slide-as_address address (negsuc n) h f = ground arith

-- For a readable segment command the place of a file range does not fault, and a place that is
-- returned is the distance of the range from the file bytes of the segment, in which the whole
-- range lies.
pub file_range_in_segment-Within :
    (m : Space) (file_offset length segment : ℕ)
    → IsReadable m segment 72
    → Ensures
        (λ o.
          (Segment.fileoff m segment + o ≡ file_offset) × (o + length ≤ Segment.filesize m segment))
        (file_range_in_segment m file_offset length segment true)
unfolding file_range_in_segment can_read
file_range_in_segment-Within m file_offset length segment r =
    let o = file_offset - Segment.fileoff m segment in
    let size = Segment.filesize m segment in
    require-then (not (segment == null) && true) λ _.
      access-then _ (readable_range-IsReadable m segment 72 r) (
        require-then (leb (Segment.fileoff m segment) file_offset) λ above.
          require-then (leb o size && leb length (size - o)) λ fits.
            let (first, last) = &&_parts (leb o size) (leb length (size - o)) fits in
            returns
              (omega (arith, leb→le _ _ above), omega (arith, leb→le _ _ first, leb→le _ _ last)))

-- The size that is accepted is the exact product.
pub symbol_table_size-eq : (n size : ℕ) → symbol_table_size n true ≡ some size → size ≡ n * 16
unfolding symbol_table_size
symbol_table_size-eq n size e = ground arith
