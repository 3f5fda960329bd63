-- ===== src/ImageSlide.antt =====
-- The VM slide of a loaded image, of Sources/RorkHook/RorkHookInternal.c.
pub mod Exact
pub mod Bounds
use rork_hook.Base.{
  ℕ, ◌+◌, ◌-◌, ◌*◌, ◌^◌, Bool, true, false, not, ◌||◌, ◌&&◌, Option, none, some, ltb, leb, ◌==◌,
  neb, if◌then◌else◌, u64_max,
}
use rork_hook.Base.Int.{ℤ, pos, negsuc}
use rork_hook.Outcome.{Outcome, ok, rejected, fault, ◌>>=◌, ◌>>◌}
use rork_hook.Space.{Space, null, read_u32, can_read}
use rork_hook.MachO.{lc_segment, sizeof_segment_command}
use rork_hook.MachO.Segment
use rork_hook.Platform.{Platform}
use rork_hook.LoadCommands.{Visitor, for_each_load_command, cmdsize_offset}

-- INTPTR_MAX.
abbrev pub intptr_max : ℕ
intptr_max = 2 ^ 63 - 1

-- `left - right` when it fits in `intptr_t`; `-(intptr_t)magnitude` is negsuc (magnitude - 1).
unfoldable pub address_difference : (left right : ℕ) (difference_out : Bool) → Option ℤ
address_difference left right difference_out =
    if not difference_out
    then none
    else if leb right left
    then (let difference = left - right in
        if ltb intptr_max difference then none else some (pos difference))
    else (let magnitude = right - left in
        let minimum_magnitude = intptr_max + 1 in
        if ltb minimum_magnitude magnitude
        then none
        else some (
            if magnitude == minimum_magnitude then negsuc (2 ^ 63 - 1) else negsuc (magnitude - 1)))

pub record ImageSlideContext : Type 0 where
  pub header : ℕ
  pub slide : ℤ
  pub found : Bool

-- The visitor: it stops at the segment that maps the header.
unfoldable pub image_slide_load_command : Space → Visitor ImageSlideContext
image_slide_load_command m command index context =
    if command == null then ok (false, context) else (do
      cmd ← read_u32 m command
      cmdsize ← read_u32 m (command + cmdsize_offset)
      if neb cmd lc_segment || ltb cmdsize sizeof_segment_command then ok (true, context) else (do
        can_read m command sizeof_segment_command
        if Segment.fileoff m command == 0 && neb (Segment.filesize m command) 0
            then (if ltb u64_max (Segment.vmaddr m command)
                then ok (false, context)
                else elim (address_difference context.header (Segment.vmaddr m command) true) [
                  | none ↦ ok (false, context)
                  | some slide ↦ ok (false, record context { slide = slide; found = true })
                ])
            else ok (true, context)))

-- The slide, and what is stored through `resolved`.
unfoldable pub image_slide : Platform → Space → (header : ℕ) → Outcome (ℤ × Bool)
image_slide p m header =
    if header == null
    then ok (pos 0, false)
    else elim (for_each_load_command (λ _. m) (image_slide_load_command m) p header
        (record { header = header; slide = pos 0; found = false })) [
          | ok context ↦ if context.found then ok (context.slide, true) else ok (pos 0, false)
          | rejected ↦ ok (pos 0, false)
          | fault ↦ fault
        ]
