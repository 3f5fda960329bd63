-- ===== src/Rebind.antt =====
-- The pointer rewriting of Sources/RorkHook/RorkHookRebind.c. The state is that of the protected
-- store: the memory and the register of the thread.
pub mod Slots
pub mod Sections
pub mod Whole
pub mod Fates
pub mod Global
pub mod Registry
use rork_hook.Base.{
  ℕ, zero, suc, ◌+◌, ◌*◌, ◌/◌, ◌%◌, Bool, true, false, not, ◌||◌, ◌&&◌, List, [], ◌∷◌, ◌++◌, ltb,
  ◌==◌, neb, if◌then◌else◌, bit_and, bit_or, u64_max,
}
use rork_hook.Base.Texts.{codes, same_text}
use rork_hook.Outcome.{Outcome, ok, rejected, fault, ◌>>=◌, ◌>>◌}
use rork_hook.Space.{
  Space, null, can_read, read_u32, read_u64, vm_prot_read, vm_prot_write, vm_prot_copy,
}
use rork_hook.Space.Write.{bytes_at}
use rork_hook.Platform.{Platform, strip_pointer}
use rork_hook.Region.{memory_is_readable}
use rork_hook.Memory.{Kernel}
use rork_hook.Tpro.{Device}
use rork_hook.MachO.{
  lc_segment, sizeof_segment_command, sizeof_section, section_type, s_lazy_symbol_pointers,
  s_non_lazy_symbol_pointers,
}
use rork_hook.MachO.Segment
use rork_hook.MachO.Section
use rork_hook.LoadCommands.{Visitor, for_each_load_command, cmdsize_offset}
use rork_hook.Pointer.{Process, store_protected_pointer}

-- What the calls of one process run on: the kernel, the device and the loader. `getsectiondata` of a
-- loaded image gives the address and the size of a section; an image stays where it is.
pub record Host : Type 0 where
  pub platform : Platform
  pub kernel : Kernel
  pub device : Device
  pub getsectiondata : (header : ℕ) (segname sectname : List ℕ) → ℕ × ℕ

pub record RebindImageContext : Type 0 where
  pub header : ℕ
  pub replacee_raw : ℕ
  pub replacement : ℕ

unfoldable pub store_slot : Host → Process → (slot value : ℕ) → Outcome (Bool × Process)
store_slot x s slot value =
    store_protected_pointer x.platform x.kernel x.device s slot value
      (bit_or (bit_or vm_prot_read vm_prot_write) vm_prot_copy)

-- The 16 bytes and a zero.
unfoldable pub copy_name : Space → (name : ℕ) → Outcome (List ℕ)
copy_name m name = do can_read m name 16; ok (bytes_at m name 16 ++ (0 ∷ []))

-- The bytes of a buffer before its first zero.
abbrev pub c_string : List ℕ → List ℕ
c_string [] = []
c_string (x ∷ xs) = let further = c_string xs in if x == 0 then [] else x ∷ further

-- What a slot is rewritten to.
unfoldable pub final_value : Platform → (replacement : ℕ) (authenticated : Bool) (slot : ℕ) → ℕ
final_value p replacement authenticated slot =
    if not p.ptrauth_calls
    then replacement
    else if authenticated
    then p.sign (p.strip replacement) slot
    else strip_pointer p replacement

-- The loop over the slots, with `left` of them to go.
unfoldable pub rebind_slots :
    Host
    → RebindImageContext
    → (authenticated : Bool) (slots left index : ℕ) → Process
    → Outcome Process
rebind_slots x context authenticated slots zero index s = ok s
rebind_slots x context authenticated slots (suc left) index s = do
  let slot = slots + index * 8
  current ← read_u64 s.space slot
  s' ←
      if current == null
      then ok s
      else if neb (strip_pointer x.platform current) context.replacee_raw
      then ok s
      else (do
        (stored, s'') ←
            store_slot x s slot (final_value x.platform context.replacement authenticated slot)
        ok s'')
  rebind_slots x context authenticated slots left (index + 1) s'

-- From the names of the section on.
unfoldable pub rebind_named_section :
    Host → RebindImageContext → Process → (segname sectname : List ℕ) → Outcome Process
rebind_named_section x context s segname sectname =
    let (slots, section_size) = x.getsectiondata context.header segname sectname in
    let slot_count = section_size / 8 in
    if slots == null
      || (slot_count == 0
          || (neb (section_size % 8) 0
              || not (memory_is_readable x.platform s.space slots section_size)))
    then ok s
    else rebind_slots x context (same_text sectname (codes "__auth_got")) slots slot_count 0 s

unfoldable pub rebind_section :
    Host → RebindImageContext → Process → (section : ℕ) → Outcome Process
rebind_section x context s section = if section == null then ok s else (do
  segname ← copy_name s.space (Section.segname section)
  sectname ← copy_name s.space (Section.sectname section)
  rebind_named_section x context s (c_string segname) (c_string sectname))

-- The loop over the sections of a segment, with `left` of them to go.
unfoldable pub rebind_sections :
    Host → RebindImageContext → (section left : ℕ) → Process → Outcome Process
rebind_sections x context section zero s = ok s
rebind_sections x context section (suc left) s = do
  can_read s.space section sizeof_section
  let type = bit_and (Section.flags s.space section) section_type
  s' ←
      if type == s_lazy_symbol_pointers || type == s_non_lazy_symbol_pointers
      then rebind_section x context s section
      else ok s
  rebind_sections x context (section + sizeof_section) left s'

-- The visitor; it never stops the walk.
unfoldable pub rebind_image_load_command : Host → RebindImageContext → Visitor Process
rebind_image_load_command x context command index s = if command == null then ok (true, s) else (do
  cmd ← read_u32 s.space command
  cmdsize ← read_u32 s.space (command + cmdsize_offset)
  if neb cmd lc_segment || ltb cmdsize sizeof_segment_command then ok (true, s) else (do
    can_read s.space command sizeof_segment_command
    let nsects = Segment.nsects s.space command
    let sections_size = nsects * sizeof_section
    let sections_end = sizeof_segment_command + sections_size
    if ltb u64_max sections_size || (ltb u64_max sections_end || ltb cmdsize sections_end)
        then ok (true, s)
        else (do
          s' ← rebind_sections x context (command + sizeof_segment_command) nsects s
          ok (true, s'))))

-- Where the table is not valid, nothing is visited.
abbrev pub visited {ℓ} : {S : Type ℓ} → S → Outcome S → Outcome S
visited s (ok s') = ok s'
visited s rejected = ok s
visited s fault = fault

unfoldable pub rebind_symbol_in_image :
    Host → Process → (header replacee replacement : ℕ) → Outcome Process
rebind_symbol_in_image x s header replacee replacement =
    if header == null || (replacee == null || replacement == null)
    then ok s
    else (let context : RebindImageContext = record {
      header = header;
      replacee_raw = strip_pointer x.platform replacee;
      replacement = replacement;
    } in
        visited s (
          for_each_load_command (λ (t : Process). t.space) (rebind_image_load_command x context)
            x.platform header s))
