-- ===== src/LoadCommands.antt =====
-- The load-command table of Sources/RorkHook/RorkHookInternal.c: its validation and the walk over
-- it.
pub mod Table
pub mod Validate
pub mod Visit
pub mod Changing
pub mod Fold
pub mod Decide
use rork_hook.Base.{
  ◌^◌, ℕ, zero, suc, ◌+◌, ◌-◌, ◌/◌, ◌%◌, Bool, true, false, not, ◌&&◌, ◌||◌, ltb, leb, ◌==◌,
  if◌then◌else◌, u32,
}
use rork_hook.Outcome.{Outcome, ok, ◌>>=◌, ◌>>◌, require}
use rork_hook.Space.{Space, null, can_read, read_u32, u32_at}
use rork_hook.Platform.{Platform}
use rork_hook.Region.{readable_memory_length}

abbrev pub sizeof_header : ℕ
sizeof_header = 32

abbrev pub sizeof_load_command : ℕ
sizeof_load_command = 8

abbrev pub load_command_alignment : ℕ
load_command_alignment = 8

abbrev pub mh_magic : ℕ
mh_magic = 0xfeedfacf

-- The offsets of `magic`, `ncmds` and `sizeofcmds` in a header, and of `cmdsize` in a command.
abbrev pub ncmds_offset : ℕ
ncmds_offset = 16

abbrev pub sizeofcmds_offset : ℕ
sizeofcmds_offset = 20

abbrev pub cmdsize_offset : ℕ
cmdsize_offset = 4

-- The loop of `RorkHookValidateLoadCommands` with `left` rounds to go; the final `consumed`.
unfoldable pub check_commands : (m : Space) (command_bytes sizeofcmds left consumed : ℕ) → Outcome ℕ
check_commands m command_bytes sizeofcmds zero consumed = ok consumed
check_commands m command_bytes sizeofcmds (suc left) consumed = do
  require (leb consumed sizeofcmds)
  let remaining = sizeofcmds - consumed
  require (leb sizeof_load_command remaining)
  can_read m (command_bytes + consumed) sizeof_load_command
  let cmdsize = u32_at m (command_bytes + consumed + cmdsize_offset)
  require (
      leb sizeof_load_command cmdsize
      && (cmdsize % load_command_alignment == 0 && leb cmdsize remaining))
  check_commands m command_bytes sizeofcmds left (u32 (consumed + cmdsize))

-- The first byte of a valid table.
unfoldable pub validate_load_commands :
    (m : Space) (header mapped_size : ℕ) (command_bytes_out : Bool) → Outcome ℕ
unfolding check_commands
validate_load_commands m header mapped_size command_bytes_out = do
  require (not (header == null) && (command_bytes_out && leb sizeof_header mapped_size))
  magic ← read_u32 m header
  require (magic == mh_magic)
  sizeofcmds ← read_u32 m (header + sizeofcmds_offset)
  require (leb sizeofcmds (mapped_size - sizeof_header))
  ncmds ← read_u32 m (header + ncmds_offset)
  require (leb ncmds (sizeofcmds / sizeof_load_command))
  let command_bytes = header + sizeof_header
  consumed ← check_commands m command_bytes sizeofcmds ncmds 0
  require (consumed == sizeofcmds)
  ok command_bytes

-- A visitor over states that hold the memory: it says whether to go on.
abbrev pub Visitor : Type 0 → Type 0
Visitor S = (command index : ℕ) → S → Outcome (Bool × S)

-- UINT32_MAX
abbrev pub u32_max : ℕ
u32_max = 2 ^ 32 - 1

module _ {S : Type 0} (memory : S → Space) (visitor : Visitor S) where
  -- The delivery loop, which reads the count again in every round. The counter of 32 bits is `left`
  -- below its largest value; there the count cannot be larger, and the loop ends.
  unfoldable pub visit_commands : (header command_bytes left index consumed : ℕ) → S → Outcome S
  visit_commands header command_bytes zero index consumed s = do
    can_read (memory s) (header + ncmds_offset) 4
    ok s
  visit_commands header command_bytes (suc left) index consumed s = do
    ncmds ← read_u32 (memory s) (header + ncmds_offset)
    elim (ltb index ncmds) [
      | false ↦ ok s
      | true ↦ do
        let command = command_bytes + consumed
        (go_on, s') ← visitor command index s
        elim go_on [
          | false ↦ ok s'
          | true ↦ do
            cmdsize ← read_u32 (memory s') (command + cmdsize_offset)
            visit_commands header command_bytes left (index + 1) (u32 (consumed + cmdsize)) s'
        ]
    ]

  -- `rejected` is the `false` of an invalid table, for which no callback has run.
  unfoldable pub for_each_load_command_with_size : (header mapped_size : ℕ) → S → Outcome S
  for_each_load_command_with_size header mapped_size s = do
    command_bytes ← validate_load_commands (memory s) header mapped_size true
    visit_commands header command_bytes u32_max 0 0 s

  unfoldable pub for_each_load_command : Platform → (header : ℕ) → S → Outcome S
  for_each_load_command p header s =
      for_each_load_command_with_size header (readable_memory_length p (memory s) header) s
