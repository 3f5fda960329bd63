-- ===== src/Files.antt =====
-- `RorkHookMapFile` and `RorkHookUnmapFile` of Sources/RorkHook/RorkHookSharedCache.c. The state is
-- what the process holds: its memory, its open descriptors and its mappings.
pub mod Mapped
use rork_hook.Base.{
  ℕ, ◌+◌, Bool, true, false, not, ◌&&◌, Option, none, some, List, ltb, leb, ◌==◌, neb, u64_max,
  if◌then◌else◌, bit_and,
}
use rork_hook.Base.Int.{ℤ, pos, negsuc}
use rork_hook.Space.{Space, null}

pub record FileMapping : Type 0 where
  pub bytes : ℕ
  pub size : ℕ

-- An open descriptor and the path that it was opened with; the newest stands before the others.
pub record Held : Type 0 where
  pub space : Space
  pub descriptors : List (ℕ × List ℕ)
  pub mappings : List FileMapping

-- What is read of `struct stat`.
pub record Status : Type 0 where
  pub st_mode : ℕ
  pub st_size : ℤ

-- The calls of the system. `none` is a negative descriptor, a failed `fstat` or `MAP_FAILED`.
pub record System : Type 0 where
  pub open_file : Held → (path : List ℕ) (flags : ℕ) → Option ℕ × Held
  pub fstat : Held → (descriptor : ℕ) → Option Status
  pub mmap : Held → (address size protection flags descriptor offset : ℕ) → Option ℕ × Held
  pub close : Held → (descriptor : ℕ) → Held
  pub munmap : Held → (bytes size : ℕ) → Held

-- O_RDONLY | O_CLOEXEC | O_NONBLOCK
abbrev pub open_flags : ℕ
open_flags = 0x1000004

abbrev pub prot_read : ℕ
prot_read = 1

abbrev pub map_private : ℕ
map_private = 2

-- `S_ISREG`
abbrev pub s_isreg : ℕ → Bool
s_isreg mode = bit_and mode 0xf000 == 0x8000

-- The size of a nonempty regular file.
unfoldable pub valid_size : Option Status → Option ℕ
valid_size none = none
valid_size (some status) = elim status.st_size [
  | pos n ↦ if s_isreg status.st_mode && (ltb 0 n && leb n u64_max) then some n else none
  | negsuc n ↦ none
]

abbrev pub empty_mapping : FileMapping
empty_mapping = record { bytes = null; size = 0 }

-- What is returned, what `mappingOut` holds, and what the process holds.
pub record MapResult : Type 0 where
  pub mapped : Bool
  pub mapping : FileMapping
  pub held : Held

abbrev pub not_mapped : Held → MapResult
not_mapped held = record { mapped = false; mapping = empty_mapping; held = held }

-- From the descriptor on.
unfoldable pub map_descriptor : System → Held → (descriptor : ℕ) → MapResult
map_descriptor sys held descriptor = elim (valid_size (sys.fstat held descriptor)) [
  | none ↦ not_mapped (sys.close held descriptor)
  | some size ↦
      let (bytes, mapped) = sys.mmap held null size prot_read map_private descriptor 0 in
      let closed = sys.close mapped descriptor in
      elim bytes [
        | none ↦ not_mapped closed
        | some b ↦ record {
          mapped = true;
          mapping = record { bytes = b; size = size };
          held = closed;
        }
      ]
]

unfoldable pub map_file : System → Held → (path : Option (List ℕ)) (mapping_out : Bool) → MapResult
map_file sys held path mapping_out = if not mapping_out then not_mapped held else elim path [
  | none ↦ not_mapped held
  | some p ↦
      let (descriptor, opened) = sys.open_file held p open_flags in
      elim descriptor [ none ↦ not_mapped opened | some d ↦ map_descriptor sys opened d ]
]

unfoldable pub unmap_file : System → Held → FileMapping → Held
unmap_file sys held mapping =
    if neb mapping.bytes null && neb mapping.size 0
    then sys.munmap held mapping.bytes mapping.size
    else held
