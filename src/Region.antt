-- ===== src/Region.antt =====
-- The VM queries of Sources/RorkHook/RorkHookInternal.c.
pub mod Readable
pub mod Granular
use rork_hook.Base.{
  ℕ, ◌+◌, ◌-◌, Bool, not, ◌&&◌, ◌||◌, Option, none, some, ltb, leb, ◌==◌, neb, if◌then◌else◌, ◌>>=◌,
  u64,
}
use rork_hook.Space.{Space, null, has, vm_prot_read, vm_prot_execute}
use rork_hook.Platform.{Region, Platform}

-- The region that contains the address. The source returns its parts through three pointers.
unfoldable pub query_region : Platform → Space → ℕ → Option Region
query_region p m address = if address == null then none else do
  region ← p.vm_region m address
  let region_end = u64 (region.start + region.size)
  if ltb region_end region.start || (ltb address region.start || leb region_end address)
      then none
      else some region

unfoldable pub memory_protection : Platform → Space → ℕ → (protection_out : Bool) → Option ℕ
memory_protection p m address protection_out =
    if not protection_out
    then none
    else do region ← query_region p m address; some region.protection

unfoldable pub readable_memory_length : Platform → Space → ℕ → ℕ
readable_memory_length p m address = elim (query_region p m address) [
  | none ↦ 0
  | some region ↦
      if not (has region.protection vm_prot_read)
      then 0
      else let region_end = u64 (region.start + region.size) in
        if ltb region_end region.start || (ltb address region.start || leb region_end address)
        then 0
        else region_end - address
]

unfoldable pub memory_is_readable : Platform → Space → ℕ → ℕ → Bool
memory_is_readable p m address length =
    neb length 0 && leb length (readable_memory_length p m address)

-- The pointer signed for a call, if it is to code; any other pointer bit for bit.
unfoldable pub sign_pointer_if_executable : Platform → Space → ℕ → ℕ
sign_pointer_if_executable p m pointer =
    if pointer == null
    then null
    else if not p.ptrauth_calls
    then pointer
    else let raw_pointer = p.strip pointer in
      elim (query_region p m raw_pointer) [
        | none ↦ pointer
        | some region ↦
            if has region.protection vm_prot_execute then p.sign raw_pointer 0 else pointer
      ]
