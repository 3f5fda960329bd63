-- ===== src/SharedCache/Format/Layout.antt =====
-- The records of Sources/RorkHook/private/RorkHookDyldCache.h by their members, laid out as the C ABI
-- of the target lays out a struct: each member at the next multiple of its alignment.
pub mod Members
use Prim.Native.String.{String}
use rork_hook.Base.{
  ℕ, ◌≡◌, ◌+◌, ◌-◌, ◌%◌, Option, none, some, List, [], ◌∷◌, ◌==◌, ltb, if◌then◌else◌,
}
use rork_hook.Base.Texts.{codes, same_text}
use rork_hook.Space.{Space, u32_at, u64_at}

pub record Member : Type 0 where
  pub name : List ℕ
  pub alignment : ℕ
  pub size : ℕ

abbrev uint32 : String → Member
uint32 name = record { name = codes name; alignment = 4; size = 4 }

abbrev uint64 : String → Member
uint64 name = record { name = codes name; alignment = 8; size = 8 }

-- An array of 16 bytes.
abbrev bytes16 : String → Member
bytes16 name = record { name = codes name; alignment = 1; size = 16 }

abbrev pub aligned : (offset alignment : ℕ) → ℕ
aligned offset alignment =
    if offset % alignment == 0 then offset else offset + (alignment - offset % alignment)

-- `offsetof`, from an offset on.
unfoldable pub offset_from : (offset : ℕ) → List Member → (name : List ℕ) → Option ℕ
offset_from offset [] name = none
offset_from offset (m ∷ members) name =
    let here = aligned offset m.alignment in
    let later = offset_from (here + m.size) members name in
    if same_text m.name name then some here else later

abbrev pub strictest : List Member → ℕ
strictest [] = 1
strictest (m ∷ members) =
    let later = strictest members in if ltb later m.alignment then m.alignment else later

unfoldable pub end_from : (offset : ℕ) → List Member → ℕ
end_from offset [] = offset
end_from offset (m ∷ members) = end_from (aligned offset m.alignment + m.size) members

-- `sizeof`.
unfoldable pub size_of : List Member → ℕ
size_of members = aligned (end_from 0 members) (strictest members)

abbrev pub total : List Member → ℕ
total [] = 0
total (m ∷ members) = m.size + total members

-- The value of an integer member of the record at `base`.
unfoldable pub member_size : List Member → (name : List ℕ) → ℕ
member_size [] name = 0
member_size (m ∷ members) name =
    let later = member_size members name in if same_text m.name name then m.size else later

unfoldable pub read_member : Space → List Member → (base : ℕ) (name : List ℕ) → Option ℕ
read_member m members base name = elim (offset_from 0 members name) [
  | none ↦ none
  | some offset ↦
      if member_size members name == 4
      then some (u32_at m (base + offset))
      else if member_size members name == 8
      then some (u64_at m (base + offset))
      else none
]

-- `RorkHookDyldCacheHeader`.
abbrev pub cache_header : List Member
cache_header =
    bytes16 "magic"
    ∷ uint32 "mappingOffset"
    ∷ uint32 "mappingCount"
    ∷ uint32 "imagesOffsetOld"
    ∷ uint32 "imagesCountOld"
    ∷ uint64 "dyldBaseAddress"
    ∷ uint64 "codeSignatureOffset"
    ∷ uint64 "codeSignatureSize"
    ∷ uint64 "slideInfoOffsetUnused"
    ∷ uint64 "slideInfoSizeUnused"
    ∷ uint64 "localSymbolsOffset"
    ∷ uint64 "localSymbolsSize"
    ∷ bytes16 "uuid"
    ∷ uint64 "cacheType"
    ∷ uint32 "branchPoolsOffset"
    ∷ uint32 "branchPoolsCount"
    ∷ uint64 "dyldInCacheMH"
    ∷ uint64 "dyldInCacheEntry"
    ∷ uint64 "imagesTextOffset"
    ∷ uint64 "imagesTextCount"
    ∷ uint64 "patchInfoAddr"
    ∷ uint64 "patchInfoSize"
    ∷ uint64 "otherImageGroupAddrUnused"
    ∷ uint64 "otherImageGroupSizeUnused"
    ∷ uint64 "progClosuresAddr"
    ∷ uint64 "progClosuresSize"
    ∷ uint64 "progClosuresTrieAddr"
    ∷ uint64 "progClosuresTrieSize"
    ∷ uint32 "platform"
    ∷ uint32 "formatAndFlags"
    ∷ uint64 "sharedRegionStart"
    ∷ uint64 "sharedRegionSize"
    ∷ uint64 "maxSlide"
    ∷ uint64 "dylibsImageArrayAddr"
    ∷ uint64 "dylibsImageArraySize"
    ∷ uint64 "dylibsTrieAddr"
    ∷ uint64 "dylibsTrieSize"
    ∷ uint64 "otherImageArrayAddr"
    ∷ uint64 "otherImageArraySize"
    ∷ uint64 "otherTrieAddr"
    ∷ uint64 "otherTrieSize"
    ∷ uint32 "mappingWithSlideOffset"
    ∷ uint32 "mappingWithSlideCount"
    ∷ uint64 "dylibsPBLStateArrayAddrUnused"
    ∷ uint64 "dylibsPBLSetAddr"
    ∷ uint64 "programsPBLSetPoolAddr"
    ∷ uint64 "programsPBLSetPoolSize"
    ∷ uint64 "programTrieAddr"
    ∷ uint32 "programTrieSize"
    ∷ uint32 "osVersion"
    ∷ uint32 "altPlatform"
    ∷ uint32 "altOsVersion"
    ∷ uint64 "swiftOptsOffset"
    ∷ uint64 "swiftOptsSize"
    ∷ uint32 "subCacheArrayOffset"
    ∷ uint32 "subCacheArrayCount"
    ∷ bytes16 "symbolFileUUID"
    ∷ uint64 "rosettaReadOnlyAddr"
    ∷ uint64 "rosettaReadOnlySize"
    ∷ uint64 "rosettaReadWriteAddr"
    ∷ uint64 "rosettaReadWriteSize"
    ∷ uint32 "imagesOffset"
    ∷ uint32 "imagesCount"
    ∷ []

-- `RorkHookDyldCacheImageInfo`.
abbrev pub image_info : List Member
image_info =
    uint64 "address"
    ∷ uint64 "modTime"
    ∷ uint64 "inode"
    ∷ uint32 "pathFileOffset"
    ∷ uint32 "pad"
    ∷ []

-- `RorkHookDyldCacheLocalSymbolsInfo`.
abbrev pub local_symbols_info : List Member
local_symbols_info =
    uint32 "nlistOffset"
    ∷ uint32 "nlistCount"
    ∷ uint32 "stringsOffset"
    ∷ uint32 "stringsSize"
    ∷ uint32 "entriesOffset"
    ∷ uint32 "entriesCount"
    ∷ []

-- `RorkHookDyldCacheLocalSymbolsEntry32`.
abbrev pub local_symbols_entry32 : List Member
local_symbols_entry32 = uint32 "dylibOffset" ∷ uint32 "nlistStartIndex" ∷ uint32 "nlistCount" ∷ []

-- `RorkHookDyldCacheLocalSymbolsEntry64`.
abbrev pub local_symbols_entry64 : List Member
local_symbols_entry64 = uint64 "dylibOffset" ∷ uint32 "nlistStartIndex" ∷ uint32 "nlistCount" ∷ []

-- The static assertions.
abbrev pub LayoutAssertions : Type 0
LayoutAssertions =
    (offset_from 0 cache_header (codes "mappingOffset") ≡ some 16)
    × (offset_from 0 cache_header (codes "localSymbolsOffset") ≡ some 72)
    × (offset_from 0 cache_header (codes "mappingWithSlideOffset") ≡ some 312)
    × (offset_from 0 cache_header (codes "symbolFileUUID") ≡ some 400)
    × (offset_from 0 cache_header (codes "imagesOffset") ≡ some 448)
    × (size_of cache_header ≡ 456)
    × (size_of image_info ≡ 32)
    × (size_of local_symbols_info ≡ 24)
    × (size_of local_symbols_entry32 ≡ 12)
    × (size_of local_symbols_entry64 ≡ 16)
