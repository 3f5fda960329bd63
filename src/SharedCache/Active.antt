-- ===== src/SharedCache/Active.antt =====
-- `RorkHookFindSharedCacheSymbol`, and `RorkHookSharedCacheSlide` of
-- Sources/RorkHook/RorkHookInternal.c.
pub mod Slide
use rork_hook.Base.{
  ℕ, ◌+◌, ◌<◌, Bool, not, Option, none, some, List, [], ◌∷◌, ltb, ◌==◌, if◌then◌else◌, length,
}
use rork_hook.Outcome.{Outcome, ok, ◌>>=◌}
use rork_hook.Space.{Space, null, read_u32, read_u64}
use rork_hook.Platform.{Platform}
use rork_hook.Region.{memory_is_readable}
use rork_hook.Files.{Held, System}
use rork_hook.SharedCache.AtPath.{find_shared_cache_symbol_at_path}
use rork_hook.SharedCache.Located.{Environment, locate_shared_cache}

-- `struct dyld_all_image_infos` of the system, of which the version stands first.
pub record ImageInfos : Type 0 where
  pub size_of : ℕ
  pub slide_offset : ℕ

-- `task_info` gives the address of the structure, if it succeeds.
unfoldable pub shared_cache_slide :
    Platform → ImageInfos → Space → (all_image_info_addr : Option ℕ) → Outcome ℕ
shared_cache_slide p infos m all_image_info_addr = elim all_image_info_addr [
  | none ↦ ok 0
  | some image_infos ↦
      if image_infos == 0
      then ok 0
      else if not (memory_is_readable p m image_infos infos.size_of)
      then ok 0
      else (do
        version ← read_u32 m image_infos
        if ltb version 12 then ok 0 else read_u64 m (image_infos + infos.slide_offset))
]

-- What the calls of the system find at this time.
pub record Machine : Type 0 where
  pub platform : Platform
  pub system : System
  pub image_infos : ImageInfos
  pub environment : Environment
  pub all_image_info_addr : Option ℕ

-- The state is the cached path and what the process holds.
pub record Cached : Type 0 where
  pub cache_path : Option (List ℕ)
  pub held : Held

unfoldable pub find_shared_cache_symbol :
    Machine → Cached → (image_path symbol_name : Option (List ℕ)) → Outcome (ℕ × Cached)
find_shared_cache_symbol x s image_path symbol_name = elim image_path [
  | none ↦ ok (null, s)
  | some image ↦ elim symbol_name [
    | none ↦ ok (null, s)
    | some name ↦
        let (main_path, cache_path) = locate_shared_cache x.environment s.cache_path in
        if length main_path == 0 then ok (null, record s { cache_path = cache_path }) else (do
          slide ← shared_cache_slide x.platform x.image_infos s.held.space x.all_image_info_addr
          (resolved, held) ←
              find_shared_cache_symbol_at_path x.platform x.system s.held (Option.some main_path)
                slide (Option.some image) (Option.some name)
          ok (resolved, record { cache_path = cache_path; held = held }))
  ]
]
