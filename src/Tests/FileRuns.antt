-- ===== src/Tests/FileRuns.antt =====
-- Runs on two files.
use rork_hook.Base.{map, ◌∷◌, [], ◌^◌, ◌<◌, ◌⊎◌, arith, ◌≡◌, refl, none, some, [], true, false}
use rork_hook.Base.Texts.{codes}
use rork_hook.Outcome.{ok}
use rork_hook.Outcome.Ensures.{Ensures}
use rork_hook.Space.{
  Space, can_read, readable_range, readable, u64_at, u32_at, u16_at, byte_at, read_u32, read_u64,
}
use rork_hook.Region.{memory_is_readable, readable_memory_length, query_region}
use rork_hook.Tests.Bytes.{bytes_of, ◌then_bytes◌, padding, space_of}
use rork_hook.Files.{Held, map_file}
use rork_hook.Files.Mapped.{IsMapResult, map_file-IsMapResult}
use rork_hook.SharedCache.AtPath.{map_sidecar, find_shared_cache_symbol_at_path}
use rork_hook.SharedCache.AtPath.Released.{IsReleased, find_shared_cache_symbol_at_path-IsReleased}
use rork_hook.SharedCache.Located.{Environment}
use rork_hook.SharedCache.Located.Candidates.{
  located, first_usable, candidates, locate_shared_cache-first_usable,
}
use rork_hook.SharedCache.Active.{
  ImageInfos, Machine, Cached, shared_cache_slide, find_shared_cache_symbol,
}
use rork_hook.SharedCache.Active.Slide.{
  IsImageInfos, IsPublished, IsLookup, shared_cache_slide-IsPublished,
  find_shared_cache_symbol-IsLookup,
}
use rork_hook.Tests.Kernel.{one_region, one_region-IsTruthful}
use rork_hook.Tests.Image.{name_g}
use rork_hook.Tests.Cache.{path_a, path_a-IsText, name_g-IsText}
use rork_hook.Tests.Disk.{content, disk, disk-IsSystem}

-- No memory is mapped yet.
abbrev nothing_held : Held
nothing_held = record {
  space = record { byte = λ a. 0; protection = λ a. none };
  descriptors = [];
  mappings = [];
}

map_file-IsMapResult_example :
    IsMapResult content nothing_held
      (codes "/m")
      (map_file disk nothing_held (some (codes "/m")) true)
map_file-IsMapResult_example =
    map_file-IsMapResult content disk disk-IsSystem nothing_held (codes "/m")

find_shared_cache_symbol_at_path-IsReleased_example :
    Ensures
      (IsReleased content
        (one_region 16 5)
        nothing_held
        (map_sidecar disk
          (map_file disk nothing_held (some (codes "/m")) true).held
          (codes "/m")).mapped
        (codes "/m")
        0x4000
        path_a
        name_g)
      (find_shared_cache_symbol_at_path
        (one_region 16 5)
        disk
        nothing_held
        (some (codes "/m"))
        0x4000
        (some path_a)
        (some name_g))
find_shared_cache_symbol_at_path-IsReleased_example =
    find_shared_cache_symbol_at_path-IsReleased content disk disk-IsSystem (one_region 16 5)
      nothing_held (codes "/m") 0x4000 path_a name_g (omega arith) path_a-IsText name_g-IsText

-- dyld reports the path "/m", which can be read.
abbrev environment : Environment
environment = record {
  dyld_shared_cache_file_path = some (some (codes "/m"));
  getenv = λ name. none;
  access = λ path mode. true;
}

-- Another process state, in which nothing can be read.
abbrev bare : Environment
bare = record {
  dyld_shared_cache_file_path = none;
  getenv = λ name. none;
  access = λ path mode. false;
}

locate_shared_cache-first_usable_example :
    located (environment ∷ bare ∷ environment ∷ []) none
    ≡ map
        (λ _. first_usable environment (candidates environment))
        (environment ∷ bare ∷ environment ∷ [])
locate_shared_cache-first_usable_example =
    locate_shared_cache-first_usable environment (bare ∷ environment ∷ [])

abbrev infos : ImageInfos
infos = record { size_of = 24; slide_offset = 16 }

infos-IsImageInfos : IsImageInfos infos
infos-IsImageInfos = record { version_fits = omega arith; slide_fits = omega arith }

-- Version 15, with the slide 0x4000.
abbrev info_space : Space
info_space = space_of 0x1000 24 1 (bytes_of 4 15 then_bytes padding 12 then_bytes bytes_of 8 0x4000)

shared_cache_slide_run :
    shared_cache_slide (one_region 24 1) infos info_space (some 0x1000) ≡ ok 0x4000
unfolding shared_cache_slide memory_is_readable readable_memory_length query_region read_u32
    read_u64 can_read readable_range readable u64_at u32_at u16_at byte_at
shared_cache_slide_run = refl

shared_cache_slide-IsPublished_example :
    Ensures
      (λ z. (z < 2 ^ 64) × ((z ≡ 0) ⊎ IsPublished infos info_space (some 0x1000) z))
      (shared_cache_slide (one_region 24 1) infos info_space (some 0x1000))
shared_cache_slide-IsPublished_example =
    shared_cache_slide-IsPublished (one_region 24 1) infos info_space (some 0x1000)
      (one_region-IsTruthful 24 1) infos-IsImageInfos

abbrev machine : Machine
machine = record {
  platform = one_region 24 1;
  system = disk;
  image_infos = infos;
  environment = environment;
  all_image_info_addr = some 0x1000;
}

-- Before the first lookup, with the structure of dyld in memory.
abbrev fresh : Cached
fresh = record { cache_path = none; held = record nothing_held { space = info_space } }

find_shared_cache_symbol-IsLookup_example :
    Ensures
      (IsLookup content machine fresh path_a name_g)
      (find_shared_cache_symbol machine fresh (some path_a) (some name_g))
find_shared_cache_symbol-IsLookup_example =
    find_shared_cache_symbol-IsLookup content machine fresh path_a name_g
      (one_region-IsTruthful 24 1) infos-IsImageInfos disk-IsSystem path_a-IsText name_g-IsText
