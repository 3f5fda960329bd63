-- ===== src/SharedCache/AtPath.antt =====
-- `RorkHookFindSharedCacheSymbolAtPath`.
pub mod Released
use rork_hook.Base.{
  ℕ, ◌+◌, Bool, true, not, Option, none, some, List, ◌++◌, length, ltb, if◌then◌else◌,
}
use rork_hook.Base.Texts.{codes}
use rork_hook.Outcome.{Outcome, ok, rejected, fault, ◌>>=◌}
use rork_hook.Space.{null}
use rork_hook.Platform.{Platform}
use rork_hook.Files.{FileMapping, Held, System, MapResult, not_mapped, map_file, unmap_file}
use rork_hook.SharedCache.Lookup.{find_shared_cache_symbol_in_data}

-- `PATH_MAX`
abbrev pub path_max : ℕ
path_max = 1024

abbrev pub symbols_suffix : List ℕ
symbols_suffix = codes ".symbols"

-- A pointer that is NULL where the call fails.
abbrev pub or_null : Outcome ℕ → Outcome ℕ
or_null (ok a) = ok a
or_null rejected = ok null
or_null fault = fault

-- The sibling file, where its path fits the buffer.
unfoldable pub map_sidecar : System → Held → (main_path : List ℕ) → MapResult
map_sidecar sys held main_path =
    if ltb (length main_path + length symbols_suffix) path_max
    then map_file sys held (some (main_path ++ symbols_suffix)) true
    else not_mapped held

-- With both files mapped, or the main one twice.
unfoldable pub resolve_mapped :
    Platform
    → System
    → (main sidecar : MapResult) (slide : ℕ) (image_path symbol_name : List ℕ) → Outcome (ℕ × Held)
resolve_mapped p sys main sidecar slide image_path symbol_name = do
  let symbols = if sidecar.mapped then sidecar.mapping else main.mapping
  resolved ← or_null (
      find_shared_cache_symbol_in_data p sidecar.held.space main.mapping.bytes main.mapping.size
        symbols.bytes symbols.size slide (Option.some image_path) (Option.some symbol_name))
  let released = if sidecar.mapped then unmap_file sys sidecar.held symbols else sidecar.held
  ok (resolved, unmap_file sys released main.mapping)

unfoldable pub find_shared_cache_symbol_at_path :
    Platform
    → System
    → Held
    → (main_path : Option (List ℕ)) (slide : ℕ) (image_path symbol_name : Option (List ℕ))
    → Outcome (ℕ × Held)
find_shared_cache_symbol_at_path p sys held main_path slide image_path symbol_name =
    elim main_path [
      | none ↦ ok (null, held)
      | some path ↦ elim image_path [
        | none ↦ ok (null, held)
        | some image ↦ elim symbol_name [
          | none ↦ ok (null, held)
          | some name ↦
              let main = map_file sys held (some path) true in
              if not main.mapped
              then ok (null, main.held)
              else resolve_mapped p sys main (map_sidecar sys main.held path) slide image name
        ]
      ]
    ]
