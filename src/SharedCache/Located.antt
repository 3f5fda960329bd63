-- ===== src/SharedCache/Located.antt =====
-- `RorkHookLocateSharedCache`.
pub mod Candidates
use rork_hook.Base.{
  ℕ, ◌+◌, Bool, true, false, not, ◌||◌, ◌&&◌, Option, none, some, List, [], ◌∷◌, ◌++◌, length, ltb,
  leb, ◌==◌, neb, if◌then◌else◌, bit_or,
}
use rork_hook.Base.Texts.{codes, same_text}
use rork_hook.SharedCache.AtPath.{path_max}

-- R_OK and X_OK
abbrev pub r_ok : ℕ
r_ok = 4

abbrev pub x_ok : ℕ
x_ok = 1

-- What the first call finds: the function of dyld and what it returns, the variables of the
-- environment, and whether `access` is 0.
pub record Environment : Type 0 where
  pub dyld_shared_cache_file_path : Option (Option (List ℕ))
  pub getenv : (name : List ℕ) → Option (List ℕ)
  pub access : (path : List ℕ) (mode : ℕ) → Bool

abbrev pub cryptex_cache_directory : List ℕ
cryptex_cache_directory = codes "/private/preboot/Cryptexes/OS/System/Library/Caches/com.apple.dyld"

abbrev pub system_cache_directory : List ℕ
system_cache_directory = codes "/System/Library/Caches/com.apple.dyld"

abbrev pub base_name : List ℕ
base_name = codes "/dyld_shared_cache"

abbrev pub suffixes : List (List ℕ)
suffixes = codes "_arm64e" ∷ codes "_arm64" ∷ codes "_armv7s" ∷ codes "_armv7" ∷ []

-- Whether the path fits the buffer and can be read.
unfoldable pub fits_and_readable : Environment → (path : List ℕ) → Bool
fits_and_readable env path = ltb (length path) path_max && env.access path r_ok

-- The path that dyld reports, if it is taken.
unfoldable pub active_path : Environment → Option (List ℕ)
active_path env = elim env.dyld_shared_cache_file_path [
  | none ↦ none
  | some reported ↦ elim reported [
    | none ↦ none
    | some path ↦ if fits_and_readable env path then some path else none
  ]
]

-- Where both variables are set and the region is private: the directory.
unfoldable pub private_directory : Environment → Option (List ℕ)
private_directory env = elim (env.getenv (codes "DYLD_SHARED_REGION")) [
  | none ↦ none
  | some region ↦ elim (env.getenv (codes "DYLD_SHARED_CACHE_DIR")) [
    | none ↦ none
    | some directory ↦ if same_text region (codes "private") then some directory else none
  ]
]

-- The path without its suffix; empty where there is none.
unfoldable pub base_path : Environment → List ℕ
base_path env = elim (private_directory env) [
  | some directory ↦
      if leb path_max (length (directory ++ base_name)) then [] else directory ++ base_name
  | none ↦
      if env.access cryptex_cache_directory (bit_or r_ok x_ok)
      then cryptex_cache_directory ++ base_name
      else if env.access system_cache_directory (bit_or r_ok x_ok)
      then system_cache_directory ++ base_name
      else []
]

-- The loop over the suffixes.
unfoldable pub probe_suffixes : Environment → (base : List ℕ) → (left : List (List ℕ)) → List ℕ
probe_suffixes env base [] = []
probe_suffixes env base (suffix ∷ left) =
    let later = probe_suffixes env base left in
    if fits_and_readable env (base ++ suffix) then base ++ suffix else later

unfoldable pub search_shared_cache : Environment → List ℕ
search_shared_cache env = elim (active_path env) [
  | some path ↦ path
  | none ↦
      let base = base_path env in
      if neb (length base) 0 then probe_suffixes env base suffixes else []
]

-- The buffer and the token of `dispatch_once`: `none` before the first call. The path that is
-- returned, and the state that is left.
unfoldable pub locate_shared_cache :
    Environment → (cache_path : Option (List ℕ)) → List ℕ × Option (List ℕ)
locate_shared_cache env cache_path = elim cache_path [
  | some path ↦ (path, some path)
  | none ↦ let path = search_shared_cache env in (path, some path)
]
