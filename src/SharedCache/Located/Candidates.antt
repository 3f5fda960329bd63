-- ===== src/SharedCache/Located/Candidates.antt =====
-- The order in which `RorkHookLocateSharedCache` tries paths.
use rork_hook.Base.Texts.{codes, same_text}
use rork_hook.Base.{
  ap, ℕ, ◌<◌, ◌≡◌, refl, sym, Bool, true, false, ◌&&◌, Option, none, some, List, [], ◌∷◌, ◌++◌, map,
  length, ltb, leb, neb, if◌then◌else◌, arith, bit_or, le→ltb, leb→le, length-append, ◌≤◌,
}
use rork_hook.SharedCache.AtPath.{path_max}
use rork_hook.SharedCache.Located.{
  Environment, r_ok, x_ok, base_name, cryptex_cache_directory, system_cache_directory, suffixes,
  fits_and_readable, active_path, private_directory, base_path, probe_suffixes, search_shared_cache,
  locate_shared_cache,
}

-- The first path of a list that fits the buffer and can be read, or the empty path.
abbrev pub first_usable : Environment → List (List ℕ) → List ℕ
first_usable env [] = []
first_usable env (path ∷ paths) =
    let later = first_usable env paths in
    if ltb (length path) path_max && env.access path r_ok then path else later

-- The paths in the order of preference: the one that dyld reports, and those of one directory,
-- which is the private one, the cryptex or the system's.
abbrev pub reported : Option (Option (List ℕ)) → List (List ℕ)
reported report = elim report [
  | none ↦ []
  | some answer ↦ elim answer [ none ↦ [] | some path ↦ path ∷ [] ]
]

-- The directory that the environment names, which counts only if the shared region is private.
abbrev pub is_private : Option (List ℕ) → Bool
is_private none = false
is_private (some region) = same_text region (codes "private")

abbrev pub own_directory : Environment → Option (List ℕ)
own_directory env =
    if is_private (env.getenv (codes "DYLD_SHARED_REGION"))
    then env.getenv (codes "DYLD_SHARED_CACHE_DIR")
    else none

abbrev pub directory : Environment → Option (List ℕ)
directory env = elim (own_directory env) [
  | some d ↦ some d
  | none ↦
      if env.access cryptex_cache_directory (bit_or r_ok x_ok)
      then some cryptex_cache_directory
      else if env.access system_cache_directory (bit_or r_ok x_ok)
      then some system_cache_directory
      else none
]

abbrev pub in_directory : Option (List ℕ) → List (List ℕ)
in_directory none = []
in_directory (some d) = map (λ suffix. (d ++ base_name) ++ suffix) suffixes

abbrev pub candidates : Environment → List (List ℕ)
candidates env = reported env.dyld_shared_cache_file_path ++ in_directory (directory env)

-- The paths that calls in a row return, each in its own environment.
unfoldable pub located : List Environment → (cache_path : Option (List ℕ)) → List (List ℕ)
located [] cache_path = []
located (env ∷ envs) cache_path =
    let (path, state) = locate_shared_cache env cache_path in path ∷ located envs state

module _ (env : Environment) where
  private_directory-own_directory : private_directory env ≡ own_directory env
  unfolding private_directory
  private_directory-own_directory =
      of (env.getenv (codes "DYLD_SHARED_REGION")) (env.getenv (codes "DYLD_SHARED_CACHE_DIR"))
    where
      nothing : (t : Bool) → ◌≡◌ {A = Option (List ℕ)} none (if t then none else none)
      nothing true = refl
      nothing false = refl

      of :
          (region d : Option (List ℕ))
          → ◌≡◌ {A = Option (List ℕ)}
              (elim region [
                | none ↦ none
                | some region ↦ elim d [
                  | none ↦ none
                  | some directory ↦
                      if same_text region (codes "private") then some directory else none
                ]
              ])
              (if is_private region then d else none)
      of none d = refl
      of (some region) none = nothing (same_text region (codes "private"))
      of (some region) (some d) = refl

  probe_suffixes-first_usable :
      (base : List ℕ) (left : List (List ℕ))
      → probe_suffixes env base left ≡ first_usable env (map (λ suffix. base ++ suffix) left)
  unfolding probe_suffixes fits_and_readable
  probe_suffixes-first_usable base [] = refl
  probe_suffixes-first_usable base (suffix ∷ left) = rw (probe_suffixes-first_usable base left) refl

  -- A base that fills the buffer leaves no room for a suffix.
  none_fits :
      (base : List ℕ) (left : List (List ℕ))
      → path_max ≤ length base
      → first_usable env (map (λ suffix. base ++ suffix) left) ≡ []
  none_fits base [] full = refl
  none_fits base (suffix ∷ left) full =
      let long : ltb (length (base ++ suffix)) path_max ≡ false =
        le→ltb _ _ (omega (arith, length-append base suffix, full)) in
      rw (long, none_fits base left full) refl

  probed :
      (d : List ℕ) (base : List ℕ)
      → base ≡ d ++ base_name
      → 0 < length base
      → (if neb (length base) 0 then probe_suffixes env base suffixes else [])
        ≡ first_usable env (in_directory (some d))
  probed d base e nonempty =
      let tried : neb (length base) 0 ≡ true = ground arith in
      rw (tried, probe_suffixes-first_usable base suffixes, e) refl

  -- The directory, when it is private and when it is not.
  abbrev probe : List ℕ → List ℕ
  probe base = if neb (length base) 0 then probe_suffixes env base suffixes else []

  named : (d : List ℕ) → probe (d ++ base_name) ≡ first_usable env (in_directory (some d))
  named d = probed d (d ++ base_name) refl (omega (arith, length-append d base_name))

  searched : probe (base_path env) ≡ first_usable env (in_directory (directory env))
  unfolding base_path
  searched = rw (base_path, private_directory-own_directory) (of (own_directory env))
    where
      fallback :
          (cryptex system : Bool)
          → probe (
              if cryptex
              then cryptex_cache_directory ++ base_name
              else if system
              then system_cache_directory ++ base_name
              else [])
            ≡ first_usable env (
                in_directory (
                  if cryptex
                  then some cryptex_cache_directory
                  else if system
                  then some system_cache_directory
                  else none))
      fallback true system = named cryptex_cache_directory
      fallback false true = named system_cache_directory
      fallback false false = refl

      bounded :
          (d : List ℕ) (long : Bool)
          → (long ≡ true → path_max ≤ length (d ++ base_name))
          → probe (if long then [] else d ++ base_name) ≡ first_usable env (in_directory (some d))
      bounded d true full = sym (none_fits (d ++ base_name) suffixes (full refl))
      bounded d false full = named d

      of :
          (o : Option (List ℕ))
          → probe (elim o [
            | some d ↦ if leb path_max (length (d ++ base_name)) then [] else d ++ base_name
            | none ↦
                if env.access cryptex_cache_directory (bit_or r_ok x_ok)
                then cryptex_cache_directory ++ base_name
                else if env.access system_cache_directory (bit_or r_ok x_ok)
                then system_cache_directory ++ base_name
                else []
          ])
            ≡ first_usable env (
                in_directory (elim o [
                  | some d ↦ some d
                  | none ↦
                      if env.access cryptex_cache_directory (bit_or r_ok x_ok)
                      then some cryptex_cache_directory
                      else if env.access system_cache_directory (bit_or r_ok x_ok)
                      then some system_cache_directory
                      else none
                ]))
      of (some d) = bounded d (leb path_max (length (d ++ base_name))) (leb→le _ _)
      of none =
          fallback (env.access cryptex_cache_directory (bit_or r_ok x_ok))
            (env.access system_cache_directory (bit_or r_ok x_ok))

  -- The path that dyld reports, if it can be used.
  abbrev accepted : Option (Option (List ℕ)) → Option (List ℕ)
  accepted report = elim report [
    | none ↦ none
    | some answer ↦ elim answer [
      | none ↦ none
      | some path ↦ if ltb (length path) path_max && env.access path r_ok then some path else none
    ]
  ]

  search_shared_cache-first_usable : search_shared_cache env ≡ first_usable env (candidates env)
  unfolding search_shared_cache active_path fits_and_readable
  search_shared_cache-first_usable = of env.dyld_shared_cache_file_path
    where
      taken :
          (t : Bool) (path : List ℕ)
          → ◌≡◌ {A = List ℕ}
              (elim (if t then some path else none) [ some q ↦ q | none ↦ probe (base_path env) ])
              (if t then path else first_usable env (in_directory (directory env)))
      taken true path = refl
      taken false path = searched

      of :
          (answer : Option (Option (List ℕ)))
          → ◌≡◌ {A = List ℕ}
              (elim (accepted answer) [ some q ↦ q | none ↦ probe (base_path env) ])
              (first_usable env (reported answer ++ in_directory (directory env)))
      of none = searched
      of (some none) = searched
      of (some (some path)) = taken (ltb (length path) path_max && env.access path r_ok) path

-- Once a path is kept, every call returns it.
located-kept :
    (path : List ℕ) (envs : List Environment) → located envs (some path) ≡ map (λ _. path) envs
unfolding located locate_shared_cache
located-kept path [] = refl
located-kept path (env ∷ envs) = ap (λ paths. path ∷ paths) (located-kept path envs)

-- Whatever the environments of later calls are, the first call and every later one return the first
-- usable candidate of the first environment, one that fits the buffer of PATH_MAX bytes and can be
-- read, of the path that dyld reports and the four suffixes of the base in one directory; they
-- return the empty path if there is none. The directory is the one that DYLD_SHARED_CACHE_DIR names
-- if DYLD_SHARED_REGION is "private", or else the cryptex or the directory of the system, whichever
-- can be searched first.
pub locate_shared_cache-first_usable :
    (env : Environment) (later : List Environment)
    → located (env ∷ later) none ≡ map (λ _. first_usable env (candidates env)) (env ∷ later)
unfolding located locate_shared_cache
locate_shared_cache-first_usable env later = rw (search_shared_cache-first_usable env) (
    ap (λ paths. first_usable env (candidates env) ∷ paths)
      (located-kept (first_usable env (candidates env)) later))
