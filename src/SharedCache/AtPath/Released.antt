-- ===== src/SharedCache/AtPath/Released.antt =====
-- The files of `RorkHookFindSharedCacheSymbolAtPath`.
use mathlib.Core.Path.{subst}
use mathlib.Core.Bool.{false≢true}
use rork_hook.Base.{
  ℕ, ◌+◌, ◌^◌, ◌<◌, ◌≡◌, ◌≢◌, refl, sym, ap, ◌∙◌, Bool, true, false, not, some, List, ◌∷◌, ◌++◌,
  arith, by_test, length, ltb, ◌&&◌, neb,
}
use rork_hook.Outcome.{Outcome}
use rork_hook.Outcome.Ensures.{Ensures, returns, rejects, bind, mono}
use rork_hook.Space.{Space, null}
use rork_hook.CString.Spelled.{IsText}
use rork_hook.Platform.{Platform}
use rork_hook.Region.{sign_pointer_if_executable}
use rork_hook.MachO.NList
use rork_hook.Files.{FileMapping, Held, System, MapResult, map_file, unmap_file}
use rork_hook.Files.Mapped.{
  IsSystem, IsMapping, IsExtended, IsExtended-same, IsMapResult, map_file-IsMapResult,
}
use rork_hook.SharedCache.{DataView}
use rork_hook.SharedCache.Lookup.{find_shared_cache_symbol_in_data}
use rork_hook.SharedCache.Lookup.Correct.{
  IsDefinition, find_shared_cache_symbol_in_data-IsDefinition,
}
use rork_hook.SharedCache.AtPath.{
  symbols_suffix, path_max, or_null, map_sidecar, resolve_mapped, find_shared_cache_symbol_at_path,
}

abbrev pub view_of : FileMapping → DataView
view_of f = record { bytes = f.bytes; size = f.size }

-- The address is that of a definition in the mapped bytes of the two files: the sidecar where it was
-- mapped, and the main file otherwise.
pub record IsFileDefinition (content : List ℕ → List ℕ) (p : Platform) (sidecar : Bool)
    (path : List ℕ) (slide : ℕ) (image name : List ℕ) (a : ℕ) : Type 0 where
  pub space : Space
  pub main : FileMapping
  pub symbols : FileMapping
  pub defined : ℕ
  pub main_shows : IsMapping content space path main
  pub symbols_shows : sidecar ≡ true → IsMapping content space (path ++ symbols_suffix) symbols
  pub inline : sidecar ≡ false → symbols ≡ main
  pub definition : IsDefinition space (view_of main) (view_of symbols) image name defined
  pub room : slide + NList.n_value space defined < 2 ^ 64
  pub place : a ≡ sign_pointer_if_executable p space (slide + NList.n_value space defined)

-- Nothing that was mapped or opened is still held, and an address is that of a definition.
pub record IsReleased (content : List ℕ → List ℕ) (p : Platform) (h : Held) (sidecar : Bool)
    (path : List ℕ) (slide : ℕ) (image name : List ℕ) (r : ℕ × Held) : Type 0 where
  pub descriptors : r.1.descriptors ≡ h.descriptors
  pub mappings : r.1.mappings ≡ h.mappings
  pub resolved : r.0 ≢ null → IsFileDefinition content p sidecar path slide image name r.0

or_null-Ensures {κ} :
    {P : ℕ → Type κ} {o : Outcome ℕ} → Ensures P o → Ensures (λ a. a ≢ null → P a) (or_null o)
or_null-Ensures (returns h) = returns (λ _. h)
or_null-Ensures rejects = returns (λ e. absurd (e refl))

not_cases_yes : (b : Bool) → not b ≡ true → b ≡ false
not_cases_yes false e = refl
not_cases_yes true e = absurd (false≢true e)

not_cases_no : (b : Bool) → not b ≡ false → b ≡ true
not_cases_no true e = refl
not_cases_no false e = absurd (false≢true (sym e))

module _ (content : List ℕ → List ℕ) (sys : System) (law : IsSystem content sys) where
  IsMapping-extended :
      {m m' : Space} {path : List ℕ} {f : FileMapping}
      → IsExtended m m'
      → IsMapping content m path f
      → IsMapping content m' path f
  IsMapping-extended further is = record {
    nonnull = is.nonnull;
    nonempty = is.nonempty;
    word = is.word;
    readable = further.reads is.readable;
    shows = λ i h. further.same is.readable _ (omega arith) (omega arith) ∙ is.shows i h;
  }

  map_sidecar-IsMapResult :
      (h : Held) (path : List ℕ)
      → IsMapResult content h (path ++ symbols_suffix) (map_sidecar sys h path)
  unfolding map_sidecar
  map_sidecar-IsMapResult h path =
      by_test (IsMapResult content h (path ++ symbols_suffix))
        (ltb (length path + length symbols_suffix) path_max)
        (λ _. map_file-IsMapResult content sys law h (path ++ symbols_suffix))
        (λ _. record {
          descriptors = refl;
          extended = IsExtended-same h.space;
          success = λ e. absurd (false≢true e);
          failure = λ _. (refl, refl);
        })

  -- An unmapped mapping is held no longer.
  unmap_file-held :
      (h : Held) (m : Space) (path : List ℕ) (f : FileMapping) (fs : List FileMapping)
      → IsMapping content m path f
      → h.mappings ≡ f ∷ fs
      → ((unmap_file sys h f).mappings ≡ fs) × ((unmap_file sys h f).descriptors ≡ h.descriptors)
  unfolding unmap_file
  unmap_file-held h m path f fs is newest =
      let called : (neb f.bytes null && neb f.size 0) ≡ true =
        ground (arith, is.nonnull, is.nonempty) in
      rw called (law.unmapped h f fs newest)

  module _ (p : Platform) (h : Held) (path : List ℕ) (slide : ℕ) (image name : List ℕ)
      (word : slide < 2 ^ 64) (image_text : IsText image) (name_text : IsText name) where
    -- The lookup in two mappings that are shown.
    lookup_in :
        (m : Space) (main symbols : FileMapping) (sidecar : Bool) (symbols_path : List ℕ)
        → IsMapping content m path main
        → IsMapping content m symbols_path symbols
        → (sidecar ≡ true → symbols_path ≡ path ++ symbols_suffix)
        → (sidecar ≡ false → symbols ≡ main)
        → Ensures
            (λ a. a ≢ null → IsFileDefinition content p sidecar path slide image name a)
            (or_null (
              find_shared_cache_symbol_in_data p m main.bytes main.size symbols.bytes symbols.size
                slide
                (some image)
                (some name)))
    lookup_in m main symbols sidecar symbols_path shown symbols_shown is_sidecar is_inline =
        or_null-Ensures (
          mono
            (find_shared_cache_symbol_in_data-IsDefinition p m (view_of main) (view_of symbols)
              slide image name shown.readable symbols_shown.readable shown.word symbols_shown.word
              word image_text name_text)
            λ a (e, definition, room, place). record {
              space = m;
              main = main;
              symbols = symbols;
              defined = e;
              main_shows = shown;
              symbols_shows =
                  λ is. subst (λ q. IsMapping content m q symbols) (is_sidecar is) symbols_shown;
              inline = is_inline;
              definition = definition;
              room = room;
              place = place;
            })

    resolve_mapped-IsReleased :
        (main : MapResult) (mapped : Bool) (mapping : FileMapping) (held : Held)
        → let sidecar : MapResult = record { mapped = mapped; mapping = mapping; held = held } in
          main.mapped ≡ true
          → IsMapResult content h path main
          → IsMapResult content main.held (path ++ symbols_suffix) sidecar
          → Ensures
              (IsReleased content p h mapped path slide image name)
              (resolve_mapped p sys main sidecar slide image name)
    unfolding resolve_mapped
    resolve_mapped-IsReleased main true f held is_mapped of_main of_sidecar =
        let (main_held, main_shown) = of_main.success is_mapped in
        let (side_held, side_shown) = of_sidecar.success refl in
        let main_here = IsMapping-extended of_sidecar.extended main_shown in
        let (kept, kept_open) =
          unmap_file-held held held.space (path ++ symbols_suffix) f main.held.mappings side_shown
            side_held in
        let (gone, gone_open) =
          unmap_file-held (unmap_file sys held f) held.space path main.mapping h.mappings main_here
            (kept ∙ main_held) in
        bind
          (lookup_in held.space main.mapping f true (path ++ symbols_suffix) main_here side_shown
            (λ _. refl) (λ e. absurd (false≢true (sym e))))
          λ a resolved. returns (record {
            descriptors = gone_open ∙ kept_open ∙ of_sidecar.descriptors ∙ of_main.descriptors;
            mappings = gone;
            resolved = resolved;
          })
    resolve_mapped-IsReleased main false f held is_mapped of_main of_sidecar =
        let (main_held, main_shown) = of_main.success is_mapped in
        let (_, same) = of_sidecar.failure refl in
        let main_here = IsMapping-extended of_sidecar.extended main_shown in
        let (gone, gone_open) =
          unmap_file-held held held.space path main.mapping h.mappings main_here
            (ap (λ (s : Held). s.mappings) same ∙ main_held) in
        bind
          (lookup_in held.space main.mapping main.mapping false path main_here main_here
            (λ e. absurd (false≢true e)) (λ _. refl))
          λ a resolved. returns (record {
            descriptors = gone_open ∙ of_sidecar.descriptors ∙ of_main.descriptors;
            mappings = gone;
            resolved = resolved;
          })

    -- With a system that opens, maps and closes as documented, and a 64-bit slide, the lookup at a
    -- path reads nothing outside the mapped files and holds afterwards exactly the descriptors and
    -- mappings that it held before; and an address that it returns is that of a definition in the
    -- main file and in its sidecar where that was mapped, and in the main file alone otherwise. The
    -- path of the image and the name hold no zero byte.
    pub find_shared_cache_symbol_at_path-IsReleased :
        Ensures
          (IsReleased content p h
            (map_sidecar sys (map_file sys h (some path) true).held path).mapped
            path
            slide
            image
            name)
          (find_shared_cache_symbol_at_path p sys h (some path) slide (some image) (some name))
    unfolding find_shared_cache_symbol_at_path
    find_shared_cache_symbol_at_path-IsReleased =
        let main = map_file sys h (some path) true in
        let of_main = map_file-IsMapResult content sys law h path in
        let sidecar = map_sidecar sys main.held path in
        by_test (Ensures (IsReleased content p h sidecar.mapped path slide image name))
          (not main.mapped)
          (λ failed.
            let (_, same) = of_main.failure (not_cases_yes main.mapped failed) in
            returns (record {
              descriptors = ap (λ (s : Held). s.descriptors) same;
              mappings = ap (λ (s : Held). s.mappings) same;
              resolved = λ e. absurd (e refl);
            }))
          (λ success.
            resolve_mapped-IsReleased main sidecar.mapped sidecar.mapping sidecar.held
              (not_cases_no main.mapped success) of_main (map_sidecar-IsMapResult main.held path))
