-- ===== src/SharedCache/Active/Slide.antt =====
-- The slide and the state of `RorkHookFindSharedCacheSymbol`.
use rork_hook.Base.{
  ℕ, ◌+◌, ◌^◌, ◌≤◌, ◌<◌, ◌≡◌, ◌≢◌, refl, sym, Bool, true, false, not, ◌⊎◌, inl, inr, Option, none,
  some, List, arith, by_test, ltb, ltb→le, ◌==◌, length,
}
use rork_hook.Outcome.{Outcome, ok}
use rork_hook.Outcome.Ensures.{Ensures, returns, bind}
use rork_hook.Space.{Space, null, u32_at, u64_at}
use rork_hook.Space.Reads.{IsReadable, read_u32-ok, read_u64-ok, u64_at-lt}
use rork_hook.CString.Spelled.{IsText}
use rork_hook.Platform.{Platform, IsTruthful}
use rork_hook.Region.{memory_is_readable}
use rork_hook.Region.Readable.{memory_is_readable-IsReadable}
use rork_hook.Files.Mapped.{IsSystem}
use rork_hook.SharedCache.AtPath.Released.{
  IsFileDefinition, find_shared_cache_symbol_at_path-IsReleased,
}
use rork_hook.SharedCache.Located.{Environment, locate_shared_cache}
use rork_hook.SharedCache.Active.{
  ImageInfos, Machine, Cached, shared_cache_slide, find_shared_cache_symbol,
}

-- The structure holds both fields.
pub record IsImageInfos (infos : ImageInfos) : Type 0 where
  pub version_fits : 4 ≤ infos.size_of
  pub slide_fits : infos.slide_offset + 8 ≤ infos.size_of

-- The slide that a readable structure of version 12 and later publishes.
pub record IsPublished (infos : ImageInfos) (m : Space) (address : Option ℕ) (slide : ℕ)
    : Type 0 where
  pub place : ℕ
  pub given : address ≡ some place
  pub readable : IsReadable m place infos.size_of
  pub version : 12 ≤ u32_at m place
  pub value : slide ≡ u64_at m (place + infos.slide_offset)

-- With a kernel that reports regions truthfully and a structure that holds both fields, the query
-- of the slide reads nothing that is not readable, and its answer is below 2^64 and is 0 or the
-- slide that a readable structure of version 12 or later publishes.
pub shared_cache_slide-IsPublished :
    (p : Platform) (infos : ImageInfos) (m : Space) (address : Option ℕ)
    → IsTruthful p
    → IsImageInfos infos
    → Ensures
        (λ z. (z < 2 ^ 64) × ((z ≡ 0) ⊎ IsPublished infos m address z))
        (shared_cache_slide p infos m address)
unfolding shared_cache_slide
shared_cache_slide-IsPublished p infos m none truthful holds = returns (omega arith, inl refl)
shared_cache_slide-IsPublished p infos m (some a) truthful holds =
    let Good : Outcome ℕ → Type 0 =
      Ensures (λ z. (z < 2 ^ 64) × ((z ≡ 0) ⊎ IsPublished infos m (some a) z)) in
    let zero_slide : Good (ok 0) = returns (omega arith, inl refl) in
    by_test Good (a == 0) (λ _. zero_slide)
      (λ _.
        by_test Good (not (memory_is_readable p m a infos.size_of)) (λ _. zero_slide)
          (λ seen.
            let (_, reads) =
              memory_is_readable-IsReadable p truthful m a infos.size_of
                (of_not (memory_is_readable p m a infos.size_of) seen) in
            let fits : 4 ≤ infos.size_of = holds.version_fits in
            let slide_fits : infos.slide_offset + 8 ≤ infos.size_of = holds.slide_fits in
            rw
              (
                read_u32-ok m a reads (omega arith) (omega (arith, fits)),
                read_u64-ok m (a + infos.slide_offset) reads (omega arith)
                    (omega (arith, slide_fits)),
              )
              (by_test Good (ltb (u32_at m a) 12) (λ _. zero_slide)
                (λ new. returns (
                  u64_at-lt m _,
                  inr (record {
                    place = a;
                    given = refl;
                    readable = reads;
                    version = ltb→le _ _ new;
                    value = refl;
                  }),
                )))))
  where
    of_not : (b : Bool) → not b ≡ false → b ≡ true
    of_not true e = refl
    of_not false e = sym e

-- What a lookup leaves: the path that is located stays, nothing more is held than before, and an
-- address is that of a definition in the files at that path.
pub record IsLookup (content : List ℕ → List ℕ) (x : Machine) (s : Cached) (image name : List ℕ)
    (r : ℕ × Cached) : Type 0 where
  pub cached : r.1.cache_path ≡ some (locate_shared_cache x.environment s.cache_path).0
  pub descriptors : r.1.held.descriptors ≡ s.held.descriptors
  pub mappings : r.1.held.mappings ≡ s.held.mappings
  pub resolved :
      r.0 ≢ null
      → (slide : ℕ) × (sidecar : Bool) × ((slide ≡ 0)
          ⊎ IsPublished x.image_infos s.held.space x.all_image_info_addr slide)
        × IsFileDefinition content x.platform sidecar
            (locate_shared_cache x.environment s.cache_path).0
            slide
            image
            name
            r.0

locate_shared_cache-kept :
    (env : Environment) (o : Option (List ℕ))
    → (locate_shared_cache env o).1 ≡ some (locate_shared_cache env o).0
unfolding locate_shared_cache
locate_shared_cache-kept env none = refl
locate_shared_cache-kept env (some path) = refl

-- With a truthful kernel, a system that opens, maps and closes as documented, and a structure of
-- dyld that holds both fields, the lookup in the active cache reads nothing that is not readable,
-- leaves no descriptor open and no file mapped, and keeps the path that it located; and an address
-- that it returns is that of a definition of the symbol in the files at that path, slid by 0 or by
-- the slide that is published. The path and the name hold no zero byte.
pub find_shared_cache_symbol-IsLookup :
    (content : List ℕ → List ℕ) (x : Machine) (s : Cached) (image name : List ℕ)
    → IsTruthful x.platform
    → IsImageInfos x.image_infos
    → IsSystem content x.system
    → IsText image
    → IsText name
    → Ensures
        (IsLookup content x s image name)
        (find_shared_cache_symbol x s (some image) (some name))
unfolding find_shared_cache_symbol
find_shared_cache_symbol-IsLookup content x s image name truthful infos law image_text name_text =
    let path = (locate_shared_cache x.environment s.cache_path).0 in
    let kept = locate_shared_cache-kept x.environment s.cache_path in
    by_test (Ensures (IsLookup content x s image name)) (length path == 0)
      (λ _. returns (record {
        cached = kept;
        descriptors = refl;
        mappings = refl;
        resolved = λ e. absurd (e refl);
      }))
      (λ _.
        bind
          (shared_cache_slide-IsPublished x.platform x.image_infos s.held.space
            x.all_image_info_addr truthful infos)
          λ slide (word, published).
            bind
              (find_shared_cache_symbol_at_path-IsReleased content x.system law x.platform s.held
                path slide image name word image_text name_text)
              λ (a, held) released. returns (record {
                cached = kept;
                descriptors = released.descriptors;
                mappings = released.mappings;
                resolved = λ e. (slide, _, published, released.resolved e);
              }))
