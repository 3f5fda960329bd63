-- ===== src/Rebind/Global.antt =====
-- The registry of Sources/RorkHook/RorkHookRebind.c as one thread runs it: `RorkHookApplyRebind`,
-- `RorkHookHandleImageAdded` and `RorkHookRebindSymbolGlobally`.
pub mod Swept
pub mod Visits
pub mod Published
use rork_hook.Base.{
  ℕ, Bool, true, false, not, ◌||◌, Option, none, some, List, [], ◌∷◌, ◌==◌, if◌then◌else◌,
}
use rork_hook.Outcome.{Outcome, ok, ◌>>=◌}
use rork_hook.Space.{null}
use rork_hook.Platform.{strip_pointer}
use rork_hook.Pointer.{Process}
use rork_hook.Rebind.{Host, rebind_symbol_in_image}

pub record GlobalRebind : Type 0 where
  pub source_header : ℕ
  pub replacee : ℕ
  pub replacement : ℕ
  pub filter : Option (ℕ → Bool)

-- The filter is given and does not accept the image.
abbrev pub excludes : Option (ℕ → Bool) → ℕ → Bool
excludes none header = false
excludes (some accepts) header = not (accepts header)

unfoldable pub apply_rebind : Host → GlobalRebind → (header : ℕ) → Process → Outcome Process
apply_rebind x rebind header s =
    if header == null
    then ok s
    else if header == rebind.source_header
    then ok s
    else if excludes rebind.filter header
    then ok s
    else rebind_symbol_in_image x s header rebind.replacee rebind.replacement

-- The list is that of the atomic head, newest first.
unfoldable pub handle_image_added :
    Host → (rebinds : List GlobalRebind) (header : ℕ) → Process → Outcome Process
handle_image_added x [] header s = ok s
handle_image_added x (rebind ∷ next) header s = do
  s' ← apply_rebind x rebind header s
  handle_image_added x next header s'

-- A call for every image in order.
unfoldable pub each_image :
    (call : (header : ℕ) → Process → Outcome Process) (images : List ℕ) → Process → Outcome Process
each_image call [] s = ok s
each_image call (header ∷ images) s = do s' ← call header s; each_image call images s'

-- The loader and the allocator: the base that `dladdr` gives, the images by index, and whether
-- `malloc` succeeds.
pub record Loader : Type 0 where
  pub dladdr : (address : ℕ) → Option ℕ
  pub images : List ℕ
  pub malloc : Bool

-- `gRebinds`, `gAddImageCallbackOnce` and what the calls change.
pub record Globals : Type 0 where
  pub rebinds : List GlobalRebind
  pub callback_added : Bool
  pub process : Process

-- `dispatch_once` with the registration, which calls back for every image that is loaded.
unfoldable pub add_image_callback : Host → Loader → Globals → Outcome Globals
add_image_callback x loader g = if g.callback_added then ok g else (do
  s ← each_image (handle_image_added x g.rebinds) loader.images g.process
  ok (record g { callback_added = true; process = s }))

unfoldable pub publish_rebind : Host → Loader → Globals → GlobalRebind → Outcome (Bool × Globals)
publish_rebind x loader g entry = do
  g' ← add_image_callback x loader (record g { rebinds = entry ∷ g.rebinds })
  s ←
      each_image (λ header t. if header == null then ok t else apply_rebind x entry header t)
        loader.images g'.process
  ok (true, record g' { process = s })

unfoldable pub rebind_symbol_globally :
    Host
    → Loader
    → Globals
    → (replacee replacement : ℕ) (filter : Option (ℕ → Bool)) → Outcome (Bool × Globals)
rebind_symbol_globally x loader g replacee replacement filter =
    if replacee == null || replacement == null
    then ok (false, g)
    else elim (loader.dladdr (strip_pointer x.platform replacement)) [
      | none ↦ ok (false, g)
      | some base ↦
          if base == null
          then ok (false, g)
          else if not loader.malloc
          then ok (false, g)
          else publish_rebind x loader g (record {
            source_header = base;
            replacee = replacee;
            replacement = replacement;
            filter = filter;
          })
    ]
