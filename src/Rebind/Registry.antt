-- ===== src/Rebind/Registry.antt =====
-- `RorkHookRebindSymbolGlobally` and `RorkHookHandleImageAdded` of
-- Sources/RorkHook/RorkHookRebind.c in threads that interleave with dyld. A call is named by the entry
-- that it publishes, and an image by its header; a step is one access to what the threads share.
pub mod Covered
pub mod Calls
pub mod Applied
pub mod Finish
use Prim.Native.Nat.{ℕ}
use mathlib.Core.Path.{◌≡◌}
use mathlib.Core.Logic.{◌⊎◌}
use mathlib.Core.Bool.{Bool, true, false, ◌||◌}
use mathlib.Core.List.{List, [], ◌∷◌}
use rork_hook.Base.{◌==◌, if◌then◌else◌}

-- Where a call of `RorkHookRebindSymbolGlobally` stands.
pub data Call : Type 0 where
  not_called : Call
  -- `entry->next` is the head that was read.
  linking : (head : List ℕ) → Call
  published : Call
  -- `dispatch_once` has returned.
  callback_ready : Call
  -- The images below the count that are still to visit.
  enumerating : (left : List ℕ) → Call
  returned : Call

-- Where dyld's callback for an image stands.
pub data Notice : Type 0 where
  quiet : Notice
  pending : Notice
  -- The entries from the head that was read on that are still to apply.
  running : (left : List ℕ) → Notice

pub record Shared : Type 0 where
  pub images : List ℕ
  pub callback_added : Bool
  -- `gRebinds`.
  pub rebinds : List ℕ
  pub calls : ℕ → Call
  pub notices : ℕ → Notice
  -- The entries and images for which `RorkHookApplyRebind` has run.
  pub applied : List (ℕ × ℕ)

abbrev pub update {ℓ} : {A : Type ℓ} → (ℕ → A) → ℕ → A → ℕ → A
update f i a j = if j == i then a else f j

abbrev pub is_in : ℕ → List ℕ → Bool
is_in a [] = false
is_in a (x ∷ xs) = a == x || is_in a xs

-- The image is in dyld's list, and its callback is due if the function is registered.
unfoldable pub load_image : Shared → ℕ → Shared
load_image w i = record w {
  images = i ∷ w.images;
  notices = if w.callback_added then update w.notices i pending else w.notices;
}

unfoldable pub set_call : Shared → ℕ → Call → Shared
set_call w e c = record w { calls = update w.calls e c }

-- The exchange succeeds.
unfoldable pub publish : Shared → ℕ → Shared
publish w e = record w { rebinds = e ∷ w.rebinds; calls = update w.calls e published }

-- The callback is registered, and due for every image of dyld's list. The callbacks for these run in
-- later steps, so that other calls may pass `dispatch_once` before: the source's orders are among these.
unfoldable pub add_callback : Shared → ℕ → Shared
add_callback w e = record w {
  callback_added = true;
  notices = λ i. if is_in i w.images then pending else w.notices i;
  calls = update w.calls e callback_ready;
}

-- A call visits the next of its images.
unfoldable pub visit : Shared → (e i : ℕ) (left : List ℕ) → Shared
visit w e i left = record w {
  calls = update w.calls e (enumerating left);
  applied = (e, i) ∷ w.applied;
}

unfoldable pub set_notice : Shared → ℕ → Notice → Shared
set_notice w i n = record w { notices = update w.notices i n }

-- The callback of an image applies its next entry.
unfoldable pub apply_next : Shared → (e i : ℕ) (left : List ℕ) → Shared
apply_next w e i left = record w {
  notices = update w.notices i (running left);
  applied = (e, i) ∷ w.applied;
}

pub data Step (w : Shared) : Shared → Type 0 where
  load : (i : ℕ) → Step w (load_image w i)
  call : (e : ℕ) → w.calls e ≡ not_called → Step w (set_call w e (linking w.rebinds))
  -- The exchange fails, maybe for no reason, and gives the head again.
  exchange_fails :
      (e : ℕ) (head : List ℕ) → w.calls e ≡ linking head → Step w (set_call w e (linking w.rebinds))
  exchange : (e : ℕ) → w.calls e ≡ linking w.rebinds → Step w (publish w e)
  once : (e : ℕ) → w.calls e ≡ published → w.callback_added ≡ false → Step w (add_callback w e)
  once_done :
      (e : ℕ)
      → w.calls e ≡ published
      → w.callback_added ≡ true
      → Step w (set_call w e callback_ready)
  count_images : (e : ℕ) → w.calls e ≡ callback_ready → Step w (set_call w e (enumerating w.images))
  visit_image :
      (e i : ℕ) (left : List ℕ) → w.calls e ≡ enumerating (i ∷ left) → Step w (visit w e i left)
  return_true : (e : ℕ) → w.calls e ≡ enumerating [] → Step w (set_call w e returned)
  notify : (i : ℕ) → w.notices i ≡ pending → Step w (set_notice w i (running w.rebinds))
  apply_entry :
      (e i : ℕ) (left : List ℕ) → w.notices i ≡ running (e ∷ left) → Step w (apply_next w e i left)
  callback_returns : (i : ℕ) → w.notices i ≡ running [] → Step w (set_notice w i quiet)

-- Before any call; dyld has images already.
unfoldable pub initial : (images : List ℕ) → Shared
initial images = record {
  images = images;
  callback_added = false;
  rebinds = [];
  calls = λ e. not_called;
  notices = λ i. quiet;
  applied = [];
}

pub data Reach (images : List ℕ) : Shared → Type 0 where
  start : Reach images (initial images)
  later : {w w' : Shared} → Reach images w → Step w w' → Reach images w'

-- Any number of steps.
pub data Steps : Shared → Shared → Type 0 where
  finished : {w : Shared} → Steps w w
  further : {w w' w'' : Shared} → Step w w' → Steps w' w'' → Steps w w''
