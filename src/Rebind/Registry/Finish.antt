-- ===== src/Rebind/Registry/Finish.antt =====
-- How the calls of RorkHookRebind.c and the callbacks of dyld come to their end.
use Prim.Native.Nat.{ℕ}
use mathlib.Core.Path.{◌≡◌, refl, sym, ◌∙◌, subst}
use mathlib.Core.Logic.{inl, inr}
use mathlib.Core.List.{List, [], ◌∷◌}
use rork_hook.Base.{Bool-cases, In}
use rork_hook.Rebind.Registry.{
  Call, not_called, linking, published, callback_ready, enumerating, returned, Notice, quiet,
  pending, running, Shared, update, set_call, publish, add_callback, visit, set_notice, apply_next,
  Step, call, exchange_fails, exchange, once, once_done, count_images, visit_image, return_true,
  notify, apply_entry, callback_returns, Reach, later, Steps, finished, further,
}
use rork_hook.Rebind.Registry.Calls.{update-same, update-other, at_each}
use rork_hook.Rebind.Registry.Applied.{Reach-applied}

Steps-append : {w w' w'' : Shared} → Steps w w' → Steps w' w'' → Steps w w''
Steps-append finished rest = rest
Steps-append (further step steps) rest = further step (Steps-append steps rest)

Reach-Steps : {images : List ℕ} {w w' : Shared} → Reach images w → Steps w w' → Reach images w'
Reach-Steps reach finished = reach
Reach-Steps reach (further step steps) = Reach-Steps (later reach step) steps

-- A run after which the call has returned, with the same images.
abbrev Returns : Shared → ℕ → Type 0
Returns w e = (w' : Shared) × Steps w w' × (w'.calls e ≡ returned) × (w'.images ≡ w.images)

one_more_then :
    {w w' : Shared} {e : ℕ} → Step w w' → w'.images ≡ w.images → Returns w' e → Returns w e
one_more_then step same (w'', steps, done, images) = (w'', further step steps, done, images ∙ same)

enumerating-Returns :
    (left : List ℕ) (w : Shared) (e : ℕ) → w.calls e ≡ enumerating left → Returns w e
unfolding set_call visit
enumerating-Returns [] w e at =
    one_more_then (return_true e at) refl (_, finished, update-same w.calls e returned, refl)
enumerating-Returns (i ∷ left) w e at =
    one_more_then (visit_image e i left at) refl
      (enumerating-Returns left (visit w e i left) e (update-same w.calls e (enumerating left)))

ready-Returns : (w : Shared) (e : ℕ) → w.calls e ≡ callback_ready → Returns w e
unfolding set_call
ready-Returns w e at = one_more_then (count_images e at) refl (
    enumerating-Returns w.images (set_call w e (enumerating w.images)) e
      (update-same w.calls e (enumerating w.images)))

published-Returns : (w : Shared) (e : ℕ) → w.calls e ≡ published → Returns w e
unfolding set_call add_callback
published-Returns w e at = elim (Bool-cases w.callback_added) [
  | inl added ↦
      one_more_then (once_done e at added) refl
        (ready-Returns (set_call w e callback_ready) e (update-same w.calls e callback_ready))
  | inr fresh ↦
      one_more_then (once e at fresh) refl
        (ready-Returns (add_callback w e) e (update-same w.calls e callback_ready))
]

linking-Returns : (w : Shared) (e : ℕ) → w.calls e ≡ linking w.rebinds → Returns w e
unfolding publish
linking-Returns w e at =
    one_more_then (exchange e at) refl
      (published-Returns (publish w e) e (update-same w.calls e published))

call-Returns : (w : Shared) (e : ℕ) → Returns w e
unfolding set_call
call-Returns w e = of (w.calls e) refl
  where
    of : (c : Call) → w.calls e ≡ c → Returns w e
    of not_called at = one_more_then (call e at) refl (
        linking-Returns (set_call w e (linking w.rebinds)) e
          (update-same w.calls e (linking w.rebinds)))
    of (linking head) at = one_more_then (exchange_fails e head at) refl (
        linking-Returns (set_call w e (linking w.rebinds)) e
          (update-same w.calls e (linking w.rebinds)))
    of published at = published-Returns w e at
    of callback_ready at = ready-Returns w e at
    of (enumerating left) at = enumerating-Returns left w e at
    of returned at = (w, finished, at, refl)

-- A run after which the callback of the image has returned, and no other is begun.
pub record IsIdle (w : Shared) (i : ℕ) (w' : Shared) : Type 0 where
  pub steps : Steps w w'
  pub calls : (e : ℕ) → w'.calls e ≡ w.calls e
  pub images : w'.images ≡ w.images
  pub idle : w'.notices i ≡ quiet
  pub others : (j : ℕ) → w.notices j ≡ quiet → w'.notices j ≡ quiet

abbrev Idles : Shared → ℕ → Type 0
Idles w i = (w' : Shared) × IsIdle w i w'

still_quiet :
    (w : Shared) (i : ℕ) (n m : Notice) (j : ℕ)
    → w.notices i ≡ m
    → (m ≡ quiet → ⊥)
    → w.notices j ≡ quiet
    → update w.notices i n j ≡ quiet
still_quiet w i n m j at busy is_quiet =
    at_each (λ j. w.notices j ≡ quiet → update w.notices i n j ≡ quiet) i j
      (λ q. absurd (busy (sym at ∙ q))) (λ other q. update-other w.notices i n j other ∙ q) is_quiet

running-Idles : (left : List ℕ) (w : Shared) (i : ℕ) → w.notices i ≡ running left → Idles w i
unfolding set_notice apply_next
running-Idles [] w i at = (
  _,
  record {
    steps = further (callback_returns i at) finished;
    calls = λ e. refl;
    images = refl;
    idle = update-same w.notices i quiet;
    others = λ j. still_quiet w i quiet (running []) j at (λ e. cc);
  },
)
running-Idles (e ∷ left) w i at =
    let (w', after) =
      running-Idles left (apply_next w e i left) i (update-same w.notices i (running left)) in
    (
      w',
      record {
        steps = further (apply_entry e i left at) after.steps;
        calls = after.calls;
        images = after.images;
        idle = after.idle;
        others = λ j q.
            after.others j (still_quiet w i (running left) (running (e ∷ left)) j at (λ e. cc) q);
      },
    )

callback-Idles : (w : Shared) (i : ℕ) → Idles w i
unfolding set_notice
callback-Idles w i = of (w.notices i) refl
  where
    of : (n : Notice) → w.notices i ≡ n → Idles w i
    of quiet at = (
      w,
      record { steps = finished; calls = λ e. refl; images = refl; idle = at; others = λ j q. q },
    )
    of (running left) at = running-Idles left w i at
    of pending at =
        let (w', after) =
          running-Idles w.rebinds (set_notice w i (running w.rebinds)) i
            (update-same w.notices i (running w.rebinds)) in
        (
          w',
          record {
            steps = further (notify i at) after.steps;
            calls = after.calls;
            images = after.images;
            idle = after.idle;
            others = λ j q.
                after.others j (still_quiet w i (running w.rebinds) pending j at (λ e. cc) q);
          },
        )

-- All callbacks of a list of images.
all-Idles :
    (js : List ℕ) (w : Shared)
    → (w' : Shared) × Steps w w'
      × ((e : ℕ) → w'.calls e ≡ w.calls e)
      × (w'.images ≡ w.images)
      × ((j : ℕ) → In j js → w'.notices j ≡ quiet)
      × ((j : ℕ) → w.notices j ≡ quiet → w'.notices j ≡ quiet)
all-Idles [] w = (w, finished, λ e. refl, refl, λ j h. absurd h, λ j q. q)
all-Idles (i ∷ js) w =
    let (w1, one) = callback-Idles w i in
    let (w2, steps, calls, images, all, kept) = all-Idles js w1 in
    (
      w2,
      Steps-append one.steps steps,
      λ e. calls e ∙ one.calls e,
      images ∙ one.images,
      λ j. each j w2 (kept i one.idle) all,
      λ j q. kept j (one.others j q),
    )
  where
    each :
        (j : ℕ) (w2 : Shared)
        → w2.notices i ≡ quiet
        → ((j : ℕ) → In j js → w2.notices j ≡ quiet)
        → In j (i ∷ js)
        → w2.notices j ≡ quiet
    each j w2 idle all (inl same) = subst (λ k. w2.notices k ≡ quiet) (sym same) idle
    each j w2 idle all (inr h) = all j h

-- From every state that calls, callbacks and image loads can reach in any interleaving, there are
-- steps after which a given call has returned, the images are the same, and the entry of the call
-- is applied to every one of them.
pub Reach-finishes :
    (images : List ℕ) (w : Shared) (e : ℕ)
    → Reach images w
    → (w' : Shared) × Steps w w'
      × (w'.calls e ≡ returned)
      × (w'.images ≡ w.images)
      × ((i : ℕ) → In i w.images → In (e, i) w'.applied)
Reach-finishes images w e reach =
    let (w1, steps1, done, same1) = call-Returns w e in
    let (w2, steps2, calls, same2, idle, _) = all-Idles w.images w1 in
    let run = Steps-append steps1 steps2 in
    (
      w2,
      run,
      calls e ∙ done,
      same2 ∙ same1,
      λ i member.
          Reach-applied images w2 e i (Reach-Steps reach run) (calls e ∙ done)
            (subst (In i) (sym (same2 ∙ same1)) member) (idle i member),
    )
