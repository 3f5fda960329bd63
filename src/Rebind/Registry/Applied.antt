-- ===== src/Rebind/Registry/Applied.antt =====
-- Every step of the calls of RorkHookRebind.c and of dyld.
use Prim.Native.Nat.{ℕ}
use mathlib.Core.Path.{◌≡◌, refl, sym, ap, ◌∙◌, subst}
use mathlib.Core.Logic.{◌⊎◌, inl, inr}
use mathlib.Core.List.{List, [], ◌∷◌}
use rork_hook.Base.{In}
use rork_hook.Rebind.Registry.{
  linking, callback_ready, enumerating, returned, Notice, quiet, pending, running, Shared, set_call,
  set_notice, apply_next, Step, load, call, exchange_fails, exchange, once, once_done, count_images,
  visit_image, return_true, notify, apply_entry, callback_returns, initial, Reach, start, later,
}
use rork_hook.Rebind.Registry.Calls.{
  update-same, update-other, at_each, set_call-IsConsistent, load_image-IsConsistent,
  publish-IsConsistent, add_callback-IsConsistent, visit-IsConsistent,
}
use rork_hook.Rebind.Registry.Covered.{
  IsPublished, IsReady, IsCounted, counted_is_past_link, IsCovered, is_applied, is_pending,
  is_running, is_enumerated, IsConsistent, carry, enumerated, noticed,
}

module _ (w : Shared) (old : IsConsistent w) where
  set_notice-IsConsistent :
      (i : ℕ) (n : Notice)
      → ((e : ℕ) → In e w.rebinds → IsCovered w e i → IsCovered (set_notice w i n) e i)
      → IsConsistent (set_notice w i n)
  unfolding set_notice
  set_notice-IsConsistent i n still = record {
    listed = old.listed;
    ready = old.ready;
    covered = λ e j counted member.
        let before = old.covered e j counted member in
        let known = old.listed e (counted_is_past_link (w.calls e) counted) in
        at_each (λ j. IsCovered w e j → IsCovered (set_notice w i n) e j) i j (still e known)
          (λ other c. carry (update-other w.notices i n j other) refl (λ k. k) c) before;
  }

  notify-IsConsistent :
      (i : ℕ) → w.notices i ≡ pending → IsConsistent (set_notice w i (running w.rebinds))
  unfolding set_notice
  notify-IsConsistent i at = set_notice-IsConsistent i (running w.rebinds) due
    where
      due :
          (e : ℕ)
          → In e w.rebinds
          → IsCovered w e i
          → IsCovered (set_notice w i (running w.rebinds)) e i
      due e known (is_applied h) = is_applied h
      due e known (is_pending h) =
          is_running w.rebinds (update-same w.notices i (running w.rebinds)) known
      due e known (is_running l h k) =
          is_running w.rebinds (update-same w.notices i (running w.rebinds)) known
      due e known (is_enumerated l h k) = is_enumerated l h k

  callback_returns-IsConsistent :
      (i : ℕ) → w.notices i ≡ running [] → IsConsistent (set_notice w i quiet)
  unfolding set_notice
  callback_returns-IsConsistent i at = set_notice-IsConsistent i quiet done
    where
      done : (e : ℕ) → In e w.rebinds → IsCovered w e i → IsCovered (set_notice w i quiet) e i
      done e known (is_applied h) = is_applied h
      done e known (is_pending h) = cc
      done e known (is_running l h k) = absurd (subst (In e) (ap noticed (sym h ∙ at)) k)
      done e known (is_enumerated l h k) = is_enumerated l h k

  apply_next-IsConsistent :
      (e i : ℕ) (left : List ℕ)
      → w.notices i ≡ running (e ∷ left)
      → IsConsistent (apply_next w e i left)
  unfolding apply_next
  apply_next-IsConsistent e i left at = record {
    listed = old.listed;
    ready = old.ready;
    covered = λ f j counted member.
        at_each (λ j. IsCovered w f j → IsCovered (apply_next w e i left) f j) i j (moved f)
          (λ other c. carry (update-other w.notices i (running left) j other) refl inr c)
          (old.covered f j counted member);
  }
    where
      next : (f : ℕ) → (f ≡ e) ⊎ In f left → IsCovered (apply_next w e i left) f i
      next f (inl same) = is_applied (inl (ap (λ k. (k, i)) same))
      next f (inr h) = is_running left (update-same w.notices i (running left)) h

      moved : (f : ℕ) → IsCovered w f i → IsCovered (apply_next w e i left) f i
      moved f (is_applied h) = is_applied (inr h)
      moved f (is_pending h) = cc
      moved f (is_running l h k) = next f (subst (In f) (ap noticed (sym h ∙ at)) k)
      moved f (is_enumerated l h k) = is_enumerated l h k

pub Step-IsConsistent : {w w' : Shared} → Step w w' → IsConsistent w → IsConsistent w'
unfolding set_call
Step-IsConsistent {w} (load i) old = load_image-IsConsistent w old i
Step-IsConsistent {w} (call e at) old =
    set_call-IsConsistent w old e (linking w.rebinds) absurd absurd absurd
Step-IsConsistent {w} (exchange_fails e head at) old =
    set_call-IsConsistent w old e (linking w.rebinds) absurd absurd absurd
Step-IsConsistent {w} (exchange e at) old = publish-IsConsistent w old e
Step-IsConsistent {w} (once e at fresh) old = add_callback-IsConsistent w old e at
Step-IsConsistent {w} (once_done e at added) old =
    set_call-IsConsistent w old e callback_ready (λ _. old.listed e (subst IsPublished (sym at) tt))
      (λ _. added) absurd
Step-IsConsistent {w} (count_images e at) old =
    set_call-IsConsistent w old e (enumerating w.images)
      (λ _. old.listed e (subst IsPublished (sym at) tt))
      (λ _. old.ready e (subst IsReady (sym at) tt))
      (λ _ i member. is_enumerated w.images (update-same w.calls e (enumerating w.images)) member)
Step-IsConsistent {w} (visit_image e i left at) old = visit-IsConsistent w old e i left at
Step-IsConsistent {w} (return_true e at) old =
    set_call-IsConsistent w old e returned (λ _. old.listed e (subst IsPublished (sym at) tt))
      (λ _. old.ready e (subst IsReady (sym at) tt))
      (λ _ i member. done i (old.covered e i (subst IsCounted (sym at) tt) member))
  where
    done : (i : ℕ) → IsCovered w e i → IsCovered (set_call w e returned) e i
    done i (is_applied h) = is_applied h
    done i (is_pending h) = is_pending h
    done i (is_running l h k) = is_running l h k
    done i (is_enumerated l h k) = absurd (subst (In i) (ap enumerated (sym h ∙ at)) k)
Step-IsConsistent {w} (notify i at) old = notify-IsConsistent w old i at
Step-IsConsistent {w} (apply_entry e i left at) old = apply_next-IsConsistent w old e i left at
Step-IsConsistent {w} (callback_returns i at) old = callback_returns-IsConsistent w old i at

initial-IsConsistent : (images : List ℕ) → IsConsistent (initial images)
unfolding initial
initial-IsConsistent images = record {
  listed = λ e h. absurd h;
  ready = λ e h. absurd h;
  covered = λ e i h member. absurd h;
}

pub Reach-IsConsistent : {images : List ℕ} {w : Shared} → Reach images w → IsConsistent w
Reach-IsConsistent {images} start = initial-IsConsistent images
Reach-IsConsistent (later r step) = Step-IsConsistent step (Reach-IsConsistent r)

-- In every interleaving of calls with image loads and the callbacks of dyld: when a call has
-- returned and the callback for a loaded image is neither due nor running, the entry of the call
-- has been applied to the image.
pub Reach-applied :
    (images : List ℕ) (w : Shared) (e i : ℕ)
    → Reach images w
    → w.calls e ≡ returned
    → In i w.images
    → w.notices i ≡ quiet
    → In (e, i) w.applied
Reach-applied images w e i reach done member idle =
    settled ((Reach-IsConsistent reach).covered e i (subst IsCounted (sym done) tt) member)
  where
    settled : IsCovered w e i → In (e, i) w.applied
    settled (is_applied h) = h
    settled (is_pending h) = cc
    settled (is_running l h k) = cc
    settled (is_enumerated l h k) = cc
