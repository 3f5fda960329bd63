-- ===== src/Rebind/Registry/Calls.antt =====
-- The steps of the calls of RorkHookRebindSymbolGlobally, and of dyld's loads.
use Prim.Native.Nat.{ℕ}
use mathlib.Core.Path.{◌≡◌, refl, sym, ap, ◌∙◌, subst}
use mathlib.Core.Logic.{◌⊎◌, inl, inr}
use mathlib.Core.Bool.{Bool, true, false, false≢true}
use mathlib.Core.List.{List, ◌∷◌}
use rork_hook.Base.{◌==◌, ==_iff, if◌then◌else◌, Bool-cases, In}
use rork_hook.Rebind.Registry.{
  Call, published, callback_ready, enumerating, pending, Shared, update, load_image, set_call,
  publish, add_callback, visit,
}
use rork_hook.Rebind.Registry.Covered.{
  IsPublished, IsReady, IsCounted, counted_is_past_once, IsCovered, is_applied, is_pending,
  is_running, is_enumerated, IsConsistent, In-is_in, carry, enumerated,
}

pub update-same {ℓ} : {A : Type ℓ} (f : ℕ → A) (i : ℕ) (a : A) → update f i a i ≡ a
update-same f i a = rw ((==_iff i i).1 refl) refl

pub update-other {ℓ} :
    {A : Type ℓ} (f : ℕ → A) (i : ℕ) (a : A) (j : ℕ) → (j == i) ≡ false → update f i a j ≡ f j
update-other f i a j other = rw other refl

-- A statement at every index, from the one at the index that is updated and those elsewhere.
pub at_each {ℓ} : (P : ℕ → Type ℓ) (i j : ℕ) → P i → ((j == i) ≡ false → P j) → P j
at_each P i j here there = elim (Bool-cases (j == i)) [
  | inl same ↦ subst P (sym ((==_iff j i).0 same)) here
  | inr other ↦ there other
]

elsewhere : (j i : ℕ) (xs : List ℕ) → (j == i) ≡ false → In j (i ∷ xs) → In j xs
elsewhere j i xs other (inl same) = absurd (false≢true (sym other ∙ (==_iff j i).1 same))
elsewhere j i xs other (inr h) = h

module _ (w : Shared) (old : IsConsistent w) where
  -- A call that moves on without a visit.
  pub set_call-IsConsistent :
      (e : ℕ) (c : Call)
      → (IsPublished c → In e w.rebinds)
      → (IsReady c → w.callback_added ≡ true)
      → (IsCounted c → (i : ℕ) → In i w.images → IsCovered (set_call w e c) e i)
      → IsConsistent (set_call w e c)
  unfolding set_call
  set_call-IsConsistent e c lists readies covers = record {
    listed = λ e'.
        at_each (λ e'. IsPublished (update w.calls e c e') → In e' w.rebinds) e e'
          (λ h. lists (subst IsPublished (update-same w.calls e c) h))
          (λ other h. old.listed e' (subst IsPublished (update-other w.calls e c e' other) h));
    ready = λ e'.
        at_each (λ e'. IsReady (update w.calls e c e') → w.callback_added ≡ true) e e'
          (λ h. readies (subst IsReady (update-same w.calls e c) h))
          (λ other h. old.ready e' (subst IsReady (update-other w.calls e c e' other) h));
    covered = λ e' i counted member.
        at_each (λ e'. IsCounted (update w.calls e c e') → IsCovered (set_call w e c) e' i) e e'
          (λ h. covers (subst IsCounted (update-same w.calls e c) h) i member)
          (λ other h.
            carry refl (update-other w.calls e c e' other) (λ k. k)
              (old.covered e' i (subst IsCounted (update-other w.calls e c e' other) h) member))
          counted;
  }

  pub load_image-IsConsistent : (i : ℕ) → IsConsistent (load_image w i)
  unfolding load_image
  load_image-IsConsistent i = record {
    listed = old.listed;
    ready = old.ready;
    covered = λ e j counted member.
        let added = old.ready e (counted_is_past_once (w.calls e) counted) in
        let notice : (k : ℕ) → (load_image w i).notices k ≡ update w.notices i pending k =
          λ k. ap (λ (b : Bool). (if b then update w.notices i pending else w.notices) k) added in
        at_each (λ j. In j (i ∷ w.images) → IsCovered (load_image w i) e j) i j
          (λ _. is_pending (notice i ∙ update-same w.notices i pending))
          (λ other m.
            carry (notice j ∙ update-other w.notices i pending j other) refl (λ k. k)
              (old.covered e j counted (elsewhere j i w.images other m)))
          member;
  }

  pub publish-IsConsistent : (e : ℕ) → IsConsistent (publish w e)
  unfolding publish
  publish-IsConsistent e = record {
    listed = λ e'.
        at_each (λ e'. IsPublished (update w.calls e published e') → In e' (e ∷ w.rebinds)) e e'
          (λ _. inl refl)
          (λ other h.
            inr (old.listed e' (subst IsPublished (update-other w.calls e published e' other) h)));
    ready = λ e'.
        at_each (λ e'. IsReady (update w.calls e published e') → w.callback_added ≡ true) e e'
          (λ h. absurd (subst IsReady (update-same w.calls e published) h))
          (λ other h. old.ready e' (subst IsReady (update-other w.calls e published e' other) h));
    covered = λ e' i counted member.
        at_each (λ e'. IsCounted (update w.calls e published e') → IsCovered (publish w e) e' i) e
          e' (λ h. absurd (subst IsCounted (update-same w.calls e published) h))
          (λ other h.
            carry refl (update-other w.calls e published e' other) (λ k. k)
              (old.covered e' i (subst IsCounted (update-other w.calls e published e' other) h)
                member))
          counted;
  }

  -- Every image of the list is due.
  pub add_callback-IsConsistent : (e : ℕ) → w.calls e ≡ published → IsConsistent (add_callback w e)
  unfolding add_callback
  add_callback-IsConsistent e at = record {
    listed = λ e'.
        at_each (λ e'. IsPublished (update w.calls e callback_ready e') → In e' w.rebinds) e e'
          (λ _. old.listed e (subst IsPublished (sym at) tt))
          (λ other h.
            old.listed e' (subst IsPublished (update-other w.calls e callback_ready e' other) h));
    ready = λ e' h. refl;
    covered = λ e' i counted member.
        is_pending
          (ap (λ (b : Bool). if b then pending else w.notices i) (In-is_in i w.images member));
  }

  pub visit-IsConsistent :
      (e i : ℕ) (left : List ℕ)
      → w.calls e ≡ enumerating (i ∷ left)
      → IsConsistent (visit w e i left)
  unfolding visit
  visit-IsConsistent e i left at = record {
    listed = λ e'.
        at_each (λ e'. IsPublished (update w.calls e (enumerating left) e') → In e' w.rebinds) e e'
          (λ _. old.listed e (subst IsPublished (sym at) tt))
          (λ other h.
            old.listed e'
              (subst IsPublished (update-other w.calls e (enumerating left) e' other) h));
    ready = λ e'.
        at_each (λ e'. IsReady (update w.calls e (enumerating left) e') → w.callback_added ≡ true) e
          e' (λ _. old.ready e (subst IsReady (sym at) tt))
          (λ other h.
            old.ready e' (subst IsReady (update-other w.calls e (enumerating left) e' other) h));
    covered = λ e' j counted member.
        at_each
          (λ e'.
            IsCounted (update w.calls e (enumerating left) e') → IsCovered (visit w e i left) e' j)
          e e' (λ _. visited j (old.covered e j (subst IsCounted (sym at) tt) member))
          (λ other h. carry refl (update-other w.calls e (enumerating left) e' other) inr (
            old.covered e' j
              (subst IsCounted (update-other w.calls e (enumerating left) e' other) h) member))
          counted;
  }
    where
      next : (j : ℕ) → (j ≡ i) ⊎ In j left → IsCovered (visit w e i left) e j
      next j (inl same) = is_applied (inl (ap (λ k. (e, k)) same))
      next j (inr h) = is_enumerated left (update-same w.calls e (enumerating left)) h

      visited : (j : ℕ) → IsCovered w e j → IsCovered (visit w e i left) e j
      visited j (is_applied h) = is_applied (inr h)
      visited j (is_pending h) = is_pending h
      visited j (is_running l h k) = is_running l h k
      visited j (is_enumerated l h k) = next j (subst (In j) (ap enumerated (sym h ∙ at)) k)
