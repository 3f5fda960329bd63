-- ===== src/ImageSlide/Bounds.antt =====
-- `RorkHookImageSlide` of RorkHookInternal.c on arbitrary bytes.
use mathlib.Core.Path.{subst}
use mathlib.Core.Bool.{false≢true}
use mathlib.Core.Option.{some-injective}
use rork_hook.Base.{
  ℕ, ◌^◌, ◌≡◌, refl, List, [], ◌∷◌, arith, true, Option, none, some, ltb, Bool-cases, inl, inr,
  none-ne-some,
}
use rork_hook.Base.Int.{ℤ, pos, negsuc, sub_ℕ, Fits}
use rork_hook.Outcome.Ensures.{Ensures, returns}
use rork_hook.Space.{Space}
use rork_hook.Platform.{Platform, IsTruthful}
use rork_hook.Region.{readable_memory_length}
use rork_hook.Region.Readable.{readable_memory_length-IsReadable}
use rork_hook.MachO.Segment
use rork_hook.LoadCommands.Table.{IsTable}
use rork_hook.LoadCommands.Decide.{IsTable-cases}
use rork_hook.ImageSlide.{image_slide}
use rork_hook.ImageSlide.Exact.{
  as_int64, maps_header, slide_in, slide_result, image_slide-slide_in, image_slide_unresolved,
}

as_int64-Fits : (z w : ℤ) → as_int64 z ≡ some w → Fits (2 ^ 63) w
as_int64-Fits (pos n) w e = elim (Bool-cases (ltb n (2 ^ 63))) [
  | inl small ↦ subst (Fits (2 ^ 63)) (some-injective _ _ (rw small at e)) (ground arith)
  | inr large ↦ absurd (none-ne-some (rw large at e))
]
as_int64-Fits (negsuc n) w e = elim (Bool-cases (ltb n (2 ^ 63))) [
  | inl small ↦ subst (Fits (2 ^ 63)) (some-injective _ _ (rw small at e)) (ground arith)
  | inr large ↦ absurd (none-ne-some (rw large at e))
]

module _ (m : Space) where
  pub slide_in-Fits :
      (header : ℕ) (cs : List ℕ) (z : ℤ) → slide_in m header cs ≡ some z → Fits (2 ^ 63) z
  unfolding slide_in
  slide_in-Fits header [] z e = absurd (none-ne-some e)
  slide_in-Fits header (c ∷ cs) z e = elim (Bool-cases (maps_header m c)) [
    | inl here ↦ as_int64-Fits (sub_ℕ header (Segment.vmaddr m c)) z (rw here at e)
    | inr there ↦ slide_in-Fits header cs z (rw there at e)
  ]

  resolved-slide : (o : Option ℤ) → (slide_result o).1 ≡ true → o ≡ some (slide_result o).0
  resolved-slide none e = absurd (false≢true e)
  resolved-slide (some z) e = refl

  -- On any bytes the query returns, and a resolved slide is the slide of a valid table.
  pub image_slide-Ensures :
      (p : Platform) (header : ℕ)
      → IsTruthful p
      → Ensures
          (λ result.
            result.1 ≡ true
            → (cs : List ℕ) × IsTable m header (readable_memory_length p m header) cs
              × (slide_in m header cs ≡ some result.0))
          (image_slide p m header)
  image_slide-Ensures p header truthful =
      elim (IsTable-cases m header (readable_memory_length p m header)
        (readable_memory_length-IsReadable p truthful m header)) [
          | inl (cs, t) ↦
              rw (image_slide-slide_in m p header cs truthful t)
                (returns (λ e. (cs, t, resolved-slide (slide_in m header cs) e)))
          | inr no_table ↦
              rw (image_slide_unresolved m p header truthful no_table)
                (returns (λ e. absurd (false≢true e)))
        ]
