-- ===== src/ImageSlide/Exact.antt =====
-- `RorkHookAddressDifference` and `RorkHookImageSlide` of RorkHookInternal.c against the
-- difference of integers.
use rork_hook.Base.{
  ℕ, ◌+◌, ◌^◌, ◌≤◌, ◌<◌, ◌≡◌, ◌≢◌, refl, List, [], ◌∷◌, arith, Bool, true, false, ◌&&◌, ◌||◌,
  Option, none, some, ltb, leb, ◌==◌, neb, if◌then◌else◌, Bool-cases, Option-cases, ap, ◌∙◌, inl,
  inr, u64_max, le→ltb,
}
use rork_hook.Base.Int.{ℤ, pos, negsuc, sub_ℕ}
use rork_hook.Outcome.{Outcome, ok}
use rork_hook.Space.{Space, null, u32_at}
use rork_hook.Space.Reads.{IsReadable, can_read-ok, read_u32-ok, u64_at-lt}
use rork_hook.Platform.{Platform, IsTruthful}
use rork_hook.Region.{readable_memory_length}
use rork_hook.Region.Readable.{readable_memory_length-IsReadable}
use rork_hook.MachO.{lc_segment, sizeof_segment_command}
use rork_hook.MachO.Segment
use rork_hook.LoadCommands.{for_each_load_command, cmdsize_offset}
use rork_hook.LoadCommands.Table.{IsTable}
use rork_hook.LoadCommands.Fold.{
  fold_visit, fold_visit-stop, fold_visit-go, for_each-fold, for_each-rejected,
}
use rork_hook.ImageSlide.{
  address_difference, ImageSlideContext, image_slide_load_command, image_slide,
}

-- An integer as a signed machine word, if it fits.
abbrev pub as_int64 : ℤ → Option ℤ
as_int64 (pos n) = if ltb n (2 ^ 63) then some (pos n) else none
as_int64 (negsuc n) = if ltb n (2 ^ 63) then some (negsuc n) else none

-- The difference of two addresses is the exact difference of integers when that is a signed 64-bit
-- integer, and there is no result otherwise.
pub address_difference-as_int64 :
    (left right : ℕ) → address_difference left right true ≡ as_int64 (sub_ℕ left right)
unfolding address_difference
address_difference-as_int64 left right = ground arith

-- The segment that maps the header: its file offset is zero and it has bytes in the file.
abbrev pub maps_header : Space → ℕ → Bool
maps_header m c =
    (u32_at m c == lc_segment && leb sizeof_segment_command (u32_at m (c + cmdsize_offset)))
    && (Segment.fileoff m c == 0 && neb (Segment.filesize m c) 0)

-- The slide by the first such segment among the commands, if it is representable.
unfoldable pub slide_in : Space → (header : ℕ) → List ℕ → Option ℤ
slide_in m header [] = none
slide_in m header (c ∷ cs) =
    if maps_header m c then as_int64 (sub_ℕ header (Segment.vmaddr m c)) else slide_in m header cs

abbrev slide_step : Space → ℕ → ImageSlideContext → Bool × ImageSlideContext
slide_step m c context =
    if maps_header m c
    then elim (as_int64 (sub_ℕ context.header (Segment.vmaddr m c))) [
      | none ↦ (false, context)
      | some slide ↦ (false, record context { slide = slide; found = true })
    ]
    else (true, context)

skip_test :
    (cmd size : ℕ)
    → (neb cmd lc_segment || ltb size sizeof_segment_command)
      ≡ (if cmd == lc_segment && leb sizeof_segment_command size then false else true)
skip_test cmd size = ground arith

segment_fits :
    (c cmd size : ℕ)
    → (cmd == lc_segment && leb sizeof_segment_command size) ≡ true
    → c + 72 ≤ c + size
segment_fits c cmd size h = ground arith

vmaddr_word : (a : ℕ) → a < 2 ^ 64 → a ≤ u64_max
vmaddr_word a h = omega arith

found_or :
    (o : Option ℤ) (context : ImageSlideContext)
    → ◌≡◌ {A = Outcome (Bool × ImageSlideContext)}
        (elim o [
          | none ↦ ok (false, context)
          | some slide ↦ ok (false, record context { slide = slide; found = true })
        ])
        (ok (elim o [
          | none ↦ (false, context)
          | some slide ↦ (false, record context { slide = slide; found = true })
        ]))
found_or none context = refl
found_or (some slide) context = refl

-- What is returned and stored for a slide that was or was not found.
abbrev pub slide_result : Option ℤ → ℤ × Bool
slide_result none = (pos 0, false)
slide_result (some z) = (z, true)

abbrev start : ℕ → ImageSlideContext
start header = record { header = header; slide = pos 0; found = false }

abbrev context_result : ImageSlideContext → ℤ × Bool
context_result context = if context.found then (context.slide, true) else (pos 0, false)

found_result :
    (context : ImageSlideContext)
    → ◌≡◌ {A = Outcome (ℤ × Bool)}
        (if context.found then ok (context.slide, true) else ok (pos 0, false))
        (ok (context_result context))
found_result context = elim (Bool-cases context.found) [ inl e ↦ rw e | inr e ↦ rw e ]

not_null : (p : ℕ) → p ≢ null → (p == null) ≡ false
not_null p ne = ground arith

module _ (m : Space) where
  image_slide_load_command-step :
      (c index : ℕ) (context : ImageSlideContext)
      → 8 ≤ u32_at m (c + cmdsize_offset)
      → IsReadable m c (u32_at m (c + cmdsize_offset))
      → c ≢ null
      → image_slide_load_command m c index context ≡ ok (slide_step m c context)
  unfolding image_slide_load_command
  image_slide_load_command-step c index context large r nonnull =
      let size = u32_at m (c + cmdsize_offset) in
      let segment = u32_at m c == lc_segment && leb sizeof_segment_command size in
      let maps = Segment.fileoff m c == 0 && neb (Segment.filesize m c) 0 in
      rw
        (
          not_null c nonnull,
          read_u32-ok m c r (omega arith) (omega arith),
          read_u32-ok m (c + 4) r (omega arith) (omega arith),
          skip_test (u32_at m c) size,
        )
        (elim (Bool-cases segment) [
          | inr other ↦ rw other
          | inl is ↦
              rw (is, can_read-ok m c 72 r (omega arith) (segment_fits c (u32_at m c) size is))
                (elim (Bool-cases maps) [
                  | inr no_map ↦ rw no_map
                  | inl maps_it ↦
                      rw
                        (
                          maps_it,
                          le→ltb u64_max (Segment.vmaddr m c)
                              (vmaddr_word (Segment.vmaddr m c) (u64_at-lt m _)),
                          address_difference-as_int64 context.header (Segment.vmaddr m c),
                        )
                        (found_or (as_int64 (sub_ℕ context.header (Segment.vmaddr m c))) context)
                ])
        ])

  fold-slide_in :
      (header : ℕ) (cs : List ℕ)
      → context_result (fold_visit (slide_step m) cs (start header))
        ≡ slide_result (slide_in m header cs)
  unfolding slide_in fold_visit
  fold-slide_in header [] = refl
  fold-slide_in header (c ∷ cs) = elim (Bool-cases (maps_header m c)) [
    | inl here ↦ rw here (elim (Option-cases (as_int64 (sub_ℕ header (Segment.vmaddr m c)))) [
      | inl far ↦
          rw (
            fold_visit-stop (slide_step m) c cs (start header) (start header) (rw (here, far)),
            far,
          )
      | inr (z, near) ↦ rw (
        fold_visit-stop (slide_step m) c cs (start header)
            (record { header = header; slide = z; found = true }) (rw (here, near)),
        near,
      )
    ])
    | inr there ↦
        rw (fold_visit-go (slide_step m) c cs (start header) (start header) (rw there), there)
          (fold-slide_in header cs)
  ]

  -- With a kernel that reports regions truthfully, the slide of an image with a table is resolved
  -- to the exact difference between the header and the address of the first segment that maps the
  -- header, if that is a signed 64-bit integer; otherwise it is unresolved and 0.
  pub image_slide-slide_in :
      (p : Platform) (header : ℕ) (cs : List ℕ)
      → IsTruthful p
      → IsTable m header (readable_memory_length p m header) cs
      → image_slide p m header ≡ ok (slide_result (slide_in m header cs))
  unfolding image_slide for_each_load_command
  image_slide-slide_in p header cs truthful t =
      rw
        (
          not_null header t.nonnull,
          for_each-fold (slide_step m) m (image_slide_load_command m) header _ cs _
              (readable_memory_length-IsReadable p truthful m header) t
              image_slide_load_command-step,
        )
        (found_result (fold_visit (slide_step m) cs (start header))
          ∙ ap ok (fold-slide_in header cs))

  -- With a kernel that reports regions truthfully, an image without a table in its readable memory
  -- has the slide 0, unresolved.
  pub image_slide_unresolved :
      (p : Platform) (header : ℕ)
      → IsTruthful p
      → ((cs : List ℕ) → ¬ IsTable m header (readable_memory_length p m header) cs)
      → image_slide p m header ≡ ok (pos 0, false)
  unfolding image_slide for_each_load_command
  image_slide_unresolved p header truthful no_table = elim (Bool-cases (header == null)) [
    | inl is_null ↦ rw (is_null, image_slide)
    | inr nonnull ↦
        rw
          (
            nonnull,
            image_slide,
            for_each-rejected m (image_slide_load_command m) header _ _
                (readable_memory_length-IsReadable p truthful m header) no_table,
          )
          refl
  ]
