-- ===== src/Symbols/FileImage/Translated.antt =====
-- `RorkHookFindFileAddressLoadCommand` over the commands of a table.
use mathlib.Core.Path.{subst}
use mathlib.Core.Option.{some-injective}
use rork_hook.Base.{
  ℕ, ◌+◌, ◌-◌, ◌^◌, ◌≤◌, ◌<◌, ◌≡◌, ◌≢◌, refl, List, [], ◌∷◌, arith, Bool, true, false, not, ◌&&◌,
  ◌||◌, Option, none, some, ltb, leb, ◌==◌, neb, if◌then◌else◌, Bool-cases, ap, ◌∙◌, inl, inr,
  u64_max, &&_parts, none-ne-some,
}
use rork_hook.Outcome.{ok}
use rork_hook.Space.{Space, null, u32_at}
use rork_hook.Space.Reads.{IsReadable, can_read-ok, read_u32-ok, u64_at-lt}
use rork_hook.MachO.{lc_segment, sizeof_segment_command}
use rork_hook.MachO.Segment
use rork_hook.LoadCommands.{for_each_load_command_with_size, cmdsize_offset}
use rork_hook.LoadCommands.Table.{IsTable}
use rork_hook.LoadCommands.Fold.{fold_visit, fold_visit-stop, fold_visit-go, for_each-fold}
use rork_hook.Symbols.FileImage.{FileAddressContext, find_file_address_load_command}

-- The segment whose file bytes hold the address, at a place that a word can name.
abbrev pub in_bytes : (vmaddr vmsize fileoff filesize va : ℕ) → Bool
in_bytes vmaddr vmsize fileoff filesize va =
    leb vmaddr va
    && (ltb va (vmaddr + vmsize)
        && (ltb va (vmaddr + filesize) && leb (fileoff + (va - vmaddr)) u64_max))

abbrev pub holds_address : Space → (va c : ℕ) → Bool
holds_address m va c =
    (u32_at m c == lc_segment && leb sizeof_segment_command (u32_at m (c + cmdsize_offset)))
    && in_bytes (Segment.vmaddr m c) (Segment.vmsize m c) (Segment.fileoff m c)
        (Segment.filesize m c) va

-- The place in the file that the first such segment gives the address.
unfoldable pub file_offset_of : Space → (va : ℕ) → List ℕ → Option ℕ
file_offset_of m va [] = none
file_offset_of m va (c ∷ cs) =
    if holds_address m va c
    then some (Segment.fileoff m c + (va - Segment.vmaddr m c))
    else file_offset_of m va cs

abbrev address_step : Space → ℕ → FileAddressContext → Bool × FileAddressContext
address_step m c context =
    if holds_address m context.virtual_address c
    then (
      false,
      record context {
        file_offset = Segment.fileoff m c + (context.virtual_address - Segment.vmaddr m c);
        found = true;
      },
    )
    else (true, context)

abbrev pub start : (va : ℕ) → FileAddressContext
start va = record { virtual_address = va; file_offset = 0; found = false }

-- What the walk leaves for an address that was or was not translated.
abbrev pub translated : (va : ℕ) → Option ℕ → FileAddressContext
translated va none = start va
translated va (some offset) = record { virtual_address = va; file_offset = offset; found = true }

skip_test :
    (cmd size : ℕ)
    → (neb cmd lc_segment || ltb size sizeof_segment_command)
      ≡ (if cmd == lc_segment && leb sizeof_segment_command size then false else true)
skip_test cmd size = ground arith

segment_fits :
    (c cmd size : ℕ)
    → (cmd == lc_segment && leb sizeof_segment_command size) ≡ true
    → c + 72 ≤ c + size
segment_fits c cmd size h = ground arith

miss_test :
    (vmaddr vmsize fileoff filesize va : ℕ)
    → fileoff ≤ u64_max
    → (ltb va vmaddr
        || (leb vmsize (va - vmaddr)
            || (leb filesize (va - vmaddr) || ltb (u64_max - fileoff) (va - vmaddr))))
      ≡ not (in_bytes vmaddr vmsize fileoff filesize va)
miss_test vmaddr vmsize fileoff filesize va word = ground arith

in_bytes-word :
    (vmaddr vmsize fileoff filesize va : ℕ)
    → in_bytes vmaddr vmsize fileoff filesize va ≡ true
    → fileoff + (va - vmaddr) ≤ u64_max
in_bytes-word vmaddr vmsize fileoff filesize va e = ground arith

word_max : (a : ℕ) → a < 2 ^ 64 → a ≤ u64_max
word_max a h = omega arith

not_null : (p : ℕ) → p ≢ null → (p == null) ≡ false
not_null p ne = ground arith

module _ (m : Space) where
  find_file_address_load_command-step :
      (c index : ℕ) (context : FileAddressContext)
      → 8 ≤ u32_at m (c + cmdsize_offset)
      → IsReadable m c (u32_at m (c + cmdsize_offset))
      → c ≢ null
      → find_file_address_load_command m c index context ≡ ok (address_step m c context)
  unfolding find_file_address_load_command
  find_file_address_load_command-step c index context large r nonnull =
      let size = u32_at m (c + cmdsize_offset) in
      let segment = u32_at m c == lc_segment && leb sizeof_segment_command size in
      let holds =
        in_bytes (Segment.vmaddr m c) (Segment.vmsize m c) (Segment.fileoff m c)
          (Segment.filesize m c) context.virtual_address in
      rw
        (
          not_null c nonnull,
          read_u32-ok m c r (omega arith) (omega arith),
          read_u32-ok m (c + 4) r (omega arith) (omega arith),
          skip_test (u32_at m c) size,
        )
        (elim (Bool-cases segment) [
          | inr other ↦ rw other
          | inl is ↦
              rw
                (
                  is,
                  can_read-ok m c 72 r (omega arith) (segment_fits c (u32_at m c) size is),
                  miss_test (Segment.vmaddr m c) (Segment.vmsize m c) (Segment.fileoff m c)
                      (Segment.filesize m c) context.virtual_address
                      (word_max (Segment.fileoff m c) (u64_at-lt m _)),
                )
                (elim (Bool-cases holds) [ inl here ↦ rw here | inr outside ↦ rw outside ])
        ])

  fold-file_offset_of :
      (va : ℕ) (cs : List ℕ)
      → fold_visit (address_step m) cs (start va) ≡ translated va (file_offset_of m va cs)
  unfolding file_offset_of fold_visit
  fold-file_offset_of va [] = refl
  fold-file_offset_of va (c ∷ cs) = elim (Bool-cases (holds_address m va c)) [
    | inl here ↦ rw here (
        fold_visit-stop (address_step m) c cs (start va)
          (translated va (some (Segment.fileoff m c + (va - Segment.vmaddr m c)))) (rw here))
    | inr there ↦ rw there (
        fold_visit-go (address_step m) c cs (start va) (start va) (rw there)
        ∙ fold-file_offset_of va cs)
  ]

  -- On the table of a readable mapping the walk translates an address to its place in the first
  -- segment that holds it.
  pub for_each-translated :
      (header mapped va : ℕ) (cs : List ℕ)
      → IsReadable m header mapped
      → IsTable m header mapped cs
      → for_each_load_command_with_size
          (λ _. m)
          (find_file_address_load_command m)
          header
          mapped
          (start va)
        ≡ ok (translated va (file_offset_of m va cs))
  for_each-translated header mapped va cs r t =
      for_each-fold (address_step m) m (find_file_address_load_command m) header mapped cs
        (start va) r t find_file_address_load_command-step
      ∙ ap ok (fold-file_offset_of va cs)

  pub file_offset_of-word :
      (va : ℕ) (cs : List ℕ) (offset : ℕ) → file_offset_of m va cs ≡ some offset → offset ≤ u64_max
  unfolding file_offset_of
  file_offset_of-word va [] offset e = absurd (none-ne-some e)
  file_offset_of-word va (c ∷ cs) offset e = elim (Bool-cases (holds_address m va c)) [
    | inl here ↦
        subst (λ o. o ≤ u64_max) (some-injective _ _ (rw here at e))
          (in_bytes-word (Segment.vmaddr m c) (Segment.vmsize m c) (Segment.fileoff m c)
            (Segment.filesize m c) va (&&_parts _ _ here).1)
    | inr there ↦ file_offset_of-word va cs offset (rw there at e)
  ]
