-- ===== src/Symbols/Locate.antt =====
-- `RorkHookFindSymtab` against the list of commands.
use rork_hook.Base.{
  ℕ, ◌+◌, ◌≤◌, ◌≡◌, ◌≢◌, refl, Bool, true, false, ◌&&◌, List, [], ◌∷◌, arith, leb, ◌==◌,
  if◌then◌else◌, Bool-cases, inl, inr, ap,
}
use rork_hook.Outcome.{Outcome, ok, rejected, fault}
use rork_hook.Outcome.Ensures.{Ensures, returns, rejects}
use rork_hook.Space.{Space, null, u32_at}
use rork_hook.Space.Reads.{IsReadable, IsReadable-part, read_u32-ok}
use rork_hook.CString.Padded.{padded, strncmp_equal-padded}
use rork_hook.MachO.{lc_segment, lc_symtab}
use rork_hook.MachO.Segment
use rork_hook.LoadCommands.{cmdsize_offset}
use rork_hook.LoadCommands.Table.{IsTable}
use rork_hook.LoadCommands.Visit.{for_each-Ensures}
use rork_hook.LoadCommands.Fold.{fold_visit, for_each-fold}
use rork_hook.Symbols.{FindSymtabContext, find_symtab_load_command, find_symtab, seg_linkedit}

-- The command is a symbol table.
abbrev pub is_symtab : Space → ℕ → Bool
is_symtab m c = u32_at m c == lc_symtab && leb 24 (u32_at m (c + cmdsize_offset))

-- The command is the segment of the link-edit tables.
abbrev pub is_linkedit : Space → ℕ → Bool
is_linkedit m c =
    (u32_at m c == lc_segment && leb 72 (u32_at m (c + cmdsize_offset)))
    && padded m (Segment.segname c) seg_linkedit 16

-- The last address of the list that passes the test, null if none does.
unfoldable pub last_such : (ℕ → Bool) → ℕ → List ℕ → ℕ
last_such test found [] = found
last_such test found (c ∷ cs) = last_such test (if test c then c else found) cs

abbrev symtab_step : Space → ℕ → FindSymtabContext → Bool × FindSymtabContext
symtab_step m c context = (
  true,
  record {
    symtab = if is_symtab m c then c else context.symtab;
    linkedit = if is_linkedit m c then c else context.linkedit;
  },
)

is_symtab-size :
    (c cmd size : ℕ) → (cmd == lc_symtab && leb 24 size) ≡ true → (cmd == lc_segment) ≡ false
is_symtab-size c cmd size e = ground arith

segment_holds_name :
    (c cmd size : ℕ) → (cmd == lc_segment && leb 72 size) ≡ true → c + 8 + 16 ≤ c + size
segment_holds_name c cmd size e = ground arith

module _ (m : Space) where
  find_symtab_load_command-step :
      (c index : ℕ) (context : FindSymtabContext)
      → 8 ≤ u32_at m (c + cmdsize_offset)
      → IsReadable m c (u32_at m (c + cmdsize_offset))
      → c ≢ null
      → find_symtab_load_command m c index context ≡ ok (symtab_step m c context)
  unfolding find_symtab_load_command
  find_symtab_load_command-step c index context large r nonnull =
      let cmd = u32_at m c in
      let size = u32_at m (c + cmdsize_offset) in
      let given : (c == null) ≡ false = ground arith in
      rw
        (
          given,
          read_u32-ok m c r (omega arith) (omega arith),
          read_u32-ok m (c + 4) r (omega arith) (omega arith),
        )
        (elim (Bool-cases (is_symtab m c)) [
          | inl table ↦ rw (table, is_symtab-size c cmd size table) refl
          | inr no_table ↦ elim (Bool-cases (cmd == lc_segment && leb 72 size)) [
            | inr other ↦ rw (no_table, other) refl
            | inl segment ↦
                rw
                  (
                    no_table,
                    segment,
                    strncmp_equal-padded m (c + 8) seg_linkedit 16 (
                        IsReadable-part _ _ r (omega arith)
                          (segment_holds_name c cmd size segment)),
                  )
                  (elim (Bool-cases (padded m (c + 8) seg_linkedit 16)) [
                    | inl named ↦ rw named refl
                    | inr unnamed ↦ rw unnamed refl
                  ])
          ]
        ])

  fold-last_such :
      (cs : List ℕ) (context : FindSymtabContext)
      → fold_visit (symtab_step m) cs context ≡ record {
        symtab = last_such (is_symtab m) context.symtab cs;
        linkedit = last_such (is_linkedit m) context.linkedit cs;
      }
  unfolding fold_visit last_such
  fold-last_such [] context = refl
  fold-last_such (c ∷ cs) context = fold-last_such cs (symtab_step m c context).1

  -- In a readable mapping with a table the last symbol-table command and the last __LINKEDIT
  -- segment are found, each null if there is none.
  pub find_symtab-last_such :
      (header mapped : ℕ) (cs : List ℕ)
      → IsReadable m header mapped
      → IsTable m header mapped cs
      → find_symtab m header mapped
        ≡ ok (record {
          symtab = last_such (is_symtab m) null cs;
          linkedit = last_such (is_linkedit m) null cs;
        })
  unfolding find_symtab
  find_symtab-last_such header mapped cs r t =
      rw
        (
          find_symtab,
          for_each-fold (symtab_step m) m (find_symtab_load_command m) header mapped cs _ r t
              find_symtab_load_command-step,
        )
        (ap ok (fold-last_such cs (record { symtab = null; linkedit = null })))

  -- A pointer that was found can be read to the end of its record.
  pub record IsFound (context : FindSymtabContext) : Type 0 where
    pub symtab_reads : context.symtab ≢ null → IsReadable m context.symtab 24
    pub linkedit_reads : context.linkedit ≢ null → IsReadable m context.linkedit 72

  chosen_reads :
      (n c found size : ℕ) (test : Bool)
      → IsReadable m c size
      → (test ≡ true → n ≤ size)
      → (found ≢ null → IsReadable m found n)
      → (let next = if test then c else found in next ≢ null → IsReadable m next n)
  chosen_reads n c found size true r fits reads =
      λ _. IsReadable-part _ _ r (omega arith) (omega (arith, fits refl))
  chosen_reads n c found size false r fits reads = reads

  symtab_fits : (c : ℕ) → is_symtab m c ≡ true → 24 ≤ u32_at m (c + cmdsize_offset)
  symtab_fits c e = ground arith

  linkedit_fits : (c : ℕ) → is_linkedit m c ≡ true → 72 ≤ u32_at m (c + cmdsize_offset)
  linkedit_fits c e = ground arith

  symtab_step-IsFound :
      (c index : ℕ) (context : FindSymtabContext)
      → 8 ≤ u32_at m (c + cmdsize_offset)
      → IsReadable m c (u32_at m (c + cmdsize_offset))
      → IsFound context
      → Ensures (λ result. IsFound result.1) (find_symtab_load_command m c index context)
  unfolding find_symtab_load_command
  symtab_step-IsFound c index context large r found = elim (Bool-cases (c == null)) [
    | inl no_command ↦ rw (no_command, find_symtab_load_command) (returns found)
    | inr given ↦ rw (find_symtab_load_command-step c index context large r (ground arith)) (
        returns (record {
          symtab_reads =
              chosen_reads 24 c context.symtab _ (is_symtab m c) r (symtab_fits c)
                found.symtab_reads;
          linkedit_reads =
              chosen_reads 72 c context.linkedit _ (is_linkedit m c) r (linkedit_fits c)
                found.linkedit_reads;
        }))
  ]

  none-IsFound : IsFound (record { symtab = null; linkedit = null })
  none-IsFound = record {
    symtab_reads = λ ne. absurd (ne refl);
    linkedit_reads = λ ne. absurd (ne refl);
  }

  or_none-IsFound :
      (o : Outcome FindSymtabContext)
      → Ensures IsFound o
      → Ensures IsFound (elim o [
        | ok context ↦ ok context
        | rejected ↦ ok (record { symtab = null; linkedit = null })
        | fault ↦ fault
      ])
  or_none-IsFound _ (returns p) = returns p
  or_none-IsFound _ rejects = returns none-IsFound

  -- On any bytes the commands that are found can be read, and nothing outside the mapping is.
  pub find_symtab-IsFound :
      (header mapped : ℕ)
      → IsReadable m header mapped
      → Ensures IsFound (find_symtab m header mapped)
  unfolding find_symtab
  find_symtab-IsFound header mapped r = or_none-IsFound _ (
      for_each-Ensures m (find_symtab_load_command m) header mapped _ r
        (λ stop c index context is low last found.
          symtab_step-IsFound c index context is.large
            (IsReadable-part _ _ r low (omega (arith, is.inside))) found)
        none-IsFound)
