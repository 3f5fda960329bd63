-- ===== src/LoadCommands/Changing.antt =====
-- `RorkHookForEachLoadCommandWithSize` with a visitor that changes memory outside the header and its commands.
use mathlib.Core.Path.{subst}
use native.Mathlib.Nat.{add-zero}
use rork_hook.Base.{
  ℕ, zero, suc, ltb, ◌+◌, ◌^◌, ◌≤◌, ◌<◌, ◌≡◌, sym, List, [], ◌∷◌, arith, length, Bool, true, false,
  u32,
}
use rork_hook.Outcome.{Outcome}
use rork_hook.Outcome.Ensures.{Ensures, returns, bind}
use rork_hook.Space.{Space, byte_at, u32_at}
use rork_hook.Space.Reads.{IsReadable, can_read-ok, read_u32-ok, u32_at-lt, u32_at-same}
use rork_hook.LoadCommands.{
  visit_commands, for_each_load_command_with_size, Visitor, cmdsize_offset, ncmds_offset,
  sizeof_header, u32_max,
}
use rork_hook.LoadCommands.Table.{IsCommand, Commands, table_start, table_stop, Commands-length}
use rork_hook.LoadCommands.Visit.{taken, not_taken}
use rork_hook.LoadCommands.Validate.{validate_load_commands-IsTable}

-- The `n` bytes at `a` are readable and those of `m`.
pub record IsIntact (m m' : Space) (a n : ℕ) : Type 0 where
  pub readable : IsReadable m' a n
  pub same : (x : ℕ) → a ≤ x → x < a + n → byte_at m' x ≡ byte_at m x

pub IsIntact-u32_at :
    {m m' : Space} {a n : ℕ} (b : ℕ)
    → IsIntact m m' a n
    → a ≤ b
    → b + 4 ≤ a + n
    → u32_at m' b ≡ u32_at m b
IsIntact-u32_at {m} {m'} b intact low high =
    u32_at-same m m' b λ x from to. intact.same x (omega arith) (omega arith)

stop_or {κ} :
    {S : Type 0} {Inv : S → Type κ} {stopped further : Outcome S} (go_on : Bool)
    → Ensures Inv stopped
    → Ensures Inv further
    → Ensures Inv (elim go_on [ false ↦ stopped | true ↦ further ])
stop_or true p q = q
stop_or false p q = p

module _ {S : Type 0} (memory : S → Space) (visitor : Visitor S) (m : Space) (header size : ℕ)
    (Inv : S → Type 0)
    (intact : (s : S) → Inv s → IsIntact m (memory s) header (sizeof_header + size)) where
  visit_commands-Ensures :
      (cs : List ℕ) (left index consumed : ℕ) (s : S)
      → size < 2 ^ 32
      → index + length cs ≡ u32_at m (header + ncmds_offset)
      → length cs ≤ left
      → ((c index : ℕ) (s : S)
          → IsCommand m (table_start header + size) c
          → table_start header ≤ c
          → Inv s
          → Ensures (λ result. Inv result.1) (visitor c index s))
      → Commands m (table_start header + size) (table_start header + consumed) cs
      → Inv s
      → Ensures Inv
          (visit_commands memory visitor header (table_start header) left index consumed s)
  unfolding visit_commands
  visit_commands-Ensures [] zero index consumed s word counted room keeps h holds =
      let now = intact s holds in
      rw (can_read-ok (memory s) (header + 16) 4 now.readable (omega arith) (omega arith))
        (returns holds)
  visit_commands-Ensures [] (suc left) index consumed s word counted room keeps h holds =
      let over : ltb index (u32_at m (header + 16)) ≡ false = ground arith in
      let now = intact s holds in
      rw
        (
          read_u32-ok (memory s) (header + 16) now.readable (omega arith) (omega arith),
          IsIntact-u32_at (header + 16) now (omega arith) (omega arith),
        )
        (not_taken (Ensures Inv) (ltb index (u32_at m (header + 16))) _ _ over (returns holds))
  visit_commands-Ensures (c ∷ cs) zero index consumed s word counted room keeps h holds =
      absurd (omega (arith, room))
  visit_commands-Ensures (c ∷ cs) (suc left) index consumed s word counted room keeps (at, is, rest)
        holds =
      let more : ltb index (u32_at m (header + 16)) ≡ true = ground arith in
      let now = intact s holds in
      let n = u32_at m (table_start header + consumed + cmdsize_offset) in
      let inside : table_start header + consumed + n ≤ table_start header + size = is.inside in
      let large : 8 ≤ n = is.large in
      let next : u32 (consumed + n) ≡ consumed + n = omega arith in
      let moved : table_start header + consumed + n ≡ table_start header + (consumed + n) =
        omega arith in
      rw
        (
          read_u32-ok (memory s) (header + 16) now.readable (omega arith) (omega arith),
          IsIntact-u32_at (header + 16) now (omega arith) (omega arith),
        )
        (taken (Ensures Inv) (ltb index (u32_at m (header + 16))) _ _ more (
          bind (keeps (table_start header + consumed) index s is (omega arith) holds)
            λ (go_on, s') kept.
              let here = intact s' kept in
              stop_or go_on (returns kept) (
                rw
                  (
                    read_u32-ok (memory s') (table_start header + consumed + 4) here.readable
                        (omega arith) (omega arith),
                    IsIntact-u32_at (table_start header + consumed + 4) here (omega arith)
                        (omega arith),
                    next,
                  )
                  (visit_commands-Ensures cs left (index + 1) (consumed + n) s' word
                    (omega (arith, counted)) (omega (arith, room)) keeps
                    (subst (λ a. Commands m (table_start header + size) a cs) moved rest) kept))))

-- Whatever bytes a readable mapping holds: if the visitor, at a command of the table, keeps an
-- invariant by which the header and its commands stay readable and as they were, then the walk faults nowhere and the
-- invariant holds in its final state.
pub for_each-Ensures_changing :
    {S : Type 0} (memory : S → Space) (visitor : Visitor S) (header mapped : ℕ) (s : S)
    (Inv : S → Type 0)
    → IsReadable (memory s) header mapped
    → ((t : S)
        → Inv t
        → table_stop (memory s) header ≤ header + mapped
        → IsIntact (memory s) (memory t) header (sizeof_header + u32_at (memory s) (header + 20)))
    → ((c index : ℕ) (t : S)
        → table_stop (memory s) header ≤ header + mapped
        → IsCommand (memory s) (table_stop (memory s) header) c
        → table_start header ≤ c
        → Inv t
        → Ensures (λ result. Inv result.1) (visitor c index t))
    → Inv s
    → Ensures Inv (for_each_load_command_with_size memory visitor header mapped s)
unfolding for_each_load_command_with_size
for_each-Ensures_changing memory visitor header mapped s Inv r intact keeps holds =
    let m = memory s in
    bind (validate_load_commands-IsTable m header mapped r) λ cb (at, (cs, t)).
      let start =
        subst (λ a. Commands m (table_stop m header) a cs) (sym (add-zero _)) t.commands in
      let sized = Commands-length m (table_stop m header) (table_start header) cs t.commands in
      let fits : table_stop m header ≤ header + mapped = t.fits in
      rw at (
        visit_commands-Ensures memory visitor m header (u32_at m (header + 20)) Inv
          (λ t held. intact t held fits) cs u32_max 0 0 s (u32_at-lt m _) (omega (arith, t.counted))
          (omega (arith, t.counted, u32_at-lt m (header + 16)))
          (λ c index t is low held. keeps c index t fits is low held) start holds)
