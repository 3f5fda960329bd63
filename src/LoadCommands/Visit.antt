-- ===== src/LoadCommands/Visit.antt =====
-- `RorkHookForEachLoadCommandWithSize` against the list of commands of the table.
use mathlib.Core.Path.{subst, fun_ext}
use mathlib.Core.Bool.{false≢true}
use native.Mathlib.Nat.{add-zero}
use rork_hook.Base.{
  ℕ, zero, suc, ltb, ◌+◌, ◌^◌, ◌≤◌, ◌<◌, ◌≡◌, refl, sym, ap, List, [], ◌∷◌, arith, length, Bool,
  true, false, u32,
}
use rork_hook.Outcome.{Outcome, ok, ◌>>=◌}
use rork_hook.Outcome.Ensures.{Ensures, returns, bind}
use rork_hook.Space.{Space, u32_at}
use rork_hook.Space.Reads.{IsReadable, IsReadable-part, can_read-ok, read_u32-ok, u32_at-lt}
use rork_hook.LoadCommands.{
  visit_commands, for_each_load_command_with_size, Visitor, cmdsize_offset, ncmds_offset, u32_max,
}
use rork_hook.LoadCommands.Table.{
  IsCommand, Commands, IsTable, table_start, table_stop, Commands-length, visit_list,
}
use rork_hook.LoadCommands.Validate.{
  validate_load_commands_complete, validate_load_commands-IsTable,
}

stop_or {κ} :
    {S : Type 0} {Inv : S → Type κ} {stopped further : Outcome S} (go_on : Bool)
    → Ensures Inv stopped
    → Ensures Inv further
    → Ensures Inv (elim go_on [ false ↦ stopped | true ↦ further ])
stop_or true p q = q
stop_or false p q = p

-- The branch that a test takes.
pub taken {κ} :
    {S : Type 0} (P : Outcome S → Type κ) (test : Bool) (stopped further : Outcome S)
    → test ≡ true
    → P further
    → P (elim test [ false ↦ stopped | true ↦ further ])
taken P true stopped further e p = p
taken P false stopped further e p = absurd (false≢true e)

pub not_taken {κ} :
    {S : Type 0} (P : Outcome S → Type κ) (test : Bool) (stopped further : Outcome S)
    → test ≡ false
    → P stopped
    → P (elim test [ false ↦ stopped | true ↦ further ])
not_taken P false stopped further e p = p
not_taken P true stopped further e p = absurd (false≢true (sym e))

-- For a visitor that does not write to memory.
module _ {S : Type 0} (m : Space) (visitor : Visitor S) where
  abbrev continue : Outcome (Bool × S) → (S → Outcome S) → Outcome S
  continue o k = o >>= λ (go_on, s'). elim go_on [ false ↦ ok s' | true ↦ k s' ]

  visit_commands-visit_list :
      (header cb size : ℕ)
      → size < 2 ^ 32
      → IsReadable m cb size
      → IsReadable m (header + ncmds_offset) 4
      → (cs : List ℕ) (left index consumed : ℕ) (s : S)
      → index + length cs ≡ u32_at m (header + ncmds_offset)
      → length cs ≤ left
      → Commands m (cb + size) (cb + consumed) cs
      → visit_commands (λ _. m) visitor header cb left index consumed s
        ≡ visit_list visitor index cs s
  unfolding visit_commands visit_list
  visit_commands-visit_list header cb size word r count [] zero index consumed s counted room h =
      rw (can_read-ok m (header + 16) 4 count (omega arith) (omega arith)) refl
  visit_commands-visit_list header cb size word r count [] (suc left) index consumed s counted room
        h =
      let over : ltb index (u32_at m (header + 16)) ≡ false = ground arith in
      rw (read_u32-ok m (header + 16) count (omega arith) (omega arith)) (
        not_taken (λ o. o ≡ visit_list visitor index [] s) (ltb index (u32_at m (header + 16))) _ _
          over refl)
  visit_commands-visit_list header cb size word r count (c ∷ cs) zero index consumed s counted room
        h =
      absurd (omega (arith, room))
  visit_commands-visit_list header cb size word r count (c ∷ cs) (suc left) index consumed s counted
        room (at, is, rest) =
      let more : ltb index (u32_at m (header + 16)) ≡ true = ground arith in
      let round = read_u32-ok m (header + 16) count (omega arith) (omega arith) in
      let n = u32_at m (cb + consumed + cmdsize_offset) in
      let inside : cb + consumed + n ≤ cb + size = is.inside in
      let large : 8 ≤ n = is.large in
      let next : u32 (consumed + n) ≡ consumed + n = omega arith in
      let moved : cb + consumed + n ≡ cb + (consumed + n) = omega arith in
      let read = read_u32-ok m (cb + consumed + 4) r (omega arith) (omega arith) in
      rw (at, round)
        (taken (λ o. o ≡ visit_list visitor index ((cb + consumed) ∷ cs) s)
          (ltb index (u32_at m (header + 16))) _ _ more
          (ap (continue (visitor (cb + consumed) index s)) (
            fun_ext λ s'.
              rw (read, next)
                (visit_commands-visit_list header cb size word r count cs left (index + 1)
                  (consumed + n) s' (omega (arith, counted)) (omega (arith, room))
                  (subst (λ a. Commands m (cb + size) a cs) moved rest)))))

  -- On a readable mapping with a table, and for a visitor that leaves the memory as it is, the walk
  -- calls the visitor on every command in order with its index until the visitor stops, and does
  -- nothing else.
  pub for_each-visit_list :
      (header mapped : ℕ) (cs : List ℕ) (s : S)
      → IsReadable m header mapped
      → IsTable m header mapped cs
      → for_each_load_command_with_size (λ _. m) visitor header mapped s ≡ visit_list visitor 0 cs s
  unfolding for_each_load_command_with_size
  for_each-visit_list header mapped cs s r t =
      let start =
        subst (λ a. Commands m (table_stop m header) a cs) (sym (add-zero _)) t.commands in
      let sized = Commands-length m (table_stop m header) (table_start header) cs t.commands in
      rw (validate_load_commands_complete m header mapped r cs t) (
        visit_commands-visit_list header (table_start header) (u32_at m (header + 20))
          (u32_at-lt m _) (IsReadable-part _ _ r (omega arith) (omega (arith, t.fits)))
          (IsReadable-part _ _ r (omega arith) (omega (arith, t.fits))) cs u32_max 0 0 s
          (omega (arith, t.counted)) (omega (arith, t.counted, u32_at-lt m (header + 16))) start)

  visit_list-Ensures {κ} :
      {Inv : S → Type κ} (stop a : ℕ) (cs : List ℕ) (index : ℕ) (s : S)
      → ((c index : ℕ) (s : S)
          → IsCommand m stop c
          → a ≤ c
          → Inv s
          → Ensures (λ result. Inv result.1) (visitor c index s))
      → Commands m stop a cs
      → Inv s
      → Ensures Inv (visit_list visitor index cs s)
  unfolding visit_list
  visit_list-Ensures stop a [] index s keeps h holds = returns holds
  visit_list-Ensures stop a (c ∷ cs) index s keeps (at, is, rest) holds =
      bind (keeps c index s (rw at is) (omega arith) holds) λ (go_on, s') kept.
        stop_or go_on (returns kept) (
          visit_list-Ensures stop (a + u32_at m (a + cmdsize_offset)) cs (index + 1) s'
            (λ c i s' is' low holds'. keeps c i s' is' (omega arith) holds') rest kept)

  -- Whatever bytes a readable mapping holds: if the visitor, at a command that lies inside the
  -- mapping, reads nothing that is not readable and keeps an invariant, then the walk faults
  -- nowhere and the invariant holds in its final state.
  pub for_each-Ensures {κ} :
      {Inv : S → Type κ} (header mapped : ℕ) (s : S)
      → IsReadable m header mapped
      → ((stop c index : ℕ) (s : S)
          → IsCommand m stop c
          → header ≤ c
          → stop ≤ header + mapped
          → Inv s
          → Ensures (λ result. Inv result.1) (visitor c index s))
      → Inv s
      → Ensures Inv (for_each_load_command_with_size (λ _. m) visitor header mapped s)
  unfolding for_each_load_command_with_size
  for_each-Ensures header mapped s r keeps holds =
      bind (validate_load_commands-IsTable m header mapped r) λ cb (at, (cs, t)).
        let start =
          subst (λ a. Commands m (table_stop m header) a cs) (sym (add-zero _)) t.commands in
        let sized = Commands-length m (table_stop m header) (table_start header) cs t.commands in
        rw
          (
            at,
            visit_commands-visit_list header (table_start header) (u32_at m (header + 20))
                (u32_at-lt m _) (IsReadable-part _ _ r (omega arith) (omega (arith, t.fits)))
                (IsReadable-part _ _ r (omega arith) (omega (arith, t.fits))) cs u32_max 0 0 s
                (omega (arith, t.counted)) (omega (arith, t.counted, u32_at-lt m (header + 16)))
                start,
          )
          (visit_list-Ensures (table_stop m header) (table_start header) cs 0 s
            (λ c index s is low. keeps _ c index s is (omega arith) t.fits) t.commands holds)
