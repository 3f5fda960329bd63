-- ===== src/LoadCommands/Validate.antt =====
-- `RorkHookValidateLoadCommands` against the valid tables.
use mathlib.Core.Path.{subst}
use native.Mathlib.Nat.{add-zero}
use rork_hook.Base.{
  ℕ, zero, suc, ◌+◌, ◌-◌, ◌/◌, ◌%◌, ◌^◌, ◌≤◌, ◌<◌, ◌≡◌, ◌≢◌, refl, sym, ap, List, [], ◌∷◌, arith,
  length, Bool, true, not, ◌&&◌, leb, ◌==◌, ==_iff, leb→le, le→leb, u32,
}
use rork_hook.Outcome.{ok}
use rork_hook.Outcome.Ensures.{Ensures, returns, require-then, bind, mono}
use rork_hook.Space.{Space, null, u32_at}
use rork_hook.Space.Reads.{IsReadable, IsReadable-part, can_read-ok, read_u32-ok, u32_at-lt}
use rork_hook.LoadCommands.{
  check_commands, validate_load_commands, sizeof_header, mh_magic, cmdsize_offset,
}
use rork_hook.LoadCommands.Table.{Commands, IsTable, table_start, table_stop, Commands-length}

-- The test of `cmdsize`.
abbrev legal_size : ℕ → ℕ → Bool
legal_size n remaining = leb 8 n && (n % 8 == 0 && leb n remaining)

legal_parts :
    (n remaining : ℕ) → legal_size n remaining ≡ true → (8 ≤ n) × (n % 8 ≡ 0) × (n ≤ remaining)
legal_parts n remaining h = ground arith

legal_of : (n remaining : ℕ) → 8 ≤ n → n % 8 ≡ 0 → n ≤ remaining → legal_size n remaining ≡ true
legal_of n remaining h k l = ground arith

sized_parts :
    (header mapped : ℕ)
    → (not (header == null) && (true && leb sizeof_header mapped)) ≡ true
    → (header ≢ null) × (32 ≤ mapped)
sized_parts header mapped h = ground arith

sized_of :
    (header mapped : ℕ)
    → header ≢ null
    → 32 ≤ mapped
    → (not (header == null) && (true && leb sizeof_header mapped)) ≡ true
sized_of header mapped ne h = ground arith

module _ (m : Space) (cb size : ℕ) (word : size < 2 ^ 32) (r : IsReadable m cb size) where
  -- What an accepted tail of the table is.
  abbrev Tail : (left consumed final : ℕ) → Type 0
  Tail left consumed final =
      final ≡ size → (cs : List ℕ) × (length cs ≡ left) × Commands m (cb + size) (cb + consumed) cs

  abbrev size_at : ℕ → ℕ
  size_at consumed = u32_at m (cb + consumed + cmdsize_offset)

  Tail-suc :
      (left consumed final : ℕ)
      → legal_size (size_at consumed) (size - consumed) ≡ true
      → Tail left (u32 (consumed + size_at consumed)) final
      → Tail (suc left) consumed final
  Tail-suc left consumed final legal tail e =
      let (large, aligned, inside) = legal_parts (size_at consumed) (size - consumed) legal in
      let (cs, counted, commands) = tail e in
      let next : cb + u32 (consumed + size_at consumed) ≡ cb + consumed + size_at consumed =
        omega arith in
      (
        (cb + consumed) ∷ cs,
        omega arith,
        (
          refl,
          record { large = large; aligned = aligned; inside = omega arith },
          subst (λ a. Commands m (cb + size) a cs) next commands,
        ),
      )

  check_commands-Tail :
      (left consumed : ℕ) → Ensures (Tail left consumed) (check_commands m cb size left consumed)
  unfolding check_commands
  check_commands-Tail zero consumed = returns (λ e. ([], refl, omega arith))
  check_commands-Tail (suc left) consumed = require-then (leb consumed size) λ within.
      require-then (leb 8 (size - consumed)) λ room.
        rw (can_read-ok m (cb + consumed) 8 r (omega arith) (omega (arith, leb→le _ _ room))) (
          require-then (legal_size (u32_at m (cb + consumed + 4)) (size - consumed)) λ legal.
            mono (check_commands-Tail left (u32 (consumed + u32_at m (cb + consumed + 4))))
              λ final tail. Tail-suc left consumed final legal tail)

  -- A valid tail is accepted, and all of it is consumed.
  check_commands_complete :
      (consumed : ℕ) (cs : List ℕ)
      → Commands m (cb + size) (cb + consumed) cs
      → check_commands m cb size (length cs) consumed ≡ ok size
  unfolding check_commands
  check_commands_complete consumed [] done = ap ok (omega arith)
  check_commands_complete consumed (c ∷ cs) (at, is, rest) =
      let n = size_at consumed in
      let inside : cb + consumed + n ≤ cb + size = is.inside in
      let large : 8 ≤ n = is.large in
      let next : u32 (consumed + n) ≡ consumed + n = omega arith in
      let moved : cb + consumed + n ≡ cb + (consumed + n) = omega arith in
      rw
        (
          le→leb consumed size (omega arith),
          le→leb 8 (size - consumed) (omega arith),
          can_read-ok m (cb + consumed) 8 r (omega arith) (omega arith),
          legal_of n (size - consumed) large is.aligned (omega arith),
          next,
        )
        (check_commands_complete (consumed + n) cs
          (subst (λ a. Commands m (cb + size) a cs) moved rest))

module _ (m : Space) (header mapped : ℕ) (r : IsReadable m header mapped) where
  -- Whatever bytes a readable mapping holds, the validation reads nothing outside it; and what it
  -- accepts is a table: the commands that the header counts lie back to back, aligned, and fill
  -- exactly the bytes that the header gives them.
  pub validate_load_commands-IsTable :
      Ensures
        (λ cb. (cb ≡ table_start header) × ((cs : List ℕ) × IsTable m header mapped cs))
        (validate_load_commands m header mapped true)
  unfolding validate_load_commands
  validate_load_commands-IsTable =
      require-then (not (header == null) && (true && leb sizeof_header mapped)) λ sized.
        let (nonnull, room) = sized_parts header mapped sized in
        rw (read_u32-ok m header r (omega arith) (omega arith)) (
          require-then (u32_at m header == mh_magic) λ magic.
            rw (read_u32-ok m (header + 20) r (omega arith) (omega arith)) (
              require-then (leb (u32_at m (header + 20)) (mapped - 32)) λ fits.
                rw (read_u32-ok m (header + 16) r (omega arith) (omega arith)) (
                  require-then (leb (u32_at m (header + 16)) (u32_at m (header + 20) / 8)) λ few.
                    bind
                      (check_commands-Tail m (table_start header) (u32_at m (header + 20))
                        (u32_at-lt m _)
                        (IsReadable-part _ _ r (omega arith) (omega (arith, leb→le _ _ fits)))
                        (u32_at m (header + 16)) 0)
                      λ consumed tail. require-then (consumed == u32_at m (header + 20)) λ whole.
                        let (cs, counted, commands) = tail ((==_iff _ _).0 whole) in
                        returns (
                          refl,
                          (
                            cs,
                            record {
                              nonnull = nonnull;
                              magic = (==_iff _ _).0 magic;
                              fits = omega (arith, leb→le _ _ fits);
                              counted = counted;
                              commands =
                                  subst (λ a. Commands m (table_stop m header) a cs) (add-zero _)
                                    commands;
                            },
                          ),
                        ))))

  -- Every readable mapping that holds a table of load commands is accepted, and the table starts
  -- behind the header.
  pub validate_load_commands_complete :
      (cs : List ℕ)
      → IsTable m header mapped cs
      → validate_load_commands m header mapped true ≡ ok (table_start header)
  unfolding validate_load_commands
  validate_load_commands_complete cs t =
      let room = Commands-length m (table_stop m header) (table_start header) cs t.commands in
      let start =
        subst (λ a. Commands m (table_stop m header) a cs) (sym (add-zero _)) t.commands in
      rw
        (
          sized_of header mapped t.nonnull (omega (arith, t.fits)),
          read_u32-ok m header r (omega arith) (omega (arith, t.fits)),
          (==_iff _ _).1 t.magic,
          read_u32-ok m (header + 20) r (omega arith) (omega (arith, t.fits)),
          le→leb (u32_at m (header + 20)) (mapped - 32) (omega (arith, t.fits)),
          read_u32-ok m (header + 16) r (omega arith) (omega (arith, t.fits)),
          ← t.counted,
          le→leb (length cs) (u32_at m (header + 20) / 8) (omega arith),
          check_commands_complete m (table_start header) (u32_at m (header + 20)) (u32_at-lt m _)
              (IsReadable-part _ _ r (omega arith) (omega (arith, t.fits))) 0 cs start,
          (==_iff (u32_at m (header + 20)) (u32_at m (header + 20))).1 refl,
        )
        refl
