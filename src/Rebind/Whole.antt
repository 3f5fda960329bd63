-- ===== src/Rebind/Whole.antt =====
-- `RorkHookRebindSymbolInImage`.
use mathlib.Core.Path.{subst}
use rork_hook.Base.{
  ℕ, ◌+◌, ◌-◌, ◌*◌, ◌%◌, ◌≤◌, ◌≡◌, refl, arith, Bool, ◌⊎◌, inl, inr, List, ◌||◌, by_test, ◌==◌, neb,
  ltb, u64_max,
}
use rork_hook.Outcome.{Outcome}
use rork_hook.Outcome.Ensures.{Ensures, returns, rejects, bind}
use rork_hook.Space.{Space, null, byte_at, u32_at}
use rork_hook.Space.Reads.{IsReadable, IsReadable-part, can_read-ok, read_u32-ok}
use rork_hook.Platform.{strip_pointer}
use rork_hook.Region.{readable_memory_length}
use rork_hook.Region.Readable.{readable_memory_length-IsReadable}
use rork_hook.MachO.{lc_segment}
use rork_hook.MachO.Segment
use rork_hook.LoadCommands.{for_each_load_command, sizeof_header}
use rork_hook.LoadCommands.Table.{IsCommand, table_start, table_stop}
use rork_hook.LoadCommands.Changing.{IsIntact, IsIntact-u32_at, for_each-Ensures_changing}
use rork_hook.Pointer.{Process}
use rork_hook.Rebind.{
  Host, RebindImageContext, rebind_image_load_command, visited, rebind_symbol_in_image,
}
use rork_hook.Rebind.Slots.{IsHost, IsLoaded, IsStorable, IsSlotOf, IsRebinding}
use rork_hook.Rebind.Sections.{IsReadable-still, rebind_sections-Ensures}

-- No slot lies in the header or in its load commands.
pub record IsApart (x : Host) (m : Space) (header : ℕ) : Type 0 where
  pub apart :
      (segname sectname : List ℕ) (a : ℕ)
      → IsSlotOf x header segname sectname a
      → (a + 8 ≤ header) ⊎ (table_stop m header ≤ a)

pub IsRebinding-refl :
    (x : Host) (context : RebindImageContext) (s : Process) → IsRebinding x context s s
IsRebinding-refl x context s = record {
  window = refl;
  still = λ y seen. seen;
  slots = λ a aligned. inl (λ i h. refl);
}

module _ (x : Host) (host : IsHost x) (context : RebindImageContext)
    (loaded : IsLoaded x context.header) (s0 : Process)
    (storable : IsStorable x context.header s0.space)
    (apart : IsApart x s0.space context.header) where
  abbrev header : ℕ
  header = context.header

  abbrev table_size : ℕ
  table_size = u32_at s0.space (header + 20)

  -- The header and the table stay as they were.
  table-IsIntact :
      (s : Process)
      → IsReadable s0.space header (sizeof_header + table_size)
      → IsRebinding x context s0 s
      → IsIntact s0.space s.space header (sizeof_header + table_size)
  table-IsIntact s reads held = record {
    readable = IsReadable-still held.still reads;
    same = λ y low high.
        let a = y - y % 8 in
        let aligned : a % 8 ≡ 0 = omega arith in
        let back : a + y % 8 ≡ y = omega arith in
        elim (held.slots a aligned) [
          | inl kept ↦
              subst (λ z. byte_at s.space z ≡ byte_at s0.space z) back (kept (y % 8) (omega arith))
          | inr r ↦ elim (apart.apart r.segname r.sectname a r.in_section) [
            | inl below ↦ absurd (omega (arith, below, low, back))
            | inr over ↦ absurd (omega (arith, over, high, back))
          ]
        ];
  }

  rebind_image_load_command-Ensures :
      (mapped c index : ℕ) (s : Process)
      → IsReadable s0.space header mapped
      → table_stop s0.space header ≤ header + mapped
      → IsCommand s0.space (table_stop s0.space header) c
      → table_start header ≤ c
      → IsRebinding x context s0 s
      → Ensures
          (λ result. IsRebinding x context s0 result.1)
          (rebind_image_load_command x context c index s)
  unfolding rebind_image_load_command
  rebind_image_load_command-Ensures mapped c index s reads fits is low before =
      let n = u32_at s0.space (c + 4) in
      let inside : c + n ≤ header + 32 + table_size = is.inside in
      let large : 8 ≤ n = is.large in
      let table =
        IsReadable-part header (sizeof_header + table_size) reads (omega arith) (omega arith) in
      let here = table-IsIntact s table before in
      let Done : Outcome (Bool × Process) → Type 0 =
        Ensures (λ result. IsRebinding x context s0 result.1) in
      by_test Done (c == null) (λ _. returns before)
        (λ _.
          rw
            (
              read_u32-ok s.space c here.readable (omega arith) (omega arith),
              read_u32-ok s.space (c + 4) here.readable (omega arith) (omega arith),
              IsIntact-u32_at (c + 4) here (omega arith) (omega arith),
            )
            (by_test Done (neb (u32_at s.space c) lc_segment || ltb n 72) (λ _. returns before)
              (λ segment.
                let room : 72 ≤ n = ground arith in
                rw (can_read-ok s.space c 72 here.readable (omega arith) (omega arith)) (
                  let count = Segment.nsects s.space c in
                  by_test Done
                    (ltb u64_max (count * 80)
                      || (ltb u64_max (72 + count * 80) || ltb n (72 + count * 80)))
                    (λ _. returns before)
                    (λ bounded.
                      let short : 72 + count * 80 ≤ n = ground arith in
                      bind
                        (rebind_sections-Ensures x host context loaded s0 storable count (c + 72) s
                          (IsReadable-part (c + 72) (count * 80) table (omega arith) (omega arith))
                          before)
                        λ s' after. returns after)))))

visited-Ensures {κ} :
    {P : Process → Type κ} (s : Process) {o : Outcome Process}
    → P s
    → Ensures P o
    → Ensures P (visited s o)
visited-Ensures s held (returns p) = returns p
visited-Ensures s held rejects = returns held

pub rebind_symbol_in_image-IsRebinding :
    (x : Host) (s : Process) (header replacee replacement : ℕ)
    → IsHost x
    → IsLoaded x header
    → IsStorable x header s.space
    → IsApart x s.space header
    → Ensures
        (IsRebinding x
          (record {
            header = header;
            replacee_raw = strip_pointer x.platform replacee;
            replacement = replacement;
          })
          s)
        (rebind_symbol_in_image x s header replacee replacement)
unfolding rebind_symbol_in_image for_each_load_command
rebind_symbol_in_image-IsRebinding x s header replacee replacement host loaded storable apart =
    let context : RebindImageContext = record {
      header = header;
      replacee_raw = strip_pointer x.platform replacee;
      replacement = replacement;
    } in
    let mapped = readable_memory_length x.platform s.space header in
    let reads = readable_memory_length-IsReadable x.platform host.truthful s.space header in
    by_test (Ensures (IsRebinding x context s))
      (header == null || (replacee == null || replacement == null))
      (λ _. returns (IsRebinding-refl x context s))
      (λ _. visited-Ensures s (IsRebinding-refl x context s) (
        for_each-Ensures_changing (λ (t : Process). t.space) (rebind_image_load_command x context)
          header mapped s (IsRebinding x context s) reads
          (λ t held fits.
            table-IsIntact x host context loaded s storable apart t
              (IsReadable-part header (sizeof_header + u32_at s.space (header + 20)) reads
                (omega arith) (omega (arith, fits)))
              held)
          (λ c index t fits is low held.
            rebind_image_load_command-Ensures x host context loaded s storable apart mapped c index
              t reads fits is low held)
          (IsRebinding-refl x context s)))
