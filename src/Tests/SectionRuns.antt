-- ===== src/Tests/SectionRuns.antt =====
-- Runs of the rebind of one section.
use rork_hook.Base.{◌/◌, refl, arith}
use rork_hook.Outcome.Ensures.{Ensures}
use rork_hook.Space.{readable, readable_range, byte_at}
use rork_hook.Space.Reads.{IsReadable, IsReadable-of_range}
use rork_hook.Space.Write.{bytes_at}
use rork_hook.Region.{memory_is_readable, readable_memory_length, query_region}
use rork_hook.Pointer.{Process}
use rork_hook.Rebind.{RebindImageContext, rebind_section}
use rork_hook.Rebind.Fates.{IsSwept}
use rork_hook.Rebind.Fates.Section.{IsUsable, segname_at, sectname_at, rebind_section-IsSwept}
use rork_hook.Tests.RebindRuns.{
  pointer_space, host, before, host-IsHost, host-IsLoaded, host-IsStorable,
}

abbrev context : RebindImageContext
context = record { header = 0x1000; replacee_raw = 0x7004; replacement = 0x7010 }

record_reads : IsReadable pointer_space 0x1068 80
unfolding readable_range readable
record_reads = IsReadable-of_range pointer_space 0x1068 80 refl

got-IsUsable :
    IsUsable host 0x1000 before (segname_at pointer_space 0x1068) (sectname_at pointer_space 0x1068)
unfolding bytes_at byte_at memory_is_readable readable_memory_length query_region
got-IsUsable = record { nonnull = λ e. omega (arith, e); whole = refl; reported = refl }

rebind_section-IsSwept_example :
    Ensures
      (λ (s' : Process).
        let (slots, size) =
          host.getsectiondata 0x1000
            (segname_at pointer_space 0x1068)
            (sectname_at pointer_space 0x1068) in
        IsSwept host context (sectname_at pointer_space 0x1068) slots before 0 (size / 8) before s')
      (rebind_section host context before 0x1068)
rebind_section-IsSwept_example =
    rebind_section-IsSwept host host-IsHost context host-IsLoaded before host-IsStorable 0x1068
      (λ e. omega (arith, e)) record_reads got-IsUsable
