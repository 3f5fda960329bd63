-- ===== src/Tests/RebindRuns.antt =====
-- Rebinding runs on an image with one section of two pointer slots.
use rork_hook.Base.{
  ℕ, ◌+◌, ◌-◌, ◌%◌, ◌^◌, ◌≤◌, ◌<◌, ◌≡◌, ◌≢◌, refl, arith, true, false, Option, none, some, List,
  ◌⊎◌, inr, leb, ltb, ◌&&◌, if◌then◌else◌, by_test, bit_and, not64,
}
use rork_hook.Base.Bits.{bit_and_mask}
use rork_hook.Base.Bits.Complement.{bit_and_complement}
use rork_hook.Base.Texts.{codes, same_text}
use rork_hook.Outcome.{Outcome, ok, rejected, fault}
use rork_hook.Outcome.Ensures.{Ensures}
use rork_hook.Space.{
  Space, has, vm_prot_read, readable, readable_range, can_read, read_u32, read_u64, u16_at, u32_at,
  u64_at, byte_at,
}
use rork_hook.Platform.{strip_pointer}
use rork_hook.Space.Write.{write_bytes, writable, bytes_at}
use rork_hook.Region.{memory_is_readable, readable_memory_length, query_region, memory_protection}
use rork_hook.Region.Granular.{IsGranular}
use rork_hook.Pointer.{
  Process, store_protected_pointer, store_transaction, pages_of, restore_pointer_page_protections,
  permitted, little_endian,
}
use rork_hook.Memory.{protect_memory}
use rork_hook.Tpro.{
  supports_tpro, hardware_supports_tpro, process_uses_tpro, probe_process_tpro, allow_tpro_writes,
  thread_can_write_tpro, begin_thread_tpro_write, end_thread_tpro_write,
  protected_pointer_write_is_available,
}
use rork_hook.LoadCommands.{
  for_each_load_command, for_each_load_command_with_size, visit_commands, validate_load_commands,
  check_commands,
}
use rork_hook.Pointer.Keeps.{IsKeeping}
use rork_hook.Rebind.{
  Host, rebind_symbol_in_image, rebind_image_load_command, rebind_sections, rebind_section,
  rebind_named_section, rebind_slots, final_value, copy_name, store_slot,
}
use rork_hook.Rebind.Slots.{IsHost, IsLoaded, IsStorable, IsSlotOf}
use rork_hook.Rebind.Whole.{IsApart}
use rork_hook.Tests.Bytes.{bytes_of, ◌then_bytes◌, padding, field_of, space_of}
use rork_hook.Tests.Kernel.{one_region, one_region-reported, one_region-IsTruthful}
use rork_hook.Tests.WriteRuns.{
  kernel, device, kernel-IsProtecting, device-IsClosing, device-IsGuarded, low-IsReachable,
}

-- The table has the one segment, and the slots stand at 0x10c0.
abbrev pointer_bytes : List ℕ
pointer_bytes =
    bytes_of 4 0xfeedfacf
    then_bytes padding 12
    then_bytes bytes_of 4 1
    then_bytes bytes_of 4 152
    then_bytes padding 8
    then_bytes bytes_of 4 0x19
    then_bytes bytes_of 4 152
    then_bytes padding 56
    then_bytes bytes_of 4 1
    then_bytes padding 4
    then_bytes field_of 16 (codes "__got")
    then_bytes field_of 16 (codes "__DATA")
    then_bytes padding 32
    then_bytes bytes_of 4 6
    then_bytes padding 12
    then_bytes padding 8
    then_bytes bytes_of 8 0x7004
    then_bytes bytes_of 8 0x7008

abbrev pub pointer_space : Space
pointer_space = space_of 0x1000 208 3 pointer_bytes

abbrev pub host : Host
host = record {
  platform = one_region 208 3;
  kernel = kernel;
  device = device;
  getsectiondata = λ header segname sectname.
      if same_text sectname (codes "__got") then (0x10c0, 16) else (0, 0);
}

abbrev pub before : Process
before = record { space = pointer_space; register = 1 }

page_start : (x : ℕ) → 0x1000 ≤ x → x < 0x1400 → 0x1000 ≤ bit_and x (not64 (4096 - 1))
page_start x low high =
    omega (
      arith,
      bit_and_complement 64 x 4095 (omega arith) (omega arith),
      bit_and_mask 12 x,
      low,
      high,
    )

one_region-IsGranular : (size q : ℕ) → IsGranular (one_region size q) 4096
one_region-IsGranular size q = record {
  whole = λ {m} {a} {r} e x low high.
      one_region-reported size q m r
        (λ s. (x : ℕ) → s.start ≤ x → x < s.start + s.size → s.start ≤ bit_and x (not64 (4096 - 1)))
        (λ _ x low high. page_start x low (omega (arith, high))) e x low high;
}

has_read_kept : (q : ℕ) → has q vm_prot_read ≡ true → has (bit_and q 7) vm_prot_read ≡ true
has_read_kept q e = ground (arith, bit_and_mask 3 q, bit_and_mask 1 q, bit_and_mask 1 (bit_and q 7))

kernel-IsKeeping : IsKeeping kernel
unfolding readable
kernel-IsKeeping = record {
  keeps = λ m a n q x reads seen.
      by_test (λ (r : ℕ × Space). readable r.1 x ≡ true) (leb 0x9000 a) (λ _. seen)
        (λ _.
          by_test (λ (o : Option ℕ). (elim o [ none ↦ false | some p ↦ has p vm_prot_read ]) ≡ true)
            (leb a x && ltb x (a + n)) (λ _. has_read_kept q reads) (λ _. seen));
}

pub host-IsHost : IsHost host
host-IsHost = record {
  truthful = one_region-IsTruthful 208 3;
  granular = one_region-IsGranular 208 3;
  protecting = kernel-IsProtecting;
  keeping = kernel-IsKeeping;
  closing = device-IsClosing;
  guarded = device-IsGuarded;
  page = omega arith;
}

slots_low :
    (segname sectname : List ℕ) (a : ℕ)
    → IsSlotOf host 0x1000 segname sectname a
    → (0x1000 ≤ a) × (a < 0x8000)
slots_low segname sectname a =
    by_test (λ (r : ℕ × ℕ). (r.0 ≤ a) × (a + 8 ≤ r.0 + r.1) → (0x1000 ≤ a) × (a < 0x8000))
      (same_text sectname (codes "__got")) (λ _ h. (omega (arith, h), omega (arith, h)))
      (λ _ h. absurd (omega (arith, h)))

pub host-IsLoaded : IsLoaded host 0x1000
host-IsLoaded = record {
  aligned = λ segname sectname.
      by_test (λ (r : ℕ × ℕ). r.0 % 8 ≡ 0) (same_text sectname (codes "__got")) (λ _. refl)
        (λ _. refl);
  bounded = λ segname sectname.
      by_test (λ (r : ℕ × ℕ). r.0 + r.1 < 2 ^ 64) (same_text sectname (codes "__got"))
        (λ _. omega arith) (λ _. omega arith);
  above = λ segname sectname.
      by_test (λ (r : ℕ × ℕ). r.0 ≢ 0 → 4096 ≤ r.0) (same_text sectname (codes "__got"))
        (λ _ _. omega arith) (λ _ nonnull. absurd (nonnull refl));
}

pub host-IsStorable : IsStorable host 0x1000 pointer_space
host-IsStorable = record {
  reachable = λ s segname sectname a still inside reads.
      let (above, low) = slots_low segname sectname a inside in low-IsReachable s a 0x13 above low;
}

pub host-IsApart : IsApart host pointer_space 0x1000
unfolding u32_at
host-IsApart = record {
  apart = λ segname sectname a.
      by_test (λ (r : ℕ × ℕ). (r.0 ≤ a) × (a + 8 ≤ r.0 + r.1) → (a + 8 ≤ 0x1000) ⊎ (0x10b8 ≤ a))
        (same_text sectname (codes "__got")) (λ _ h. inr (omega (arith, h)))
        (λ _ h. absurd (omega (arith, h)));
}

-- The two slots after a run.
abbrev slots_after : Outcome Process → ℕ × ℕ
slots_after (ok s) = (u64_at s.space 0x10c0, u64_at s.space 0x10c8)
slots_after rejected = (0, 0)
slots_after fault = (0, 0)

-- The first slot is rewritten, and the second is not.
rebind_run :
    slots_after (rebind_symbol_in_image host before 0x1000 0x7004 0x7010) ≡ (0x7010, 0x7008)
unfolding rebind_symbol_in_image rebind_image_load_command rebind_sections rebind_section
    rebind_named_section rebind_slots final_value copy_name store_slot strip_pointer
    for_each_load_command for_each_load_command_with_size visit_commands validate_load_commands
    check_commands memory_is_readable readable_memory_length query_region memory_protection read_u32
    read_u64 can_read readable_range readable u64_at u32_at u16_at byte_at store_protected_pointer
    store_transaction pages_of restore_pointer_page_protections protect_memory permitted write_bytes
    little_endian supports_tpro hardware_supports_tpro process_uses_tpro probe_process_tpro
    allow_tpro_writes thread_can_write_tpro begin_thread_tpro_write end_thread_tpro_write
    protected_pointer_write_is_available writable bytes_at
rebind_run = refl
