-- ===== src/Region/Readable.antt =====
-- The region queries of RorkHookInternal.c against the memory.
use mathlib.Core.Option.{some-injective}
use rork_hook.Base.{
  ℕ, ◌+◌, ◌-◌, ◌^◌, ◌≤◌, ◌<◌, ◌≡◌, ◌≢◌, true, none, some, arith, ltb, leb, ◌==◌, neb, u64,
  Option-cases, inl, inr, Bool-cases, ◌||◌, if◌then◌else◌, &&_parts, leb→le, none-ne-some,
}
use rork_hook.Space.{Space, null, has, vm_prot_read, readable}
use rork_hook.Space.Reads.{IsReadable, IsReadable-part}
use rork_hook.Platform.{Region, Platform, IsTruthful}
use rork_hook.Region.{query_region, readable_memory_length, memory_is_readable}

-- A reported region contains the address and does not reach past the address space.
pub record Contains (r : Region) (a : ℕ) : Type 0 where
  pub above : r.start ≤ a
  pub below : a < r.start + r.size
  pub bounded : r.start + r.size < 2 ^ 64

confirmed-Contains :
    (a : ℕ) (s r : Region)
    → s.start < 2 ^ 64
    → s.size < 2 ^ 64
    → (let region_end = u64 (s.start + s.size) in
        if ltb region_end s.start || (ltb a s.start || leb region_end a) then none else some s)
      ≡ some r
    → (s ≡ r) × Contains s a
confirmed-Contains a s r h k e =
    elim (Bool-cases
      (ltb (u64 (s.start + s.size)) s.start || (ltb a s.start || leb (u64 (s.start + s.size)) a))) [
        | inl out ↦ absurd (none-ne-some (rw out at e))
        | inr inside ↦ (some-injective _ _ (rw inside at e), ground arith)
      ]

confirmed_length :
    (a : ℕ) (r : Region)
    → Contains r a
    → (let region_end = u64 (r.start + r.size) in
        if ltb region_end r.start || (ltb a r.start || leb region_end a) then 0 else region_end - a)
      ≡ r.start + r.size - a
confirmed_length a r inside = ground arith

readable_of :
    (m : Space) (x : ℕ) (protection : ℕ)
    → has protection vm_prot_read ≡ true
    → m.protection x ≡ some protection
    → readable m x ≡ true
unfolding readable
readable_of m x protection reads e = rw (e, readable) reads

module _ (p : Platform) (truthful : IsTruthful p) (m : Space) where
  pub query_region-Contains :
      (a : ℕ) {r : Region} → query_region p m a ≡ some r → (p.vm_region m a ≡ some r) × Contains r a
  unfolding query_region
  query_region-Contains a {r} e = elim (Bool-cases (a == null)) [
    | inl is_null ↦ absurd (none-ne-some (rw is_null at e))
    | inr nonnull ↦ elim (Option-cases (p.vm_region m a)) [
      | inl unmapped ↦ absurd (none-ne-some (rw (nonnull, unmapped) at e))
      | inr (s, found) ↦
          let (h, k) = truthful.words found in
          let (same, contains) = confirmed-Contains a s r h k (rw (nonnull, found) at e) in
          (rw (← same) found, rw (← same) contains)
    ]
  ]

  -- With a kernel that reports regions truthfully, all bytes of the readable length from an address
  -- on can be read.
  pub readable_memory_length-IsReadable : (a : ℕ) → IsReadable m a (readable_memory_length p m a)
  unfolding readable_memory_length
  readable_memory_length-IsReadable a = elim (Option-cases (query_region p m a)) [
    | inl out ↦ rw (out, readable_memory_length) (record { each = λ x h k. absurd (omega arith) })
    | inr (r, found) ↦
        let (reported, inside) = query_region-Contains a found in
        rw (found, readable_memory_length)
          (elim (Bool-cases (has r.protection vm_prot_read)) [
            | inl reads ↦
                rw (reads, confirmed_length a r inside)
                  (record {
                    each = λ x h k. readable_of m x r.protection reads (
                        truthful.uniform reported x (omega (arith, inside.above))
                          (omega (arith, inside.below)));
                  })
            | inr unreadable ↦ rw unreadable (record { each = λ x h k. absurd (omega arith) })
          ])
  ]

  -- With a kernel that reports regions truthfully, the readable length from a non-null address is
  -- what is left of its region, when the kernel reports a readable region that contains the address
  -- and does not wrap.
  pub readable_memory_length-eq :
      (a : ℕ) {r : Region}
      → a ≢ null
      → p.vm_region m a ≡ some r
      → Contains r a
      → has r.protection vm_prot_read ≡ true
      → readable_memory_length p m a ≡ r.start + r.size - a
  unfolding readable_memory_length query_region
  readable_memory_length-eq a {r} ne found inside reads = ground arith

  -- With a kernel that reports regions truthfully, a range that is reported readable is not empty,
  -- and all its bytes can be read.
  pub memory_is_readable-IsReadable :
      (a n : ℕ) → memory_is_readable p m a n ≡ true → (0 < n) × IsReadable m a n
  unfolding memory_is_readable
  memory_is_readable-IsReadable a n e =
      let (nonempty, fits) = &&_parts (neb n 0) (leb n (readable_memory_length p m a)) e in
      (
        ground arith,
        IsReadable-part a n (readable_memory_length-IsReadable a) (omega arith)
            (omega (arith, leb→le _ _ fits)),
      )

  -- A readable range does not start at the null pointer.
  pub memory_is_readable-nonnull : (a n : ℕ) → memory_is_readable p m a n ≡ true → a ≢ null
  unfolding memory_is_readable readable_memory_length query_region
  memory_is_readable-nonnull a n e = λ is_null. ground arith
