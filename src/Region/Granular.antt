-- ===== src/Region/Granular.antt =====
-- The protection of the page of an address, by the queries of RorkHookInternal.c.
use mathlib.Core.Path.{subst}
use mathlib.Core.Option.{some-injective}
use rork_hook.Base.{
  ℕ, ◌+◌, ◌-◌, ◌≤◌, ◌<◌, ◌≡◌, sym, ◌∙◌, arith, true, some, Option-cases, Bool-cases, inl, inr,
  bit_and, not64, none-ne-some, ◌&&◌, neb, leb,
}
use rork_hook.Space.{Space, has, vm_prot_read}
use rork_hook.Platform.{Region, Platform, IsTruthful}
use rork_hook.Region.{query_region, memory_protection, readable_memory_length, memory_is_readable}
use rork_hook.Region.Readable.{query_region-Contains}

-- A reported region consists of pages: with an address it holds the start of its page.
pub record IsGranular (p : Platform) (page_size : ℕ) : Type 0 where
  pub whole :
      {m : Space} {a : ℕ} {r : Region}
      → p.vm_region m a ≡ some r
      → (x : ℕ) → r.start ≤ x
      → x < r.start + r.size
      → r.start ≤ bit_and x (not64 (page_size - 1))

-- An address that is reported readable is in a readable region.
pub memory_is_readable-region :
    (p : Platform) (m : Space) (a n : ℕ)
    → memory_is_readable p m a n ≡ true
    → (r : Region) × (query_region p m a ≡ some r) × (has r.protection vm_prot_read ≡ true)
unfolding memory_is_readable readable_memory_length
memory_is_readable-region p m a n e = elim (Option-cases (query_region p m a)) [
  | inl out ↦ absurd (none_readable (rw (out, readable_memory_length) at e))
  | inr (r, found) ↦ elim (Bool-cases (has r.protection vm_prot_read)) [
    | inl reads ↦ (r, found, reads)
    | inr unreadable ↦ absurd (none_readable (rw (found, readable_memory_length, unreadable) at e))
  ]
]
  where
    none_readable : (neb n 0 && leb n 0) ≡ true → ⊥
    none_readable e = ground arith

module _ (p : Platform) (truthful : IsTruthful p) (page_size : ℕ)
    (granular : IsGranular p page_size) where
  -- The start of the page of a readable address is readable.
  pub page_start-reads :
      (m : Space) (a n q : ℕ)
      → memory_is_readable p m a n ≡ true
      → bit_and a (not64 (page_size - 1)) ≤ a
      → memory_protection p m (bit_and a (not64 (page_size - 1))) true ≡ some q
      → has q vm_prot_read ≡ true
  unfolding memory_protection
  page_start-reads m a n q reads below is_q =
      let first = bit_and a (not64 (page_size - 1)) in
      let (r, found, r_reads) = memory_is_readable-region p m a n reads in
      let (reported, inside) = query_region-Contains p truthful m a found in
      elim (Option-cases (query_region p m first)) [
        | inl out ↦ absurd (none-ne-some (rw out at is_q))
        | inr (r', found') ↦
            let (reported', inside') = query_region-Contains p truthful m first found' in
            let over = granular.whole reported a inside.above inside.below in
            let one = truthful.uniform reported first over (omega (arith, below, inside.below)) in
            let other = truthful.uniform reported' first inside'.above inside'.below in
            let same : r.protection ≡ q =
              some-injective _ _ (sym one ∙ other) ∙ some-injective _ _ (rw found' at is_q) in
            subst (λ x. has x vm_prot_read ≡ true) same r_reads
      ]

-- The protection of a readable address itself.
pub address-reads :
    (p : Platform) (m : Space) (a n q : ℕ)
    → memory_is_readable p m a n ≡ true
    → memory_protection p m a true ≡ some q
    → has q vm_prot_read ≡ true
unfolding memory_protection
address-reads p m a n q reads is_q =
    let (r, found, r_reads) = memory_is_readable-region p m a n reads in
    subst (λ x. has x vm_prot_read ≡ true) (some-injective _ _ (rw found at is_q)) r_reads
