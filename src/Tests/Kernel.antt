-- ===== src/Tests/Kernel.antt =====
-- A kernel that reports one region, and a pointer authentication that marks bit 56.
use mathlib.Core.Path.{subst}
use mathlib.Core.Bool.{false≢true}
use mathlib.Core.Option.{some-injective}
use rork_hook.Base.{
  ℕ, zero, suc, ◌+◌, ◌%◌, ◌^◌, ◌≤◌, ◌<◌, ◌≡◌, arith, Bool, true, false, Option, none, some, ◌==◌,
  ◌&&◌, if◌then◌else◌, Bool-cases, inl, inr, &&_parts, ==_iff, none-ne-some, ap,
}
use rork_hook.Space.{Space}
use rork_hook.Platform.{Region, Platform, IsTruthful}

abbrev has_protection : Option ℕ → ℕ → Bool
has_protection none q = false
has_protection (some p) q = p == q

has_protection-eq : (o : Option ℕ) (q : ℕ) → has_protection o q ≡ true → o ≡ some q
has_protection-eq none q e = absurd (false≢true e)
has_protection-eq (some p) q e = ap some ((==_iff p q).0 e)

-- The `n` bytes at `a` have the protection `q`.
abbrev uniform : Space → (q a n : ℕ) → Bool
uniform m q a zero = true
uniform m q a (suc n) = has_protection (m.protection a) q && uniform m q (a + 1) n

uniform-each :
    (m : Space) (q a n : ℕ)
    → uniform m q a n ≡ true
    → (x : ℕ) → a ≤ x
    → x < a + n
    → m.protection x ≡ some q
uniform-each m q a zero e x low high = absurd (omega arith)
uniform-each m q a (suc n) e x low high =
    let (here, later) = &&_parts (has_protection (m.protection a) q) (uniform m q (a + 1) n) e in
    elim (Bool-cases (x == a)) [
      | inl same ↦ rw ((==_iff x a).0 same) (has_protection-eq (m.protection a) q here)
      | inr other ↦ uniform-each m q (a + 1) n later x (ground arith) (omega arith)
    ]

-- The region of 1024 bytes at 0x1000, where it is uniform.
abbrev pub one_region : (size q : ℕ) → Platform
one_region size q = record {
  vm_region = λ m a.
      if uniform m q 0x1000 (size % 1024)
      then some (record { start = 0x1000; size = size % 1024; protection = q })
      else none;
  ptrauth_calls = true;
  strip = λ a. a % 2 ^ 47;
  sign = λ a discriminator. a + 2 ^ 56;
}

-- A region that is reported is that one.
pub one_region-reported :
    (size q : ℕ) (m : Space) (r : Region) (P : Region → Type 0)
    → (uniform m q 0x1000 (size % 1024) ≡ true
        → P (record { start = 0x1000; size = size % 1024; protection = q }))
    → (if uniform m q 0x1000 (size % 1024)
        then some (record { start = 0x1000; size = size % 1024; protection = q })
        else none)
      ≡ some r
    → P r
one_region-reported size q m r P holds e = elim (Bool-cases (uniform m q 0x1000 (size % 1024))) [
  | inl is ↦ subst P (some-injective _ _ (rw is at e)) (holds is)
  | inr isnt ↦ absurd (none-ne-some (rw isnt at e))
]

pub one_region-IsTruthful : (size q : ℕ) → IsTruthful (one_region size q)
one_region-IsTruthful size q = record {
  words = λ {m} {a} {r} e.
      one_region-reported size q m r (λ s. (s.start < 2 ^ 64) × (s.size < 2 ^ 64))
        (λ _. (omega arith, omega arith)) e;
  uniform = λ {m} {a} {r} e.
      one_region-reported size q m r
        (λ s. (x : ℕ) → s.start ≤ x → x < s.start + s.size → m.protection x ≡ some s.protection)
        (uniform-each m q 0x1000 (size % 1024)) e;
}
