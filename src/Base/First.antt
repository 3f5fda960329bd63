-- ===== src/Base/First.antt =====
-- The first index of a range at which a test holds: what a search loop is to find.
use Prim.Native.Nat.{ℕ, zero, suc, ◌+◌, ◌≤◌, ◌<◌}
use mathlib.Core.Path.{◌≡◌, refl, sym, ap, ◌∙◌}
use mathlib.Core.Bool.{Bool, true, false, false≢true}
use mathlib.Core.Logic.{inl, inr}
use mathlib.Core.Option.{Option, none, some}
use native.Mathlib.Omega.{arith}
use rork_hook.Base.Tests.{◌==◌, leb, ==_iff, Bool-cases}

-- The test fails on `[lo, hi)`.
pub record Fails (test : ℕ → Bool) (lo hi : ℕ) : Type 0 where
  pub each : (k : ℕ) → lo ≤ k → k < hi → test k ≡ false

abbrev pub IsFirst : (test : ℕ → Bool) (lo hi : ℕ) → Option ℕ → Type 0
IsFirst test lo hi none = Fails test lo hi
IsFirst test lo hi (some j) = (lo ≤ j) × (j < hi) × (test j ≡ true) × Fails test lo j

module _ (test : ℕ → Bool) where
  Fails-step : (lo hi : ℕ) → test lo ≡ false → Fails test (lo + 1) hi → Fails test lo hi
  Fails-step lo hi miss rest = record {
    each = λ k l h. elim (Bool-cases (k == lo)) [
      | inl here ↦ rw ((==_iff k lo).0 here) miss
      | inr there ↦ rest.each k (ground arith) h
    ];
  }

  -- The search goes on after a failed test.
  pub IsFirst-step :
      (lo left : ℕ) (o : Option ℕ)
      → test lo ≡ false
      → IsFirst test (lo + 1) (lo + 1 + left) o
      → IsFirst test lo (lo + suc left) o
  IsFirst-step lo left none miss rest =
      Fails-step lo (lo + suc left) miss (record { each = λ k l h. rest.each k l (omega arith) })
  IsFirst-step lo left (some j) miss (low, high, holds, before) =
      (omega arith, omega arith, holds, Fails-step lo j miss before)

  pub IsFirst-here : (lo left : ℕ) → test lo ≡ true → IsFirst test lo (lo + suc left) (some lo)
  IsFirst-here lo left holds =
      (omega arith, omega arith, holds, record { each = λ k l h. absurd (omega arith) })

  pub IsFirst-empty : (lo : ℕ) → IsFirst test lo (lo + zero) none
  IsFirst-empty lo = record { each = λ k l h. absurd (omega arith) }

  -- There is one first index.
  pub same_index :
      (lo hi : ℕ) (a b : Option ℕ) → IsFirst test lo hi a → IsFirst test lo hi b → a ≡ b
  same_index lo hi none none p q = refl
  same_index lo hi none (some j) p (low, high, holds, before) =
      absurd (false≢true (sym (p.each j low high) ∙ holds))
  same_index lo hi (some i) none (low, high, holds, before) q =
      absurd (false≢true (sym (q.each i low high) ∙ holds))
  same_index lo hi (some i) (some j) (a, b, c, d) (e, f, g, h) =
      ap some (elim (Bool-cases (leb i j)) [
        | inl le ↦ elim (Bool-cases (i == j)) [
          | inl same ↦ (==_iff i j).0 same
          | inr other ↦ absurd (false≢true (sym (h.each i a (ground arith)) ∙ c))
        ]
        | inr ge ↦ elim (Bool-cases (j == i)) [
          | inl same ↦ sym ((==_iff j i).0 same)
          | inr other ↦ absurd (false≢true (sym (d.each j e (ground arith)) ∙ g))
        ]
      ])
