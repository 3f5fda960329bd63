-- ===== src/Base/Bits/Complement.antt =====
-- A mask and its complement share a number between them.
use Prim.Native.Nat.{ℕ, zero, suc, ◌+◌, ◌-◌, ◌/◌, ◌^◌, ◌≤◌, ◌<◌, bit_and, bit_and-bitwise}
use mathlib.Core.Path.{◌≡◌}
use native.Mathlib.Nat.{pow-suc, one-le-pow}
use native.Mathlib.Omega.{arith}
use rork_hook.Base.Bits.Step.{bit_and_digit}

pub bit_and_complement :
    (k a b : ℕ) → a < 2 ^ k → b < 2 ^ k → bit_and a b + bit_and a (2 ^ k - 1 - b) ≡ a
bit_and_complement zero zero zero p q = omega arith
bit_and_complement zero zero (suc b) p q = absurd (omega arith)
bit_and_complement zero (suc a) b p q = absurd (omega arith)
bit_and_complement (suc k) a b p q = ground (
  arith,
  pow-suc 2 k,
  one-le-pow k 2,
  bit_and_digit a b,
  bit_and_digit a (2 ^ suc k - 1 - b),
  bit_and_complement k (a / 2) (b / 2) (omega (arith, pow-suc 2 k)) (omega (arith, pow-suc 2 k)),
)

pub bit_and-le : (k a b : ℕ) → a < 2 ^ k → bit_and a b ≤ b
bit_and-le zero zero b p = omega (arith, bit_and-bitwise 0 b)
bit_and-le zero (suc a) b p = absurd (omega arith)
bit_and-le (suc k) a b p =
    ground (arith, bit_and_digit a b, bit_and-le k (a / 2) (b / 2) (omega (arith, pow-suc 2 k)))
