-- ===== src/Base/Bits.antt =====
-- Masks and fields: the bit operations at variables, as arithmetic.
mod Step
pub mod Complement
use Step.{bit_and_digit, bit_or_digit, bit_xor_digit}
use Prim.Native.Nat.{
  ℕ, zero, suc, ◌+◌, ◌-◌, ◌*◌, ◌/◌, ◌%◌, ◌^◌, ◌≤◌, ◌<◌, min, bit_and, bit_or, bit_xor,
  bit_and-bitwise, bit_or-bitwise, differ,
}
use mathlib.Core.Path.{◌≡◌, refl, ap, ap₂, ◌∙◌, sym}
use mathlib.Core.Logic.{inl, inr}
use mathlib.Core.WellFounded
use native.Mathlib.Nat.{pow-suc, one-le-pow}
use native.Mathlib.Omega.{arith}
use rork_hook.Base.Order.{lt_wf}
use rork_hook.Base.Tests.{ltb, ltb→lt, ltb→le, if◌then◌else◌, Bool-cases}

-- A property of 0 that passes from half a number to the number.
by_halves : (P : ℕ → Type 0) → P 0 → ((n : ℕ) → P (suc n / 2) → P (suc n)) → (a : ℕ) → P a
by_halves P base up a = WellFounded.induction lt_wf {C = P} a λ n below.
    elim n as (λ n. ((m : ℕ) → m < n → P m) → P n) [
      | zero ↦ λ _. base
      | suc n ↦ λ smaller. up n (smaller (suc n / 2) (omega arith))
    ]
      below

bit_and-zero : (a : ℕ) → bit_and a 0 ≡ 0
bit_and-zero =
    by_halves (λ n. bit_and n 0 ≡ 0) refl λ n half. omega (arith, half, bit_and_digit (suc n) 0)

bit_or-zero : (a : ℕ) → bit_or a 0 ≡ a
bit_or-zero =
    by_halves (λ n. bit_or n 0 ≡ n) refl λ n half. omega (arith, half, bit_or_digit (suc n) 0)

differ-zero : (d : ℕ) → differ d 0 ≡ d
differ-zero zero = refl
differ-zero (suc d) = refl

bit_xor-zero : (a : ℕ) → bit_xor a 0 ≡ a
bit_xor-zero =
    by_halves (λ n. bit_xor n 0 ≡ n) refl
      λ n half. omega (arith, half, bit_xor_digit (suc n) 0, differ-zero (suc n % 2))

double_pow : (x k : ℕ) → x * 2 ^ suc k ≡ 2 * (x * 2 ^ k)
double_pow x k = omega (arith, ap (λ (t : ℕ). x * t) (pow-suc 2 k))

-- Two words split at bit k: the operations act on the upper and the lower parts alone.
pub bit_and_fields :
    (k q r hi lo : ℕ)
    → r < 2 ^ k
    → lo < 2 ^ k
    → bit_and (q * 2 ^ k + r) (hi * 2 ^ k + lo) ≡ bit_and q hi * 2 ^ k + bit_and r lo
bit_and_fields zero q r hi lo p h = ground (arith, bit_and-zero 0)
bit_and_fields (suc k) q r hi lo p h = ground (
  arith,
  bit_and_digit (q * 2 ^ suc k + r) (hi * 2 ^ suc k + lo),
  bit_and_digit r lo,
  double_pow q k,
  double_pow hi k,
  double_pow (bit_and q hi) k,
  pow-suc 2 k,
  bit_and_fields k q (r / 2) hi (lo / 2) (omega (arith, pow-suc 2 k)) (omega (arith, pow-suc 2 k)),
)

pub bit_or_fields :
    (k q r hi lo : ℕ)
    → r < 2 ^ k
    → lo < 2 ^ k
    → bit_or (q * 2 ^ k + r) (hi * 2 ^ k + lo) ≡ bit_or q hi * 2 ^ k + bit_or r lo
bit_or_fields zero q r hi lo p h = ground (arith, bit_or-zero 0)
bit_or_fields (suc k) q r hi lo p h = ground (
  arith,
  bit_or_digit (q * 2 ^ suc k + r) (hi * 2 ^ suc k + lo),
  bit_or_digit r lo,
  double_pow q k,
  double_pow hi k,
  double_pow (bit_or q hi) k,
  pow-suc 2 k,
  bit_or_fields k q (r / 2) hi (lo / 2) (omega (arith, pow-suc 2 k)) (omega (arith, pow-suc 2 k)),
)

pub bit_xor_fields :
    (k q r hi lo : ℕ)
    → r < 2 ^ k
    → lo < 2 ^ k
    → bit_xor (q * 2 ^ k + r) (hi * 2 ^ k + lo) ≡ bit_xor q hi * 2 ^ k + bit_xor r lo
bit_xor_fields zero q r hi lo p h = ground (arith, bit_xor-zero 0)
bit_xor_fields (suc k) q r hi lo p h = ground (
  arith,
  bit_xor_digit (q * 2 ^ suc k + r) (hi * 2 ^ suc k + lo),
  bit_xor_digit r lo,
  double_pow q k,
  double_pow hi k,
  double_pow (bit_xor q hi) k,
  pow-suc 2 k,
  bit_xor_fields k q (r / 2) hi (lo / 2) (omega (arith, pow-suc 2 k)) (omega (arith, pow-suc 2 k)),
)

zero-bit_or : (b : ℕ) → bit_or 0 b ≡ b
zero-bit_or b = bit_or-bitwise 0 b

zero-bit_and : (b : ℕ) → bit_and 0 b ≡ 0
zero-bit_and b = bit_and-bitwise 0 b

-- A mask of k low ones is the remainder by `2 ^ k`.
bit_and-ones : (k r : ℕ) → r < 2 ^ k → bit_and r (2 ^ k - 1) ≡ r
bit_and-ones zero r h = ground (arith, bit_and-zero 0)
bit_and-ones (suc k) r h = ground (
  arith,
  bit_and_digit r (2 ^ suc k - 1),
  pow-suc 2 k,
  one-le-pow k 2,
  bit_and-ones k (r / 2) (omega (arith, pow-suc 2 k)),
)

pub bit_and_mask : (k a : ℕ) → bit_and a (2 ^ k - 1) ≡ a % 2 ^ k
bit_and_mask k a = ground (
  arith,
  one-le-pow k 2,
  bit_and_fields k (a / 2 ^ k) (a % 2 ^ k) 0 (2 ^ k - 1),
  bit_and-ones k (a % 2 ^ k),
  bit_and-zero (a / 2 ^ k),
)

-- A mask whose k low bits are clear looks at the upper part.
pub bit_and_high : (k a m : ℕ) → bit_and a (m * 2 ^ k) ≡ bit_and (a / 2 ^ k) m * 2 ^ k
bit_and_high k a m =
    ground (
      arith,
      one-le-pow k 2,
      bit_and_fields k (a / 2 ^ k) (a % 2 ^ k) m 0,
      bit_and-zero (a % 2 ^ k),
    )

-- `(q << k) | r` of disjoint fields is a sum.
pub bit_or_disjoint : (k q r : ℕ) → r < 2 ^ k → bit_or (q * 2 ^ k) r ≡ q * 2 ^ k + r
bit_or_disjoint k q r h =
    ground (arith, one-le-pow k 2, bit_or_fields k q 0 0 r, bit_or-zero q, zero-bit_or r)

-- Flipping bit k of a number of k + 1 bits.
pub bit_xor_top :
    (k v : ℕ) → v < 2 ^ suc k → bit_xor v (2 ^ k) ≡ (if ltb v (2 ^ k) then v + 2 ^ k else v - 2 ^ k)
bit_xor_top k v h = elim (Bool-cases (ltb v (2 ^ k))) [
  | inl below ↦
      rw below
        (ground (arith, ltb→lt _ _ below, bit_xor_fields k 0 v 1 0, bit_xor-zero v, one-le-pow k 2))
  | inr above ↦ rw above (
      ground (
        arith,
        ltb→le _ _ above,
        pow-suc 2 k,
        bit_xor_fields k 1 (v - 2 ^ k) 1 0,
        bit_xor-zero (v - 2 ^ k),
        one-le-pow k 2,
      ))
]

-- A mask read in two parts.
pub bit_and_split :
    (k a hi lo : ℕ)
    → lo < 2 ^ k
    → bit_and a (hi * 2 ^ k + lo) ≡ bit_and (a / 2 ^ k) hi * 2 ^ k + bit_and (a % 2 ^ k) lo
bit_and_split k a hi lo h =
    ground (arith, one-le-pow k 2, bit_and_fields k (a / 2 ^ k) (a % 2 ^ k) hi lo)

-- A mask of w ones at bit k.
pub bit_and_field : (k w a : ℕ) → bit_and a ((2 ^ w - 1) * 2 ^ k) ≡ a / 2 ^ k % 2 ^ w * 2 ^ k
bit_and_field k w a = ground (arith, bit_and_high k a (2 ^ w - 1), bit_and_mask w (a / 2 ^ k))
