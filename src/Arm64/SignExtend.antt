-- ===== src/Arm64/SignExtend.antt =====
-- `RorkHookArm64SignExtend` of RorkHookArm64.c against the two's-complement value of a field.
use rork_hook.Base.{
  ℕ, suc, ◌+◌, ◌-◌, ◌%◌, ◌^◌, ◌≤◌, ◌<◌, ◌≡◌, refl, inl, inr, arith, ltb, if◌then◌else◌, Bool-cases,
  ltb→lt, ltb→le, ◌==◌, sym, ap, ◌∙◌, ==_iff, ap, ◌∙◌, ==_iff,
}
use rork_hook.Base.Int.{ℤ, pos, negsuc, pos_part, neg_part, Fits}
use rork_hook.Base.Bits.{bit_and_mask, bit_xor_top}
use rork_hook.Arm64.{sign_extend}
use native.Mathlib.Nat.{
  mod-lt, mod-eq_of_lt, mod-add-mod, mod-mod, mod_self, zero-mod, add-zero, pow-suc, one-le-pow,
  pow-le-pow_right,
}

-- The value of the low `suc k` bits of a word, read in two's complement.
abbrev pub signed_field : ℕ → ℕ → ℤ
signed_field k low = if ltb low (2 ^ k) then pos low else negsuc (2 ^ suc k - 1 - low)

pow-bound : (k : ℕ) → k < 63 → 2 ^ suc k ≤ 2 ^ 63
pow-bound k h = pow-le-pow_right (omega arith) h

pub sign_extend-signed_field :
    (k value : ℕ) → k < 63 → sign_extend value (pos (suc k)) ≡ signed_field k (value % 2 ^ suc k)
unfolding sign_extend
sign_extend-signed_field k value h = ground (
  arith,
  bit_and_mask (suc k) value,
  bit_xor_top k (value % 2 ^ suc k),
  pow-suc 2 k,
  one-le-pow k 2,
  pow-bound k h,
)

sign_extend_64 : (value : ℕ) → value < 2 ^ 64 → sign_extend value (pos 64) ≡ signed_field 63 value
unfolding sign_extend
sign_extend_64 value h = ground arith

sign_extend-eq :
    (k value : ℕ)
    → k < 64
    → value < 2 ^ 64
    → sign_extend value (pos (suc k)) ≡ signed_field k (value % 2 ^ suc k)
sign_extend-eq k value h v = elim (Bool-cases (k == 63)) [
  | inl top ↦
      rw ((==_iff k 63).0 top)
        (sign_extend_64 value v ∙ ap (signed_field 63) (sym (mod-eq_of_lt v)))
  | inr below ↦ sign_extend-signed_field k value (ground arith)
]

-- A number and the complement of its remainder.
complement : (value p : ℕ) → 0 < p → (value + suc (p - 1 - value % p)) % p ≡ 0 % p
complement value p h =
    let low : value % p < p = mod-lt value h in
    let whole : value % p + suc (p - 1 - value % p) ≡ p = omega arith in
    sym (mod-add-mod value p (suc (p - 1 - value % p)))
    ∙ ap (λ (t : ℕ). t % p) whole
    ∙ mod_self p
    ∙ sym (zero-mod p)

signed_field_congruent :
    (k value : ℕ)
    → let r = signed_field k (value % 2 ^ suc k) in
      Fits (2 ^ k) r × ((value + neg_part r) % 2 ^ suc k ≡ pos_part r % 2 ^ suc k)
signed_field_congruent k value =
    let half = one-le-pow k 2 (omega arith) in
    let double = pow-suc 2 k in
    let low : value % 2 ^ suc k < 2 ^ suc k = mod-lt value (omega arith) in
    let mod-value : (value + 0) % 2 ^ suc k ≡ value % 2 ^ suc k % 2 ^ suc k =
      rw (add-zero, mod-mod) refl in
    elim (Bool-cases (ltb (value % 2 ^ suc k) (2 ^ k))) [
      | inl below ↦ rw below ((omega (arith, ltb→lt _ _ below), omega arith), mod-value)
      | inr above ↦ rw above (
        (omega arith, omega (arith, ltb→le _ _ above)),
        complement value (2 ^ suc k) (omega arith),
      )
    ]

-- For a width from 1 to 64 the sign extension of a 64-bit value is an integer in the signed range
-- of that width, congruent to the value modulo the power of two of the width.
pub sign_extend_lem :
    (k value : ℕ)
    → k < 64
    → value < 2 ^ 64
    → let r = sign_extend value (pos (suc k)) in
      Fits (2 ^ k) r × ((value + neg_part r) % 2 ^ suc k ≡ pos_part r % 2 ^ suc k)
sign_extend_lem k value h v = rw (sign_extend-eq k value h v) (signed_field_congruent k value)
