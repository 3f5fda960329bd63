-- ===== src/Arm64/Encoding.antt =====
-- The A64 encodings of the decoded instructions, as sums of fields: the description that the
-- decoders of RorkHookArm64.c are compared with.
use rork_hook.Base.{ℕ, suc, ◌+◌, ◌-◌, ◌*◌, ◌/◌, ◌%◌, ◌^◌, ◌<◌, ◌≡◌, arith}
use rork_hook.Base.Int.{ℤ, pos, negsuc, Fits}
use rork_hook.Arm64.SignExtend.{signed_field}
use native.Mathlib.Nat.{pow-suc, one-le-pow}

-- The two's-complement field of `w` bits that holds an integer.
abbrev pub field : ℕ → ℤ → ℕ
field w (pos n) = n
field w (negsuc n) = 2 ^ w - 1 - n

pub signed_field-field : (k : ℕ) (z : ℤ) → Fits (2 ^ k) z → signed_field k (field (suc k) z) ≡ z
signed_field-field k (pos n) f = ground (arith, pow-suc 2 k)
signed_field-field k (negsuc n) f = ground (arith, pow-suc 2 k)

pub field-lt : (k : ℕ) (z : ℤ) → Fits (2 ^ k) z → field (suc k) z < 2 ^ suc k
field-lt k (pos n) f = omega (arith, pow-suc 2 k)
field-lt k (negsuc n) f = omega (arith, pow-suc 2 k)

pub field-signed_field : (k low : ℕ) → low < 2 ^ suc k → field (suc k) (signed_field k low) ≡ low
field-signed_field k low h = ground (arith, pow-suc 2 k)

pub signed_field-Fits : (k low : ℕ) → low < 2 ^ suc k → Fits (2 ^ k) (signed_field k low)
signed_field-Fits k low h = ground (arith, pow-suc 2 k, one-le-pow k 2)

-- ADRP Xd, #pages: bits 30:29 hold the low two bits of the 21-bit page count, bits 23:5 the rest.
abbrev pub adrp_fields : (rd imm : ℕ) → ℕ
adrp_fields rd imm = 0x90000000 + imm % 4 * 2 ^ 29 + imm / 4 * 2 ^ 5 + rd

abbrev pub adrp : (rd : ℕ) → ℤ → ℕ
adrp rd pages = adrp_fields rd (field 21 pages)

-- ADD Xd, Xn, #imm12{, LSL #12}: `sh` is 0 or 1.
abbrev pub add_immediate : (rd rn imm12 sh : ℕ) → ℕ
add_immediate rd rn imm12 sh = 0x91000000 + sh * 2 ^ 22 + imm12 * 2 ^ 10 + rn * 2 ^ 5 + rd

-- LDR Xt, [Xn, #imm12 * 8].
abbrev pub ldr_unsigned : (rt rn imm12 : ℕ) → ℕ
ldr_unsigned rt rn imm12 = 0xf9400000 + imm12 * 2 ^ 10 + rn * 2 ^ 5 + rt

-- LDR Xt, [Xn, #simm9]! and LDUR Xt, [Xn, #simm9].
abbrev pub ldr_pre_index : (rt rn : ℕ) → ℤ → ℕ
ldr_pre_index rt rn simm9 = 0xf8400c00 + field 9 simm9 * 2 ^ 12 + rn * 2 ^ 5 + rt

abbrev pub ldur : (rt rn : ℕ) → ℤ → ℕ
ldur rt rn simm9 = 0xf8400000 + field 9 simm9 * 2 ^ 12 + rn * 2 ^ 5 + rt

-- MOVZ Xd, #imm16, LSL #(16 * hw) and MOVK likewise.
abbrev pub movz : (rd imm16 hw : ℕ) → ℕ
movz rd imm16 hw = 0xd2800000 + hw * 2 ^ 21 + imm16 * 2 ^ 5 + rd

abbrev pub movk : (rd imm16 hw : ℕ) → ℕ
movk rd imm16 hw = 0xf2800000 + hw * 2 ^ 21 + imm16 * 2 ^ 5 + rd

-- BR Xn, B #(4 * words) and BL #(4 * words).
abbrev pub br : (rn : ℕ) → ℕ
br rn = 0xd61f0000 + rn * 2 ^ 5

abbrev pub b : ℤ → ℕ
b words = 0x14000000 + field 26 words

abbrev pub bl : ℤ → ℕ
bl words = 0x94000000 + field 26 words
