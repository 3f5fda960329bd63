-- ===== src/Arm64/Masks.antt =====
-- The opcode masks of the decoders, as remainders and quotients.
use rork_hook.Base.{ℕ, ◌+◌, ◌*◌, ◌/◌, ◌%◌, ◌^◌, ◌≡◌, bit_and, arith}
use rork_hook.Base.Bits.{bit_and_mask, bit_and_field, bit_and_split}

pub mask_adrp : (a : ℕ) → bit_and a 0x9f000000 ≡ a / 2 ^ 31 % 2 * 2 ^ 31 + a / 2 ^ 24 % 32 * 2 ^ 24
mask_adrp a = omega (
  arith,
  bit_and_split 31 a 1 0x1f000000 (omega arith),
  bit_and_mask 1 (a / 2 ^ 31),
  bit_and_field 24 5 (a % 2 ^ 31),
)

pub mask_add : (a : ℕ) → bit_and a 0xff800000 ≡ a / 2 ^ 23 % 512 * 2 ^ 23
mask_add a = bit_and_field 23 9 a

pub mask_ldr : (a : ℕ) → bit_and a 0xffc00000 ≡ a / 2 ^ 22 % 1024 * 2 ^ 22
mask_ldr a = bit_and_field 22 10 a

pub mask_ldur :
    (a : ℕ) → bit_and a 0xffe00c00 ≡ a / 2 ^ 21 % 2048 * 2 ^ 21 + a / 2 ^ 10 % 4 * 2 ^ 10
mask_ldur a = omega (
  arith,
  bit_and_split 21 a 0x7ff 0xc00 (omega arith),
  bit_and_mask 11 (a / 2 ^ 21),
  bit_and_field 10 2 (a % 2 ^ 21),
)

pub mask_branch : (a : ℕ) → bit_and a 0xfc000000 ≡ a / 2 ^ 26 % 64 * 2 ^ 26
mask_branch a = bit_and_field 26 6 a

pub mask_page : (a : ℕ) → bit_and a 0xfffffffffffff000 ≡ a / 2 ^ 12 % 2 ^ 52 * 2 ^ 12
mask_page a = bit_and_field 12 52 a
