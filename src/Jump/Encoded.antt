-- ===== src/Jump/Encoded.antt =====
-- `RorkHookEncodeMOVK` and `RorkHookEncodeBR` of RorkHookFunction.c against the encodings.
use rork_hook.Base.{ℕ, ◌+◌, ◌*◌, ◌/◌, ◌%◌, ◌^◌, ◌<◌, ◌≡◌, refl, arith, bit_or, u32}
use rork_hook.Base.Bits.{bit_or_disjoint, bit_and_mask}
use rork_hook.Arm64.Encoding.{movk, br}
use rork_hook.Jump.{encode_movk, encode_br}

-- The four fields of a move, from the top.
or_fields :
    (hw imm rd : ℕ)
    → hw < 4
    → imm < 2 ^ 16
    → rd < 32
    → bit_or (bit_or (bit_or 0xf2800000 (hw * 2 ^ 21)) (imm * 2 ^ 5)) rd ≡ movk rd imm hw
or_fields hw imm rd a b c =
    let top : 0xf2800000 + hw * 2 ^ 21 ≡ (0x794 + hw) * 2 ^ 21 = omega arith in
    let middle : (0x794 + hw) * 2 ^ 21 + imm * 2 ^ 5 ≡ ((0x794 + hw) * 2 ^ 16 + imm) * 2 ^ 5 =
      omega arith in
    rw
      (
        bit_or_disjoint 23 0x1e5 (hw * 2 ^ 21) (omega arith),
        top,
        bit_or_disjoint 21 (0x794 + hw) (imm * 2 ^ 5) (omega arith),
        middle,
        bit_or_disjoint 5 ((0x794 + hw) * 2 ^ 16 + imm) rd c,
      )
      (omega arith)

-- For a register below 32 and a shift by whole halfwords the word is MOVK.
pub encode_movk-movk :
    (rd imm hw : ℕ)
    → rd < 32
    → imm < 2 ^ 16
    → hw < 4
    → encode_movk rd imm (hw * 16) ≡ movk rd imm hw
unfolding encode_movk
encode_movk-movk rd imm hw c b a =
    let half : u32 (hw * 16 / 16 * 2 ^ 21) ≡ hw * 2 ^ 21 = omega arith in
    let immediate : u32 (imm * 2 ^ 5) ≡ imm * 2 ^ 5 = omega arith in
    let register : rd % 2 ^ 5 ≡ rd = omega arith in
    rw (half, immediate, bit_and_mask 5 rd, register) (or_fields hw imm rd a b c)

pub encode_br-br : (rn : ℕ) → rn < 32 → encode_br rn ≡ br rn
unfolding encode_br
encode_br-br rn h =
    let register : u32 (rn % 2 ^ 5 * 2 ^ 5) ≡ rn * 2 ^ 5 = omega arith in
    rw (bit_and_mask 5 rn, register, bit_or_disjoint 16 0xd61f (rn * 2 ^ 5) (omega arith)) refl
