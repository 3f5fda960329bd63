-- ===== src/Arm64/Loads.antt =====
-- The decoders of the 64-bit loads against the encodings.
use rork_hook.Base.{
  ℕ, ◌*◌, ◌/◌, ◌%◌, ◌^◌, ◌<◌, ◌≡◌, refl, ap, ◌∙◌, ◌↔◌, true, false, none, some, arith, ◌==◌, ◌&&◌,
  if◌then◌else◌, bit_and, Bool, none-ne-some,
}
use rork_hook.Base.Int.{ℤ, pos, Fits}
use rork_hook.Base.Bits.{bit_and_mask}
use mathlib.Core.Option.{some-injective}
use native.Mathlib.Nat.{mod-mod}
use rork_hook.Arm64.{
  decode_ldr_unsigned64, decode_ldr_unsigned_offset64, decode_ldr_signed_pre_index64, decode_ldur64,
  sign_extend,
}
use rork_hook.Arm64.Masks.{mask_ldr, mask_ldur}
use rork_hook.Arm64.SignExtend.{signed_field, sign_extend-signed_field}
use rork_hook.Arm64.Encoding.{
  ldr_unsigned, ldr_pre_index, ldur, field, signed_field-field, field-signed_field,
  signed_field-Fits, field-lt,
}

decode_ldr_eq :
    (i base : ℕ)
    → decode_ldr_unsigned64 i base true ≡ (
        if i / 2 ^ 22 % 1024 == 0x3e5 && i / 2 ^ 5 % 32 == base
        then some (i / 2 ^ 10 % 4096 * 8)
        else none)
unfolding decode_ldr_unsigned64
decode_ldr_eq i base =
    ground (arith, mask_ldr i, bit_and_mask 5 (i / 2 ^ 5), bit_and_mask 12 (i / 2 ^ 10))

-- For a 32-bit instruction and a register below 32 the decoder returns an offset exactly when the
-- instruction is a 64-bit LDR from that register with that scaled unsigned offset.
pub decode_ldr_unsigned64_iff :
    (i base off : ℕ)
    → i < 2 ^ 32
    → base < 32
    → (decode_ldr_unsigned64 i base true ≡ some off) ↔ (
        (rt imm12 : ℕ) × (rt < 32)
        × (imm12 < 2 ^ 12)
        × (i ≡ ldr_unsigned rt base imm12)
        × (off ≡ imm12 * 8))
decode_ldr_unsigned64_iff i base off h hb = (
  λ e.
      let parts = rw decode_ldr_eq at e in
      (i % 32, i / 2 ^ 10 % 4096, omega arith, omega arith, ground arith, ground arith),
  λ (rt, imm12, hr, hi, word, offset). rw decode_ldr_eq (ground arith),
)

-- Without a required base, the decoder agrees with the checked one at the register that the word
-- names.
pub decode_ldr_unsigned_offset64-eq :
    (i : ℕ)
    → i < 2 ^ 32
    → decode_ldr_unsigned_offset64 i true ≡ decode_ldr_unsigned64 i (i / 2 ^ 5 % 32) true
unfolding decode_ldr_unsigned_offset64 decode_ldr_unsigned64
decode_ldr_unsigned_offset64-eq i h =
    ground (arith, mask_ldr i, bit_and_mask 5 (i / 2 ^ 5), bit_and_mask 12 (i / 2 ^ 10))

simm9 :
    (i : ℕ) → sign_extend (bit_and (i / 2 ^ 12) 0x1ff) (pos 9) ≡ signed_field 8 (i / 2 ^ 12 % 512)
simm9 i = rw (bit_and_mask 9 (i / 2 ^ 12)) (
    sign_extend-signed_field 8 (i / 2 ^ 12 % 512) (omega arith)
    ∙ ap (signed_field 8) (mod-mod (i / 2 ^ 12) 512))

decode_ldur_eq :
    (i base : ℕ)
    → decode_ldur64 i base true ≡ (
        if i / 2 ^ 21 % 2048 == 0x7c2 && (i / 2 ^ 10 % 4 == 0 && i / 2 ^ 5 % 32 == base)
        then some (signed_field 8 (i / 2 ^ 12 % 512))
        else none)
unfolding decode_ldur64
decode_ldur_eq i base = rw simm9 (ground (arith, mask_ldur i, bit_and_mask 5 (i / 2 ^ 5)))

decode_pre_index_eq :
    (i : ℕ)
    → decode_ldr_signed_pre_index64 i true ≡ (
        if i / 2 ^ 21 % 2048 == 0x7c2 && i / 2 ^ 10 % 4 == 3
        then some (signed_field 8 (i / 2 ^ 12 % 512))
        else none)
unfolding decode_ldr_signed_pre_index64
decode_pre_index_eq i = rw simm9 (ground (arith, mask_ldur i))

-- What a successful decoding of a signed field says of the test and of the field.
signed_some :
    (test : Bool) (low : ℕ) (off : ℤ)
    → low < 512
    → (if test then some (signed_field 8 low) else none) ≡ some off
    → (test ≡ true) × (Fits (2 ^ 8) off × (field 9 off ≡ low))
signed_some true low off h e =
    let is : signed_field 8 low ≡ off = some-injective _ _ e in
    (refl, rw (← is) (signed_field-Fits 8 low h, field-signed_field 8 low h))
signed_some false low off h e = absurd (none-ne-some e)

-- For a 32-bit instruction and a register below 32 the decoder returns an offset exactly when the
-- instruction is a 64-bit LDUR from that register with that signed offset of 9 bits.
pub decode_ldur64_iff :
    (i base : ℕ) (off : ℤ)
    → i < 2 ^ 32
    → base < 32
    → (decode_ldur64 i base true ≡ some off)
      ↔ ((rt : ℕ) × (rt < 32) × Fits (2 ^ 8) off × (i ≡ ldur rt base off))
decode_ldur64_iff i base off h hb = (
  λ e.
      let parts = rw decode_ldur_eq at e in
      let (value, word) =
        signed_some (i / 2 ^ 21 % 2048 == 0x7c2 && (i / 2 ^ 10 % 4 == 0 && i / 2 ^ 5 % 32 == base))
          (i / 2 ^ 12 % 512) off (omega arith) parts in
      (i % 32, omega arith, word.0, ground (arith, word.1)),
  λ (rt, hr, f, word).
      let low = field-lt 8 off f in
      let held : i / 2 ^ 12 % 512 ≡ field 9 off = omega arith in
      rw (decode_ldur_eq, held, signed_field-field 8 off f) (ground arith),
)

-- For a 32-bit instruction the decoder returns an offset exactly when the instruction is a 64-bit
-- pre-indexed LDR with that signed offset of 9 bits.
pub decode_ldr_signed_pre_index64_iff :
    (i : ℕ) (off : ℤ)
    → i < 2 ^ 32
    → (decode_ldr_signed_pre_index64 i true ≡ some off)
      ↔ ((rt rn : ℕ) × (rt < 32) × (rn < 32) × Fits (2 ^ 8) off × (i ≡ ldr_pre_index rt rn off))
decode_ldr_signed_pre_index64_iff i off h = (
  λ e.
      let parts = rw decode_pre_index_eq at e in
      let (value, word) =
        signed_some (i / 2 ^ 21 % 2048 == 0x7c2 && i / 2 ^ 10 % 4 == 3) (i / 2 ^ 12 % 512) off
          (omega arith) parts in
      (i % 32, i / 2 ^ 5 % 32, omega arith, omega arith, word.0, ground (arith, word.1)),
  λ (rt, rn, hr, hn, f, word).
      let low = field-lt 8 off f in
      let held : i / 2 ^ 12 % 512 ≡ field 9 off = omega arith in
      rw (decode_pre_index_eq, held, signed_field-field 8 off f) (ground arith),
)

-- For a 32-bit instruction and a register below 32 each of the three decoders of loads returns an
-- offset exactly when the instruction is that load with that offset: a 64-bit LDR from the register
-- with a scaled unsigned offset, a 64-bit LDUR from it with a signed offset of 9 bits, and a 64-bit
-- pre-indexed LDR with a signed offset of 9 bits.
pub decode_loads_iff :
    (i base scaled : ℕ) (off : ℤ)
    → i < 2 ^ 32
    → base < 32
    → ((decode_ldr_unsigned64 i base true ≡ some scaled) ↔ (
        (rt imm12 : ℕ) × (rt < 32)
        × (imm12 < 2 ^ 12)
        × (i ≡ ldr_unsigned rt base imm12)
        × (scaled ≡ imm12 * 8)))
      × ((decode_ldur64 i base true ≡ some off)
          ↔ ((rt : ℕ) × (rt < 32) × Fits (2 ^ 8) off × (i ≡ ldur rt base off)))
      × ((decode_ldr_signed_pre_index64 i true ≡ some off) ↔ (
          (rt rn : ℕ) × (rt < 32) × (rn < 32) × Fits (2 ^ 8) off × (i ≡ ldr_pre_index rt rn off)))
decode_loads_iff i base scaled off h hb = (
  decode_ldr_unsigned64_iff i base scaled h hb,
  decode_ldur64_iff i base off h hb,
  decode_ldr_signed_pre_index64_iff i off h,
)
