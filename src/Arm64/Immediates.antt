-- ===== src/Arm64/Immediates.antt =====
-- `RorkHookDecodeADDImmediate` and `RorkHookDecodeMOVZImmediate` against the encodings.
use rork_hook.Base.{
  ℕ, zero, suc, ◌*◌, ◌/◌, ◌%◌, ◌^◌, ◌<◌, ◌≡◌, ◌↔◌, true, none, some, arith, ◌==◌, ◌&&◌,
  if◌then◌else◌,
}
use rork_hook.Base.Bits.{bit_and_mask}
use rork_hook.Arm64.{decode_add_immediate, decode_movz_immediate}
use rork_hook.Arm64.Masks.{mask_add}
use rork_hook.Arm64.Encoding.{add_immediate, movz}

-- `off` is the offset of an `ADD` of an immediate to `base`.
abbrev pub IsAdd : (instruction base off : ℕ) → Type 0
IsAdd i base off =
    (imm12 sh : ℕ) × (imm12 < 2 ^ 12)
    × (sh < 2)
    × (i ≡ add_immediate base base imm12 sh)
    × (off ≡ (if sh == 1 then imm12 * 2 ^ 12 else imm12))

decode_add_eq :
    (i base : ℕ)
    → decode_add_immediate i base true ≡ (
        if i / 2 ^ 23 % 512 == 0x122 && (i % 32 == base && i / 2 ^ 5 % 32 == base)
        then some (if i / 2 ^ 22 % 4 == 1 then i / 2 ^ 10 % 4096 * 4096 else i / 2 ^ 10 % 4096)
        else none)
unfolding decode_add_immediate
decode_add_eq i base = ground (
  arith,
  mask_add i,
  bit_and_mask 5 i,
  bit_and_mask 5 (i / 2 ^ 5),
  bit_and_mask 12 (i / 2 ^ 10),
  bit_and_mask 2 (i / 2 ^ 22),
)

-- For a 32-bit instruction and a register below 32 the decoder returns an offset exactly when the
-- instruction is ADD (immediate) from that register, with or without the shift by 12, of that
-- offset.
pub decode_add_immediate_iff :
    (i base off : ℕ)
    → i < 2 ^ 32
    → base < 32
    → (decode_add_immediate i base true ≡ some off) ↔ IsAdd i base off
decode_add_immediate_iff i base off h hb = (
  λ e.
      let parts = rw decode_add_eq at e in
      (i / 2 ^ 10 % 4096, i / 2 ^ 22 % 4, omega arith, ground arith, ground arith, ground arith),
  λ (imm12, sh, hi, hs, word, offset). rw decode_add_eq (ground arith),
)

-- `value` is what a `MOVZ` of 64 bits loads.
abbrev pub IsMovz : (instruction value : ℕ) → Type 0
IsMovz i value =
    (rd imm16 hw : ℕ) × (rd < 32)
    × (imm16 < 2 ^ 16)
    × (hw < 4)
    × (i ≡ movz rd imm16 hw)
    × (value ≡ imm16 * 2 ^ (16 * hw))

decode_movz_eq :
    (i : ℕ)
    → decode_movz_immediate i true ≡ (
        if i / 2 ^ 23 % 512 == 0x1a5
        then some (i / 2 ^ 5 % 2 ^ 16 * 2 ^ (i / 2 ^ 21 % 4 * 16) % 2 ^ 64)
        else none)
unfolding decode_movz_immediate
decode_movz_eq i =
    ground (arith, mask_add i, bit_and_mask 16 (i / 2 ^ 5), bit_and_mask 2 (i / 2 ^ 21))

lane : (x hw : ℕ) → x < 2 ^ 16 → hw < 4 → x * 2 ^ (hw * 16) % 2 ^ 64 ≡ x * 2 ^ (16 * hw)
lane x zero h l = omega arith
lane x (suc zero) h l = omega arith
lane x (suc (suc zero)) h l = omega arith
lane x (suc (suc (suc zero))) h l = omega arith
lane x (suc (suc (suc (suc hw)))) h l = absurd (omega arith)

-- For a 32-bit instruction the decoder returns a value exactly when the instruction is a 64-bit
-- MOVZ that loads the value.
pub decode_movz_immediate_iff :
    (i value : ℕ) → i < 2 ^ 32 → (decode_movz_immediate i true ≡ some value) ↔ IsMovz i value
decode_movz_immediate_iff i value h = (
  λ e.
      let parts = rw decode_movz_eq at e in
      let shifted = lane (i / 2 ^ 5 % 2 ^ 16) (i / 2 ^ 21 % 4) (omega arith) (omega arith) in
      (
        i % 32,
        i / 2 ^ 5 % 2 ^ 16,
        i / 2 ^ 21 % 4,
        omega arith,
        omega arith,
        omega arith,
        ground arith,
        ground (arith, shifted),
      ),
  λ (rd, imm16, hw, hr, hi, hh, word, loads).
      let low : i / 2 ^ 5 % 2 ^ 16 ≡ imm16 = omega arith in
      let top : i / 2 ^ 21 % 4 ≡ hw = omega arith in
      rw decode_movz_eq (rw (low, top) (ground (arith, lane imm16 hw hi hh))),
)
