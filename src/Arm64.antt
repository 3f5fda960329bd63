-- ===== src/Arm64.antt =====
-- Sources/RorkHook/RorkHookArm64.c: the decoders of the instruction subset that dyld's stubs use.
-- An output pointer is `true` where the caller passed a place for the result and `false` where it
-- passed NULL; what the source writes there is the value that is returned, and `none` is `false`.
pub mod Offset
pub mod SignExtend
pub mod Masks
pub mod Encoding
pub mod Adrp
pub mod Immediates
pub mod Loads
pub mod Veneer
pub mod Branch
use rork_hook.Base.{
  ℕ, ◌+◌, ◌-◌, ◌*◌, ◌^◌, Bool, true, not, ◌||◌, Option, none, some, bit_and, bit_or, bit_xor, ltb,
  ◌==◌, neb, if◌then◌else◌, ◌>>=◌, ◌>>◌, u8, u64, u64_max, ◌<<<◌, ◌>>>◌, not64,
}
use rork_hook.Base.Int.{ℤ, pos, negsuc, ◌*ℤ◌}

-- `base + offset` when it is an address. A negative offset -(n + 1) has the magnitude n + 1.
unfoldable pub add_signed_offset : (result_out : Bool) → ℕ → ℤ → Option ℕ
add_signed_offset result_out base (negsuc n) =
    let magnitude = u64 (n + 1) in
    if not result_out || (ltb u64_max magnitude || ltb base magnitude)
    then none
    else some (base - magnitude)
add_signed_offset result_out base (pos magnitude) =
    if not result_out || (ltb u64_max magnitude || ltb (u64_max - magnitude) base)
    then none
    else some (base + magnitude)

-- The cast `(int64_t)value`.
abbrev pub int64 : ℕ → ℤ
int64 value = if ltb value (2 ^ 63) then pos value else negsuc (u64_max - value)

-- `value &= (1ULL << bits) - 1`, and `(value ^ signBit) - signBit` at 64 bits.
unfoldable pub sign_extend : ℕ → ℤ → ℤ
sign_extend value (negsuc n) = pos 0
sign_extend value (pos bits) =
    if bits == 0 || ltb 64 bits
    then pos 0
    else if bits == 64
    then int64 value
    else let low = bit_and value (2 ^ bits - 1) in
      let sign_bit = 2 ^ (bits - 1) in int64 (u64 (bit_xor low sign_bit + 2 ^ 64 - sign_bit))

-- The destination register and the page of an `ADRP`.
unfoldable pub decode_adrp :
    (target_register page_address : Bool) (instruction pc : ℕ) → Option (ℕ × ℕ)
decode_adrp target_register page_address instruction pc =
    if not target_register || (not page_address || neb (bit_and instruction 0x9f000000) 0x90000000)
    then none
    else let immlo = bit_and (instruction >>> 29) 0x3 in
      let immhi = bit_and (instruction >>> 5) 0x7ffff in
      let signed_pages = sign_extend (bit_or (immhi <<< 2) immlo) (pos 21) in
      do
        decoded_page ← add_signed_offset true (bit_and pc (not64 0xfff)) (signed_pages *ℤ 4096)
        some (u8 (bit_and instruction 0x1f), decoded_page)

-- The immediate of an `ADD` whose source and destination are the base register.
unfoldable pub decode_add_immediate : (instruction base_register : ℕ) (offset : Bool) → Option ℕ
decode_add_immediate instruction base_register offset =
    let destination = u8 (bit_and instruction 0x1f) in
    let source = u8 (bit_and (instruction >>> 5) 0x1f) in
    let imm12 = bit_and (instruction >>> 10) 0xfff in
    let shift = bit_and (instruction >>> 22) 0x3 in
    if not offset || neb (bit_and instruction 0xff800000) 0x91000000
    then none
    else if neb destination base_register || neb source base_register
    then none
    else some (if shift == 1 then u64 (imm12 <<< 12) else imm12)

unfoldable pub decode_ldr_unsigned64 : (instruction base_register : ℕ) (offset : Bool) → Option ℕ
decode_ldr_unsigned64 instruction base_register offset =
    let source = u8 (bit_and (instruction >>> 5) 0x1f) in
    let imm12 = bit_and (instruction >>> 10) 0xfff in
    if not offset || neb (bit_and instruction 0xffc00000) 0xf9400000
    then none
    else if neb source base_register
    then none
    else some (u64 (imm12 <<< 3))

pub decode_ldr_unsigned_offset64 : (instruction : ℕ) (offset : Bool) → Option ℕ
decode_ldr_unsigned_offset64 instruction offset =
    let imm12 = bit_and (instruction >>> 10) 0xfff in
    if not offset || neb (bit_and instruction 0xffc00000) 0xf9400000
    then none
    else some (u64 (imm12 <<< 3))

unfoldable pub decode_ldr_signed_pre_index64 : (instruction : ℕ) (offset : Bool) → Option ℤ
decode_ldr_signed_pre_index64 instruction offset =
    let imm9 = bit_and (instruction >>> 12) 0x1ff in
    if not offset || neb (bit_and instruction 0xffe00c00) 0xf8400c00
    then none
    else some (sign_extend imm9 (pos 9))

unfoldable pub decode_ldur64 : (instruction base_register : ℕ) (offset : Bool) → Option ℤ
decode_ldur64 instruction base_register offset =
    let source = u8 (bit_and (instruction >>> 5) 0x1f) in
    let imm9 = bit_and (instruction >>> 12) 0x1ff in
    if not offset || neb (bit_and instruction 0xffe00c00) 0xf8400000
    then none
    else if neb source base_register
    then none
    else some (sign_extend imm9 (pos 9))

unfoldable pub decode_movz_immediate : (instruction : ℕ) (value : Bool) → Option ℕ
decode_movz_immediate instruction value =
    let imm16 = bit_and (instruction >>> 5) 0xffff in
    let shift = bit_and (instruction >>> 21) 0x3 * 16 in
    if not value || neb (bit_and instruction 0xff800000) 0xd2800000
    then none
    else some (u64 (imm16 <<< shift))
