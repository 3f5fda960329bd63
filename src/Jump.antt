-- ===== src/Jump.antt =====
-- The absolute jump of Sources/RorkHook/RorkHookFunction.c, as it is built for arm64.
pub mod Encoded
pub mod Run
use rork_hook.Base.{
  ℕ, ◌/◌, Bool, not, ◌||◌, Option, none, some, List, [], ◌∷◌, ltb, ◌==◌, if◌then◌else◌, u16, u32,
  bit_and, bit_or, ◌<<<◌, ◌>>>◌,
}
use rork_hook.Space.{null}
use rork_hook.Platform.{Platform, strip_pointer}

abbrev pub absolute_jump_words : ℕ
absolute_jump_words = 5

unfoldable pub encode_movk : (destination_register immediate shift : ℕ) → ℕ
encode_movk destination_register immediate shift =
    let opcode : ℕ = 0xf2800000 in
    let halfword = u32 ((shift / 16) <<< 21) in
    let encoded_immediate = u32 (immediate <<< 5) in
    let destination = bit_and destination_register 0x1f in
    bit_or (bit_or (bit_or opcode halfword) encoded_immediate) destination

unfoldable pub encode_br : (source_register : ℕ) → ℕ
encode_br source_register =
    let opcode : ℕ = 0xd61f0000 in
    let source = u32 (bit_and source_register 0x1f <<< 5) in bit_or opcode source

-- The words that are stored; `none` is the result 0, for which nothing is stored.
unfoldable pub build_absolute_jump :
    Platform → (destination : ℕ) (instructions : Bool) (capacity : ℕ) → Option (List ℕ)
build_absolute_jump p destination instructions capacity =
    if destination == null || (not instructions || ltb capacity absolute_jump_words)
    then none
    else (let target = strip_pointer p destination in
        let scratch_register : ℕ = 16 in
        some (
          encode_movk scratch_register (u16 target) 0
          ∷ encode_movk scratch_register (u16 (target >>> 16)) 16
          ∷ encode_movk scratch_register (u16 (target >>> 32)) 32
          ∷ encode_movk scratch_register (u16 (target >>> 48)) 48
          ∷ encode_br scratch_register
          ∷ []))
