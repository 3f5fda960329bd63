-- ===== src/Tests/CodeRuns.antt =====
-- Runs of the decoders, the slide arithmetic and the ranges.
use rork_hook.Base.{
  ℕ, ◌+◌, ◌*◌, ◌%◌, ◌^◌, ◌≤◌, ◌<◌, ◌≡◌, ◌≢◌, ◌↔◌, refl, arith, true, [], ◌∷◌, some, ◌>>=◌,
}
use rork_hook.Base.Int.{ℤ, pos, negsuc, neg_part, pos_part, ◌+ℤ◌, Fits}
use rork_hook.Outcome.{ok}
use rork_hook.Space.{Space, u32_at, readable_range, readable}
use rork_hook.Space.Reads.{IsReadable, IsReadable-of_range, IsReadable-part}
use rork_hook.Arm64.{
  add_signed_offset, sign_extend, decode_adrp, decode_add_immediate, decode_ldr_unsigned64,
  decode_ldr_signed_pre_index64, decode_ldur64, decode_movz_immediate,
}
use rork_hook.Arm64.Veneer.{follow_one_branch}
use rork_hook.Arm64.Offset.{as_address, add_signed_offset-as_address}
use rork_hook.Arm64.SignExtend.{sign_extend_lem}
use rork_hook.Arm64.Encoding.{adrp, ldr_unsigned, ldr_pre_index, ldur, b}
use rork_hook.Arm64.Adrp.{page_at, decode_adrp-adrp, adrp-decode_adrp}
use rork_hook.Arm64.Immediates.{IsAdd, decode_add_immediate_iff, IsMovz, decode_movz_immediate_iff}
use rork_hook.Arm64.Loads.{decode_loads_iff}
use rork_hook.Arm64.Branch.{branch_target, follow_one_branch-b}
use rork_hook.Symbols.{range_is_valid}
use rork_hook.Symbols.Ranges.{range_is_valid_iff}
use rork_hook.Tests.Bytes.{space_of}

add_signed_offset-as_address_example :
    add_signed_offset true 0x1000 (negsuc 15) ≡ as_address (pos 0x1000 +ℤ negsuc 15)
add_signed_offset-as_address_example =
    add_signed_offset-as_address 0x1000 (negsuc 15) (omega arith) (omega arith, omega arith)

sign_extend_lem_example :
    let r = sign_extend 0x1ff (pos 9) in
    Fits (2 ^ 8) r × ((0x1ff + neg_part r) % 2 ^ 9 ≡ pos_part r % 2 ^ 9)
sign_extend_lem_example = sign_extend_lem 8 0x1ff (omega arith) (omega arith)

-- ADRP X3, #1 at 0x4abc names the page 0x5000.
adrp-decode_adrp_example :
    decode_adrp true true (adrp 3 (pos 1)) 0x4abc
    ≡ (do page ← page_at 0x4abc (pos 1); some (3, page))
adrp-decode_adrp_example =
    adrp-decode_adrp 3 0x4abc (pos 1) (omega arith) (omega arith) (omega arith, omega arith)

decoded : decode_adrp true true 0xb0000003 0x4abc ≡ some (3, 0x5000)
unfolding decode_adrp sign_extend add_signed_offset
decoded = refl

decode_adrp-adrp_example :
    (pages : ℤ) × Fits (2 ^ 20) pages
    × (3 < 32)
    × (0xb0000003 ≡ adrp 3 pages)
    × (page_at 0x4abc pages ≡ some 0x5000)
decode_adrp-adrp_example =
    decode_adrp-adrp 0xb0000003 0x4abc {rd = 3} {page = 0x5000} (omega arith) (omega arith) decoded

decode_add_immediate_iff_example :
    (decode_add_immediate 0x91004021 1 true ≡ some 16) ↔ IsAdd 0x91004021 1 16
decode_add_immediate_iff_example =
    decode_add_immediate_iff 0x91004021 1 16 (omega arith) (omega arith)

decode_movz_immediate_iff_example :
    (decode_movz_immediate 0xd2a00025 true ≡ some 0x10000) ↔ IsMovz 0xd2a00025 0x10000
decode_movz_immediate_iff_example = decode_movz_immediate_iff 0xd2a00025 0x10000 (omega arith)

-- The loads are read back: each of the last three words decodes.
loads_decode :
    (decode_ldr_unsigned64 0xf9400821 1 true ≡ some 16)
    × (decode_ldur64 0xf85f8021 1 true ≡ some (negsuc 7))
    × (decode_ldr_signed_pre_index64 0xf85f8c22 true ≡ some (negsuc 7))
unfolding decode_ldr_unsigned64 decode_ldur64 decode_ldr_signed_pre_index64 sign_extend
loads_decode = (refl, refl, refl)

-- `B` back by two words, and a `RET`.
abbrev code : Space
code = space_of 0x1000 8 5 (0xfe ∷ 0xff ∷ 0xff ∷ 0x17 ∷ 0xc0 ∷ 0x03 ∷ 0x5f ∷ 0xd6 ∷ [])

code-IsReadable : IsReadable code 0x1000 8
unfolding readable_range readable
code-IsReadable = IsReadable-of_range code 0x1000 8 refl

code_words : (u32_at code 0x1000 ≡ b (negsuc 1)) × (u32_at code 0x1004 ≡ 0xd65f03c0)
unfolding u32_at
code_words = (refl, refl)

follow_one_branch-b_example : follow_one_branch code 0x1000 ≡ ok (branch_target 0x1000 (negsuc 1))
follow_one_branch-b_example =
    follow_one_branch-b code 0x1000 (negsuc 1) (omega arith) (λ e. omega (arith, e))
      (IsReadable-part 0x1000 4 code-IsReadable (omega arith) (omega arith))
      (omega arith, omega arith) code_words.0

no_branch : (words : ℤ) → Fits (2 ^ 25) words → u32_at code 0x1004 ≢ b words
no_branch (pos n) f e = omega (arith, code_words.1)
no_branch (negsuc n) f e = omega (arith, code_words.1)

range_is_valid_iff_example : (range_is_valid 200 40 240 ≡ true) ↔ (200 + 40 ≤ 240)
range_is_valid_iff_example = range_is_valid_iff 200 40 240

decode_loads_iff_example :
    ((decode_ldr_unsigned64 0xf9400821 1 true ≡ some 16) ↔ (
      (rt imm12 : ℕ) × (rt < 32)
      × (imm12 < 2 ^ 12)
      × (0xf9400821 ≡ ldr_unsigned rt 1 imm12)
      × (16 ≡ imm12 * 8)))
    × ((decode_ldur64 0xf9400821 1 true ≡ some (negsuc 7))
        ↔ ((rt : ℕ) × (rt < 32) × Fits (2 ^ 8) (negsuc 7) × (0xf9400821 ≡ ldur rt 1 (negsuc 7))))
    × ((decode_ldr_signed_pre_index64 0xf9400821 true ≡ some (negsuc 7)) ↔ (
        (rt rn : ℕ) × (rt < 32)
        × (rn < 32)
        × Fits (2 ^ 8) (negsuc 7)
        × (0xf9400821 ≡ ldr_pre_index rt rn (negsuc 7))))
decode_loads_iff_example = decode_loads_iff 0xf9400821 1 16 (negsuc 7) (omega arith) (omega arith)
