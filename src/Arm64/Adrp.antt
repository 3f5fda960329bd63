-- ===== src/Arm64/Adrp.antt =====
-- `RorkHookDecodeADRP` of RorkHookArm64.c against the encoding of `ADRP` and its page.
use rork_hook.Base.{
  ℕ, ◌+◌, ◌*◌, ◌/◌, ◌%◌, ◌^◌, ◌<◌, ◌≡◌, Bool, sym, ap, ◌∙◌, true, false, Option, none, some, arith,
  ◌==◌, neb, ◌&&◌, if◌then◌else◌, ◌>>=◌, bit_and, bit_or, Bool-cases, inl, inr, none-ne-some,
}
use rork_hook.Base.Int.{ℤ, pos, negsuc, ◌+ℤ◌, ◌*ℤ◌, Fits}
use rork_hook.Base.Bits.{bit_and_mask, bit_or_disjoint}
use rork_hook.Arm64.{decode_adrp, sign_extend, add_signed_offset}
use rork_hook.Arm64.Offset.{as_address, add_signed_offset-as_address}
use rork_hook.Arm64.SignExtend.{signed_field, sign_extend-signed_field}
use rork_hook.Arm64.Masks.{mask_adrp, mask_page}
use rork_hook.Arm64.Encoding.{
  adrp, adrp_fields, field, signed_field-field, field-signed_field, signed_field-Fits, field-lt,
}

-- The page that lies `pages` pages from the page of `pc`.
abbrev pub page_at : (pc : ℕ) (pages : ℤ) → Option ℕ
page_at pc pages = as_address (pos (pc / 4096 * 4096) +ℤ pages *ℤ 4096)

abbrev imm_of : ℕ → ℕ
imm_of i = i / 2 ^ 5 % 2 ^ 19 * 4 + i / 2 ^ 29 % 4

imm_bits :
    (i : ℕ) → bit_or (bit_and (i / 2 ^ 5) 0x7ffff * 2 ^ 2) (bit_and (i / 2 ^ 29) 0x3) ≡ imm_of i
imm_bits i = ground (
  arith,
  bit_and_mask 19 (i / 2 ^ 5),
  bit_and_mask 2 (i / 2 ^ 29),
  bit_or_disjoint 2 (i / 2 ^ 5 % 2 ^ 19) (i / 2 ^ 29 % 4),
)

low_imm : (i : ℕ) → imm_of i % 2 ^ 21 ≡ imm_of i
low_imm i = omega arith

pages_of : (i : ℕ) → sign_extend (imm_of i) (pos 21) ≡ signed_field 20 (imm_of i)
pages_of i = sign_extend-signed_field 20 (imm_of i) (omega arith) ∙ ap (signed_field 20) (low_imm i)

scaled-Fits : (pages : ℤ) → Fits (2 ^ 20) pages → Fits (2 ^ 63) (pages *ℤ 4096)
scaled-Fits (pos n) f = ground arith
scaled-Fits (negsuc n) f = ground arith

page_bits :
    (pc : ℕ) (pages : ℤ)
    → pc < 2 ^ 64
    → Fits (2 ^ 20) pages
    → add_signed_offset true (bit_and pc 0xfffffffffffff000) (pages *ℤ 4096) ≡ page_at pc pages
page_bits pc pages h f =
    ap (λ base. add_signed_offset true base (pages *ℤ 4096)) (mask_page pc ∙ page_of)
    ∙ add_signed_offset-as_address _ _ (omega arith) (scaled-Fits pages f)
  where
    page_of : pc / 2 ^ 12 % 2 ^ 52 * 2 ^ 12 ≡ pc / 4096 * 4096
    page_of = omega arith

abbrev is_adrp : ℕ → Bool
is_adrp i = i / 2 ^ 31 % 2 == 1 && i / 2 ^ 24 % 32 == 16

opcode_test : (i : ℕ) → neb (bit_and i 0x9f000000) 0x90000000 ≡ (if is_adrp i then false else true)
opcode_test i = rw mask_adrp (ground arith)

register_bits : (i : ℕ) → bit_and i 0x1f % 256 ≡ i % 32
register_bits i = omega (arith, bit_and_mask 5 i)

-- The decoder in arithmetic form, on every word.
decode_adrp-eq :
    (i pc : ℕ)
    → pc < 2 ^ 64
    → decode_adrp true true i pc ≡ (
        if is_adrp i
        then (do page ← page_at pc (signed_field 20 (imm_of i)); some (i % 32, page))
        else none)
unfolding decode_adrp
decode_adrp-eq i pc h =
    rw
      (
        opcode_test i,
        imm_bits i,
        pages_of i,
        page_bits pc (signed_field 20 (imm_of i)) h (signed_field-Fits 20 (imm_of i) (omega arith)),
        register_bits i,
      )
      (elim (Bool-cases (is_adrp i)) [ inl e ↦ rw e | inr e ↦ rw e ])

pair_bind :
    (o : Option ℕ) (r rd page : ℕ)
    → ◌>>=◌ {B = ℕ × ℕ} o (λ p. some (r, p)) ≡ some (rd, page)
    → (o ≡ some page) × (r ≡ rd)
pair_bind none r rd page e = absurd (none-ne-some e)
pair_bind (some p) r rd page e = ground arith

refields : (i rd : ℕ) → i < 2 ^ 32 → is_adrp i ≡ true → i % 32 ≡ rd → i ≡ adrp_fields rd (imm_of i)
refields i rd h is e = ground arith

word_fields :
    (rd imm : ℕ)
    → rd < 32
    → imm < 2 ^ 21
    → (is_adrp (adrp_fields rd imm) ≡ true)
      × (imm_of (adrp_fields rd imm) ≡ imm)
      × (adrp_fields rd imm % 32 ≡ rd)
word_fields rd imm hr hi = (ground arith, omega arith, omega arith)

-- What the decoder accepts as ADRP is the encoding of the register that it returns and of a page
-- count of 21 signed bits, and the page that it returns is the page of the program counter moved by
-- that count without wrap-around. The instruction has 32 bits and the program counter 64.
pub decode_adrp-adrp :
    (i pc : ℕ) {rd page : ℕ}
    → i < 2 ^ 32
    → pc < 2 ^ 64
    → decode_adrp true true i pc ≡ some (rd, page)
    → (pages : ℤ) × Fits (2 ^ 20) pages
      × (rd < 32)
      × (i ≡ adrp rd pages)
      × (page_at pc pages ≡ some page)
decode_adrp-adrp i pc {rd} {page} h hp e = elim (Bool-cases (is_adrp i)) [
  | inl is ↦
      let (paged, named) =
        pair_bind (page_at pc (signed_field 20 (imm_of i))) (i % 32) rd page
          (rw (decode_adrp-eq i pc hp, is) at e) in
      (
        signed_field 20 (imm_of i),
        signed_field-Fits 20 (imm_of i) (omega arith),
        omega arith,
        refields i rd h is named
            ∙ ap (adrp_fields rd) (sym (field-signed_field 20 _ (omega arith))),
        paged,
      )
  | inr not_adrp ↦ absurd (none-ne-some (rw (decode_adrp-eq i pc hp, not_adrp) at e))
]

-- The decoder reads back an encoded ADRP of a register below 32 and a page count of 21 signed bits:
-- the register and the page, or nothing when the page is outside the 64-bit address space.
pub adrp-decode_adrp :
    (rd pc : ℕ) (pages : ℤ)
    → rd < 32
    → pc < 2 ^ 64
    → Fits (2 ^ 20) pages
    → decode_adrp true true (adrp rd pages) pc ≡ (do page ← page_at pc pages; some (rd, page))
adrp-decode_adrp rd pc pages hr hp f =
    let (is, imm, reg) = word_fields rd (field 21 pages) hr (field-lt 20 pages f) in
    rw (decode_adrp-eq (adrp rd pages) pc hp, is, imm, reg, signed_field-field 20 pages f)
