-- ===== src/Arm64/Branch.antt =====
-- `RorkHookFollowOneBranch` of RorkHookArm64.c against the encoding of `B`.
use rork_hook.Base.{
  ℕ, ◌/◌, ◌%◌, ◌^◌, ◌<◌, ◌≡◌, ◌≢◌, refl, ap, ◌∙◌, true, false, Option, none, some, arith, ◌==◌, neb,
  if◌then◌else◌, bit_and, Bool-cases, inl, inr,
}
use rork_hook.Base.Int.{ℤ, pos, negsuc, ◌+ℤ◌, ◌*ℤ◌, Fits}
use rork_hook.Base.Bits.{bit_and_mask}
use native.Mathlib.Nat.{mod-mod}
use rork_hook.Space.{Space, null, u32_at}
use rork_hook.Space.Reads.{IsReadable, read_u32-ok, u32_at-lt}
use rork_hook.Outcome.{Outcome, ok}
use rork_hook.Arm64.Veneer.{follow_one_branch}
use rork_hook.Arm64.{sign_extend}
use rork_hook.Arm64.Offset.{as_address, add_signed_offset-as_address}
use rork_hook.Arm64.Masks.{mask_branch}
use rork_hook.Arm64.SignExtend.{signed_field, sign_extend-signed_field}
use rork_hook.Arm64.Encoding.{
  b, field, signed_field-field, field-signed_field, signed_field-Fits, field-lt,
}

imm26 : (i : ℕ) → sign_extend (bit_and i 0x03ffffff) (pos 26) ≡ signed_field 25 (i % 2 ^ 26)
imm26 i = rw (bit_and_mask 26 i) (
    sign_extend-signed_field 25 (i % 2 ^ 26) (omega arith)
    ∙ ap (signed_field 25) (mod-mod i (2 ^ 26)))

words-Fits : (words : ℤ) → Fits (2 ^ 25) words → Fits (2 ^ 63) (words *ℤ 4)
words-Fits (pos n) f = ground arith
words-Fits (negsuc n) f = ground arith

-- The address to go on from, or `p` where it would lie outside the address space.
abbrev pub branch_target : (p : ℕ) → ℤ → ℕ
branch_target p words = elim (as_address (pos p +ℤ words *ℤ 4)) [ none ↦ p | some t ↦ t ]

not_null : (p : ℕ) → p ≢ null → (p == null) ≡ false
not_null p ne = ground arith

branch_test :
    (i : ℕ) → neb (bit_and i 0xfc000000) 0x14000000 ≡ (if i / 2 ^ 26 % 64 == 5 then false else true)
branch_test i = rw mask_branch (ground arith)

ok_target :
    (p : ℕ) (o : Option ℕ)
    → ◌≡◌ {A = Outcome ℕ}
        (elim o [ none ↦ ok p | some t ↦ ok t ])
        (ok (elim o [ none ↦ p | some t ↦ t ]))
ok_target p none = refl
ok_target p (some t) = refl

follow_eq :
    (m : Space) (p : ℕ)
    → p < 2 ^ 64
    → p ≢ null
    → IsReadable m p 4
    → follow_one_branch m p
      ≡ ok (
          if u32_at m p / 2 ^ 26 % 64 == 5
          then branch_target p (signed_field 25 (u32_at m p % 2 ^ 26))
          else p)
unfolding follow_one_branch
follow_eq m p h ne r =
    let i = u32_at m p in
    rw
      (
        not_null p ne,
        read_u32-ok m p r (omega arith) (omega arith),
        imm26 i,
        add_signed_offset-as_address p (signed_field 25 (i % 2 ^ 26) *ℤ 4) h
            (words-Fits _ (signed_field-Fits 25 (i % 2 ^ 26) (omega arith))),
        branch_test i,
      )
      (elim (Bool-cases (i / 2 ^ 26 % 64 == 5)) [
        | inl is ↦ rw is (ok_target p (as_address (pos p +ℤ signed_field 25 (i % 2 ^ 26) *ℤ 4)))
        | inr isnt ↦ rw isnt
      ])

follow_null : (m : Space) (p : ℕ) → (p == null) ≡ true → follow_one_branch m p ≡ ok p
unfolding follow_one_branch
follow_null m p e = rw e

b_of : (i : ℕ) → i < 2 ^ 32 → (i / 2 ^ 26 % 64 == 5) ≡ true → i ≡ b (signed_field 25 (i % 2 ^ 26))
b_of i h e = ground (arith, field-signed_field 25 (i % 2 ^ 26) (omega arith))

-- At a readable, non-null 64-bit address of the instruction B with a signed offset of 26 bits the
-- target of the branch is returned, or the address itself when the target is outside the address
-- space.
pub follow_one_branch-b :
    (m : Space) (p : ℕ) (words : ℤ)
    → p < 2 ^ 64
    → p ≢ null
    → IsReadable m p 4
    → Fits (2 ^ 25) words
    → u32_at m p ≡ b words
    → follow_one_branch m p ≡ ok (branch_target p words)
follow_one_branch-b m p words h ne r f e =
    let low = field-lt 25 words f in
    let opcode : (u32_at m p / 2 ^ 26 % 64 == 5) ≡ true = ground arith in
    let held : u32_at m p % 2 ^ 26 ≡ field 26 words = omega arith in
    rw (follow_eq m p h ne r, opcode, held, signed_field-field 25 words f)

-- At a readable 64-bit address of an instruction that is no B the address itself is returned.
pub follow_one_branch_other :
    (m : Space) (p : ℕ)
    → p < 2 ^ 64
    → IsReadable m p 4
    → ((words : ℤ) → Fits (2 ^ 25) words → u32_at m p ≢ b words)
    → follow_one_branch m p ≡ ok p
follow_one_branch_other m p h r other = elim (Bool-cases (p == null)) [
  | inl is_null ↦ follow_null m p is_null
  | inr nonnull ↦
      let i = u32_at m p in
      rw (follow_eq m p h (ground arith) r) (elim (Bool-cases (i / 2 ^ 26 % 64 == 5)) [
        | inl opcode ↦
            let low : i % 2 ^ 26 < 2 ^ 26 = omega arith in
            absurd (
              other (signed_field 25 (i % 2 ^ 26)) (signed_field-Fits 25 (i % 2 ^ 26) low)
                (b_of i (u32_at-lt m p) opcode))
        | inr isnt ↦ rw isnt
      ])
]
