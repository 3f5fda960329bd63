-- ===== src/Arm64/Veneer.antt =====
-- `RorkHookFollowOneBranch` of RorkHookArm64.c, which reads the first instruction from memory.
use rork_hook.Base.{ℕ, true, none, some, bit_and, ◌==◌, neb, if◌then◌else◌}
use rork_hook.Base.Int.{pos, ◌*ℤ◌}
use rork_hook.Outcome.{Outcome, ok, ◌>>=◌}
use rork_hook.Space.{Space, null, read_u32}
use rork_hook.Arm64.{add_signed_offset, sign_extend}

-- The target of a leading `B`, or the argument itself.
unfoldable pub follow_one_branch : Space → ℕ → Outcome ℕ
follow_one_branch m instructions = if instructions == null then ok instructions else do
  instruction ← read_u32 m instructions
  let imm26 = sign_extend (bit_and instruction 0x03ffffff) (pos 26)
  if neb (bit_and instruction 0xfc000000) 0x14000000
      then ok instructions
      else elim (add_signed_offset true instructions (imm26 *ℤ 4)) [
        | none ↦ ok instructions
        | some target ↦ ok target
      ]
