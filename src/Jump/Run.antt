-- ===== src/Jump/Run.antt =====
-- The words of `RorkHookBuildAbsoluteJump` against the meaning of `MOVK` and `BR`.
use rork_hook.Base.{
  ℕ, ◌+◌, ◌-◌, ◌*◌, ◌/◌, ◌%◌, ◌^◌, ◌≤◌, ◌<◌, ◌≡◌, ◌≢◌, refl, arith, true, false, ◌&&◌, not, ◌||◌,
  Option, none, some, List, [], ◌∷◌, ltb, ◌==◌, if◌then◌else◌, length, ap,
}
use rork_hook.Space.{null}
use rork_hook.Platform.{Platform, strip_pointer}
use rork_hook.Arm64.Encoding.{movk, br}
use rork_hook.Jump.{build_absolute_jump}
use rork_hook.Jump.Encoded.{encode_movk-movk, encode_br-br}

-- One 16-bit lane of a register replaced.
abbrev pub lane : (x imm hw : ℕ) → ℕ
lane x imm hw = x - x / 2 ^ (16 * hw) % 2 ^ 16 * 2 ^ (16 * hw) + imm * 2 ^ (16 * hw)

abbrev pub written : (registers : ℕ → ℕ) (r v : ℕ) → ℕ → ℕ
written registers r v x = if x == r then v else registers x

-- The target of the branch that the words reach. Only MOVK and BR have a meaning here.
unfoldable pub branches_to : List ℕ → (registers : ℕ → ℕ) → Option ℕ
branches_to [] registers = none
branches_to (w ∷ ws) registers =
    let further = branches_to ws (
      written registers (w % 32)
        (lane (registers (w % 32)) (w / 2 ^ 5 % 2 ^ 16) (w / 2 ^ 21 % 4))) in
    if w / 2 ^ 23 == 0x1e5
    then further
    else if w / 2 ^ 10 == 0x3587c0 && w % 32 == 0
    then some (registers (w / 2 ^ 5 % 32))
    else none

branches_to-movk :
    (rd imm hw : ℕ) (ws : List ℕ) (registers : ℕ → ℕ)
    → rd < 32
    → imm < 2 ^ 16
    → hw < 4
    → branches_to (movk rd imm hw ∷ ws) registers
      ≡ branches_to ws (written registers rd (lane (registers rd) imm hw))
unfolding branches_to
branches_to-movk rd imm hw ws registers a b c =
    let w = movk rd imm hw in
    let opcode : (w / 2 ^ 23 == 0x1e5) ≡ true = ground arith in
    let register : w % 32 ≡ rd = omega arith in
    let immediate : w / 2 ^ 5 % 2 ^ 16 ≡ imm = omega arith in
    let halfword : w / 2 ^ 21 % 4 ≡ hw = omega arith in
    rw (opcode, register, immediate, halfword) refl

-- All four lanes written, in order.
four_lanes :
    (x t : ℕ)
    → x < 2 ^ 64
    → t < 2 ^ 64
    → lane
        (lane (lane (lane x (t % 2 ^ 16) 0) (t / 2 ^ 16 % 2 ^ 16) 1) (t / 2 ^ 32 % 2 ^ 16) 2)
        (t / 2 ^ 48 % 2 ^ 16)
        3
      ≡ t
four_lanes x t h k = omega arith

-- The five instructions for a destination.
abbrev pub jump_to : ℕ → List ℕ
jump_to t =
    movk 16 (t % 2 ^ 16) 0
    ∷ movk 16 (t / 2 ^ 16 % 2 ^ 16) 1
    ∷ movk 16 (t / 2 ^ 32 % 2 ^ 16) 2
    ∷ movk 16 (t / 2 ^ 48 % 2 ^ 16) 3
    ∷ br 16
    ∷ []

pub build_absolute_jump-jump_to :
    (p : Platform) (destination capacity : ℕ)
    → destination ≢ null
    → 5 ≤ capacity
    → build_absolute_jump p destination true capacity ≡ some (jump_to (strip_pointer p destination))
unfolding build_absolute_jump
build_absolute_jump-jump_to p destination capacity ne room =
    let t = strip_pointer p destination in
    let given : (destination == null || (not true || ltb capacity 5)) ≡ false = ground arith in
    rw
      (
        given,
        encode_movk-movk 16 (t % 2 ^ 16) 0 (omega arith) (omega arith) (omega arith),
        encode_movk-movk 16 (t / 2 ^ 16 % 2 ^ 16) 1 (omega arith) (omega arith) (omega arith),
        encode_movk-movk 16 (t / 2 ^ 32 % 2 ^ 16) 2 (omega arith) (omega arith) (omega arith),
        encode_movk-movk 16 (t / 2 ^ 48 % 2 ^ 16) 3 (omega arith) (omega arith) (omega arith),
        encode_br-br 16 (omega arith),
      )
      refl

jump_to-branches_to :
    (t : ℕ) (registers : ℕ → ℕ)
    → t < 2 ^ 64
    → registers 16 < 2 ^ 64
    → branches_to (jump_to t) registers ≡ some t
unfolding branches_to
jump_to-branches_to t registers word held =
    rw
      (
        branches_to-movk 16 (t % 2 ^ 16) 0 _ registers (omega arith) (omega arith) (omega arith),
        branches_to-movk 16 (t / 2 ^ 16 % 2 ^ 16) 1 _ _ (omega arith) (omega arith) (omega arith),
        branches_to-movk 16 (t / 2 ^ 32 % 2 ^ 16) 2 _ _ (omega arith) (omega arith) (omega arith),
        branches_to-movk 16 (t / 2 ^ 48 % 2 ^ 16) 3 _ _ (omega arith) (omega arith) (omega arith),
      )
      (ap some (four_lanes (registers 16) t held word))

-- For a destination that is not null, a capacity of five words and more, a stripped destination of
-- 64 bits and any registers of which x16 holds 64 bits, exactly five words are built, and a
-- processor that runs them as MOVK and BR branches to the stripped destination.
pub build_absolute_jump-branches_to :
    (p : Platform) (destination capacity : ℕ) (registers : ℕ → ℕ)
    → destination ≢ null
    → 5 ≤ capacity
    → strip_pointer p destination < 2 ^ 64
    → registers 16 < 2 ^ 64
    → (words : List ℕ) × (build_absolute_jump p destination true capacity ≡ some words)
      × (length words ≡ 5)
      × (branches_to words registers ≡ some (strip_pointer p destination))
build_absolute_jump-branches_to p destination capacity registers ne room word held =
    let t = strip_pointer p destination in
    (
      jump_to t,
      build_absolute_jump-jump_to p destination capacity ne room,
      refl,
      jump_to-branches_to t registers word held,
    )
