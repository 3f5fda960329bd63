-- ===== src/Space/Write.antt =====
-- Stores, and the permission for them.
use mathlib.Core.Path.{subst}
use rork_hook.Base.{
  ℕ, zero, suc, ◌+◌, ◌-◌, ◌/◌, ◌%◌, ◌^◌, ◌≤◌, ◌<◌, ◌≡◌, refl, arith, Bool, true, false, none, some,
  List, [], ◌∷◌, ltb, leb, ◌&&◌, if◌then◌else◌, length, Bool-cases, inl, inr, u8, ap, ◌∙◌,
}
use rork_hook.Outcome.{Outcome, access}
use rork_hook.Space.{Space, has, vm_prot_write, byte_at}

unfoldable pub writable : Space → ℕ → Bool
writable m a = elim (m.protection a) [ none ↦ false | some p ↦ has p vm_prot_write ]

unfoldable pub writable_range : Space → ℕ → ℕ → Bool
writable_range m a zero = true
writable_range m a (suc n) = writable m a && writable_range m (a + 1) n

-- The permission to write `n` bytes at `a`.
unfoldable pub can_write : Space → ℕ → ℕ → Outcome (Unit {0})
can_write m a n = access (writable_range m a n)

abbrev pub item : List ℕ → ℕ → ℕ
item [] n = 0
item (x ∷ xs) zero = x
item (x ∷ xs) (suc n) = item xs n

-- The bytes stored at `a`.
unfoldable pub write_bytes : Space → ℕ → List ℕ → Space
write_bytes m a xs = record m {
  byte = λ x. if leb a x && ltb x (a + length xs) then item xs (x - a) else m.byte x;
}

-- The bytes that stand at `a`.
unfoldable pub bytes_at : Space → ℕ → ℕ → List ℕ
bytes_at m a zero = []
bytes_at m a (suc n) = byte_at m a ∷ bytes_at m (a + 1) n

-- The bytes of 32-bit words.
unfoldable pub word_bytes : List ℕ → List ℕ
word_bytes [] = []
word_bytes (w ∷ ws) =
    w % 2 ^ 8 ∷ w / 2 ^ 8 % 2 ^ 8 ∷ w / 2 ^ 16 % 2 ^ 8 ∷ w / 2 ^ 24 % 2 ^ 8 ∷ word_bytes ws

-- Every byte of `[a, a + n)` is writable.
pub record IsWritable (m : Space) (a n : ℕ) : Type 0 where
  pub each : (x : ℕ) → a ≤ x → x < a + n → writable m x ≡ true

pub writable_range-IsWritable :
    (m : Space) (a n : ℕ) → IsWritable m a n → writable_range m a n ≡ true
unfolding writable_range
writable_range-IsWritable m a zero h = refl
writable_range-IsWritable m a (suc n) h = ground (
  arith,
  h.each a,
  writable_range-IsWritable m (a + 1) n
      (record { each = λ x p q. h.each x (omega arith) (omega arith) }),
)

pub length-bytes_at : (m : Space) (a n : ℕ) → length (bytes_at m a n) ≡ n
unfolding bytes_at
length-bytes_at m a zero = refl
length-bytes_at m a (suc n) = omega (arith, length-bytes_at m (a + 1) n)

pub item-bytes_at : (m : Space) (a n k : ℕ) → k < n → item (bytes_at m a n) k ≡ byte_at m (a + k)
unfolding bytes_at
item-bytes_at m a zero k h = absurd (omega arith)
item-bytes_at m a (suc n) zero h = ap (byte_at m) (omega arith)
item-bytes_at m a (suc n) (suc k) h =
    item-bytes_at m (a + 1) n k (omega arith) ∙ ap (byte_at m) (omega arith)

-- Inside, the byte stored; outside, the byte that was there.
pub byte_at-write_bytes :
    (m : Space) (a : ℕ) (xs : List ℕ) (k : ℕ)
    → k < length xs
    → byte_at (write_bytes m a xs) (a + k) ≡ u8 (item xs k)
unfolding write_bytes byte_at
byte_at-write_bytes m a xs k h =
    let inside : (leb a (a + k) && ltb (a + k) (a + length xs)) ≡ true = ground arith in
    let back : a + k - a ≡ k = omega arith in rw (inside, back) refl

pub byte_at-write_bytes_outside :
    (m : Space) (a : ℕ) (xs : List ℕ) (x : ℕ)
    → (leb a x && ltb x (a + length xs)) ≡ false
    → byte_at (write_bytes m a xs) x ≡ byte_at m x
unfolding write_bytes byte_at
byte_at-write_bytes_outside m a xs x outside = rw outside refl

u8-byte_at : (m : Space) (x : ℕ) → u8 (byte_at m x) ≡ byte_at m x
unfolding byte_at
u8-byte_at m x = omega arith

-- What was read before is put back.
pub byte_at-restored :
    (m m' : Space) (a n x : ℕ)
    → ((y : ℕ) → (leb a y && ltb y (a + n)) ≡ false → byte_at m' y ≡ byte_at m y)
    → byte_at (write_bytes m' a (bytes_at m a n)) x ≡ byte_at m x
byte_at-restored m m' a n x same = elim (Bool-cases (leb a x && ltb x (a + n))) [
  | inl inside ↦
      let k = x - a in
      let short : k < n = ground arith in
      let at : a + k ≡ x = ground arith in
      subst (λ y. byte_at (write_bytes m' a (bytes_at m a n)) y ≡ byte_at m y) at
        (byte_at-write_bytes m' a (bytes_at m a n) k (omega (arith, length-bytes_at m a n, short))
          ∙ ap u8 (item-bytes_at m a n k short)
          ∙ u8-byte_at m (a + k))
  | inr outside ↦
      byte_at-write_bytes_outside m' a (bytes_at m a n) x (rw length-bytes_at outside)
      ∙ same x outside
]

-- A store does not change what can be written.
pub writable_range-write_bytes :
    (m : Space) (a : ℕ) (xs : List ℕ) (b n : ℕ)
    → writable_range (write_bytes m a xs) b n ≡ writable_range m b n
unfolding writable_range writable write_bytes
writable_range-write_bytes m a xs b zero = refl
writable_range-write_bytes m a xs b (suc n) =
    ap (writable m b &&◌) (writable_range-write_bytes m a xs (b + 1) n)
