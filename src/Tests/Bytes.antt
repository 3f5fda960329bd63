-- ===== src/Tests/Bytes.antt =====
-- Little-endian data and an address space that holds it.
use rork_hook.Base.{
  ℕ, zero, suc, ◌+◌, ◌-◌, ◌/◌, ◌%◌, none, some, List, [], ◌∷◌, ltb, leb, ◌&&◌, if◌then◌else◌,
}
use rork_hook.Space.{Space}

abbrev pub bytes_of : (count value : ℕ) → List ℕ
bytes_of zero value = []
bytes_of (suc n) value = value % 256 ∷ bytes_of n (value / 256)

infixr 5 ◌then_bytes◌
abbrev pub ◌then_bytes◌ : List ℕ → List ℕ → List ℕ
[] then_bytes ys = ys
(x ∷ xs) then_bytes ys = x ∷ (xs then_bytes ys)

abbrev pub padding : ℕ → List ℕ
padding zero = []
padding (suc n) = 0 ∷ padding n

-- The bytes of a string in a field of `n` bytes.
abbrev pub field_of : ℕ → List ℕ → List ℕ
field_of zero xs = []
field_of (suc n) [] = 0 ∷ field_of n []
field_of (suc n) (x ∷ xs) = x ∷ field_of n xs

abbrev pub entry : List ℕ → ℕ → ℕ
entry [] n = 0
entry (x ∷ xs) zero = x
entry (x ∷ xs) (suc n) = entry xs n

-- The bytes stand at `base`, in memory of this protection.
abbrev pub space_of : (base size protection : ℕ) → List ℕ → Space
space_of base size protection bytes = record {
  byte = λ a. entry bytes (a - base);
  protection = λ a. if leb base a && ltb a (base + size) then some protection else none;
}
