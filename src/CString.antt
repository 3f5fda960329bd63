-- ===== src/CString.antt =====
-- NUL-terminated strings in memory, as `memchr` and `memcmp` of the C library see them. A C string
-- that a caller passes is the list of its bytes, which holds no zero.
pub mod Spelled
pub mod Padded
use rork_hook.Base.{
  ℕ, zero, suc, ◌+◌, Bool, true, false, ◌&&◌, Option, none, some, List, [], ◌∷◌, ◌==◌,
  if◌then◌else◌, length,
}
use rork_hook.Outcome.{Outcome, ok, ◌>>=◌, ◌>>◌}
use rork_hook.Space.{Space, can_read, byte_at}

abbrev one_more : Option ℕ → Option ℕ
one_more none = none
one_more (some n) = some (suc n)

-- `memchr(a, '\0', n)`, as the distance of the byte that it finds.
unfoldable pub memchr_nul : Space → ℕ → ℕ → Outcome (Option ℕ)
memchr_nul m a zero = ok none
memchr_nul m a (suc n) = do
  can_read m a 1
  elim (byte_at m a == 0) [
    | true ↦ ok (some 0)
    | false ↦ do further ← memchr_nul m (a + 1) n; ok (one_more further)
  ]

unfoldable pub bytes_equal : Space → ℕ → List ℕ → Bool
bytes_equal m a [] = true
bytes_equal m a (x ∷ xs) = byte_at m a == x && bytes_equal m (a + 1) xs

-- `memcmp(a, xs, length) == 0`.
unfoldable pub memcmp_equal : Space → ℕ → List ℕ → Outcome Bool
unfolding bytes_equal
memcmp_equal m a xs = do can_read m a (length xs); ok (bytes_equal m a xs)

-- Whether the terminated string in the `remaining` bytes at `candidate` is `expected`.
unfoldable pub matches_string : Space → (candidate remaining : ℕ) → List ℕ → Outcome Bool
unfolding memchr_nul memcmp_equal
matches_string m candidate remaining expected = do
  terminator ← memchr_nul m candidate remaining
  elim terminator [
    | none ↦ ok false
    | some candidate_length ↦
        if candidate_length == length expected then memcmp_equal m candidate expected else ok false
  ]

-- `strncmp(a, xs, n) == 0`.
unfoldable pub strncmp_equal : Space → ℕ → List ℕ → ℕ → Outcome Bool
strncmp_equal m a xs zero = ok true
strncmp_equal m a [] (suc n) = do can_read m a 1; ok (byte_at m a == 0)
strncmp_equal m a (x ∷ xs) (suc n) = do
  can_read m a 1
  elim (byte_at m a == x) [ true ↦ strncmp_equal m (a + 1) xs n | false ↦ ok false ]
