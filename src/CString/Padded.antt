-- ===== src/CString/Padded.antt =====
-- `strncmp` against a string that is shorter than the limit.
use rork_hook.Base.{
  ℕ, zero, suc, ◌+◌, ◌≡◌, refl, Bool, true, ◌&&◌, List, [], ◌∷◌, arith, ◌==◌, Bool-cases, inl, inr,
}
use rork_hook.Outcome.{ok}
use rork_hook.Space.{Space, byte_at}
use rork_hook.Space.Reads.{IsReadable, IsReadable-part, can_read-ok}
use rork_hook.CString.{strncmp_equal}

-- The first `n` bytes at `a` are those of the padded string.
unfoldable pub padded : Space → ℕ → List ℕ → ℕ → Bool
padded m a xs zero = true
padded m a [] (suc n) = byte_at m a == 0
padded m a (x ∷ xs) (suc n) = byte_at m a == x && padded m (a + 1) xs n

pub strncmp_equal-padded :
    (m : Space) (a : ℕ) (xs : List ℕ) (n : ℕ)
    → IsReadable m a n
    → strncmp_equal m a xs n ≡ ok (padded m a xs n)
unfolding strncmp_equal padded
strncmp_equal-padded m a xs zero r = refl
strncmp_equal-padded m a [] (suc n) r = rw (can_read-ok m a 1 r (omega arith) (omega arith)) refl
strncmp_equal-padded m a (x ∷ xs) (suc n) r =
    rw (can_read-ok m a 1 r (omega arith) (omega arith)) (elim (Bool-cases (byte_at m a == x)) [
      | inl same ↦
          rw same (
            strncmp_equal-padded m (a + 1) xs n (IsReadable-part _ _ r (omega arith) (omega arith)))
      | inr other ↦ rw other refl
    ])
