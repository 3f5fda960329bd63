-- ===== src/CString/Spelled.antt =====
-- The comparison in one pass.
use rork_hook.Base.{
  ℕ, zero, suc, ◌+◌, ◌<◌, ◌≡◌, ◌≢◌, refl, ap, ◌∙◌, Bool, false, ◌&&◌, Option, none, some, List, [],
  ◌∷◌, ◌==◌, if◌then◌else◌, length, All, arith, Bool-cases, inl, inr, ==_iff,
}
use rork_hook.Outcome.{Outcome, ok}
use rork_hook.Outcome.Ensures.{Ensures, returns}
use rork_hook.Space.{Space, byte_at}
use rork_hook.Space.Reads.{IsReadable, IsReadable-part, can_read-ok}
use rork_hook.CString.{one_more, memchr_nul, bytes_equal, memcmp_equal, matches_string}

-- The bytes of a string, none of which is zero.
abbrev pub IsText : List ℕ → Type 0
IsText xs = All (λ x. x ≢ 0) xs

-- The string `xs` and its terminator stand at `a`, within `remaining` bytes.
unfoldable pub spelled : Space → (a remaining : ℕ) → List ℕ → Bool
spelled m a zero xs = false
spelled m a (suc n) [] = byte_at m a == 0
spelled m a (suc n) (x ∷ xs) = byte_at m a == x && spelled m (a + 1) n xs

nul_at : Space → ℕ → ℕ → Option ℕ
nul_at m a zero = none
nul_at m a (suc n) =
    let further = nul_at m (a + 1) n in if byte_at m a == 0 then some 0 else one_more further

memchr_nul-nul_at : (m : Space) (a n : ℕ) → IsReadable m a n → memchr_nul m a n ≡ ok (nul_at m a n)
unfolding memchr_nul nul_at
memchr_nul-nul_at m a zero r = refl
memchr_nul-nul_at m a (suc n) r =
    rw (can_read-ok m a 1 r (omega arith) (omega arith)) (elim (Bool-cases (byte_at m a == 0)) [
      | inl e ↦ rw e
      | inr e ↦
          rw e
            (rw (memchr_nul-nul_at m (a + 1) n (IsReadable-part _ _ r (omega arith) (omega arith))))
    ])

nul_at-lt : (m : Space) (a n k : ℕ) → nul_at m a n ≡ some k → k < n
unfolding nul_at
nul_at-lt m a zero k e = cc
nul_at-lt m a (suc n) zero e = omega arith
nul_at-lt m a (suc n) (suc k) e = ground (arith, nul_at-lt m (a + 1) n k)

compared : Space → ℕ → ℕ → List ℕ → Bool
compared m a n xs = elim (nul_at m a n) [
  | none ↦ false
  | some k ↦ k == length xs && bytes_equal m a xs
]

compared-spelled :
    (m : Space) (a n : ℕ) (xs : List ℕ) → IsText xs → compared m a n xs ≡ spelled m a n xs
unfolding compared nul_at bytes_equal spelled
compared-spelled m a zero xs t = refl
compared-spelled m a (suc n) [] t = ground arith
compared-spelled m a (suc n) (x ∷ xs) t = ground (arith, compared-spelled m (a + 1) n xs t.1)

-- On readable bytes nothing faults, and the answer is whether the string stands there.
pub matches_string-spelled :
    (m : Space) (a n : ℕ) (xs : List ℕ)
    → IsReadable m a n
    → IsText xs
    → matches_string m a n xs ≡ ok (spelled m a n xs)
unfolding matches_string compared memcmp_equal
matches_string-spelled m a n xs r t =
    rw (memchr_nul-nul_at m a n r) (ends (nul_at m a n) refl ∙ ap ok (compared-spelled m a n xs t))
  where
    ends :
        (o : Option ℕ)
        → nul_at m a n ≡ o
        → ◌≡◌ {A = Outcome Bool}
            (elim o [
              | none ↦ ok false
              | some k ↦ if k == length xs then memcmp_equal m a xs else ok false
            ])
            (ok (compared m a n xs))
    ends none e = rw (e, compared)
    ends (some k) e =
        rw (e, compared)
          (elim (Bool-cases (k == length xs)) [
            | inr other ↦ rw other
            | inl same ↦
                let short = nul_at-lt m a n k e in
                rw
                  (
                    same,
                    can_read-ok m a (length xs) r (omega arith)
                        (omega (arith, (==_iff _ _).0 same)),
                  )
                  refl
          ])

-- On readable bytes the comparison returns.
pub memcmp_equal-returns :
    (m : Space) (a : ℕ) (xs : List ℕ)
    → IsReadable m a (length xs)
    → Ensures (λ same. memcmp_equal m a xs ≡ ok same) (memcmp_equal m a xs)
unfolding memcmp_equal
memcmp_equal-returns m a xs r =
    rw (can_read-ok m a (length xs) r (omega arith) (omega arith)) (returns refl)
