-- ===== src/Pointer/Pages.antt =====
-- The page arithmetic of `RorkHookStoreProtectedPointer`.
use mathlib.Core.Option.{some-injective}
use mathlib.Core.Path.{subst}
use rork_hook.Base.{
  ℕ, ◌+◌, ◌-◌, ◌^◌, ◌≤◌, ◌<◌, ◌≡◌, refl, arith, false, ◌||◌, some, ltb, ◌==◌, neb, by_test, bit_and,
  u64, sub64, not64, none-ne-some,
}
use rork_hook.Base.Bits.Complement.{bit_and_complement, bit_and-le}
use rork_hook.Pointer.{PageRange, pages_of}

-- The pages enclose the slot.
pub record IsEnclosing (page_size slot : ℕ) (pages : PageRange) : Type 0 where
  pub starts : pages.first ≤ slot
  pub near : slot < pages.first + page_size
  pub ends : slot + 8 ≤ pages.first + u64 (sub64 pages.last pages.first + page_size)

page_start :
    (page slot a : ℕ)
    → 0 < page
    → page < 2 ^ 64
    → a < 2 ^ 64
    → (bit_and a (not64 (page - 1)) ≤ a) × (a < bit_and a (not64 (page - 1)) + page)
page_start page slot a nonzero word h =
    let parts = bit_and_complement 64 a (page - 1) h (omega arith) in
    let small = bit_and-le 64 a (page - 1) h in (omega arith, omega arith)

enclosed :
    (first last page slot slot_end : ℕ)
    → page < 2 ^ 62
    → slot + 7 ≡ slot_end
    → slot_end < 2 ^ 64
    → (first ≤ slot) × (slot < first + page)
    → (last ≤ slot_end) × (slot_end < last + page)
    → slot + 8 ≤ first + u64 (sub64 last first + page)
enclosed first last page slot slot_end h e w (a, b) (c, d) = omega arith

no_wrap : (slot : ℕ) → slot < 2 ^ 64 → ltb (u64 (slot + 8 - 1)) slot ≡ false → slot + 7 < 2 ^ 64
no_wrap slot h e = ground arith

pub pages_of-IsEnclosing :
    (page_size slot : ℕ) (pages : PageRange)
    → page_size < 2 ^ 62
    → slot < 2 ^ 64
    → pages_of page_size slot ≡ some pages
    → IsEnclosing page_size slot pages
unfolding pages_of
pages_of-IsEnclosing page slot pages h k =
    by_test (λ o. o ≡ some pages → IsEnclosing page slot pages)
      (page == 0 || neb (bit_and page (page - 1)) 0) (λ _ e. absurd (none-ne-some e))
      (λ sized.
        by_test (λ o. o ≡ some pages → IsEnclosing page slot pages) (ltb (u64 (slot + 8 - 1)) slot)
          (λ _ e. absurd (none-ne-some e))
          (λ upward e.
            let nonzero : 0 < page = ground arith in
            let room = no_wrap slot k upward in
            let stop : u64 (slot + 8 - 1) ≡ slot + 7 = omega arith in
            let low = page_start page slot slot nonzero (omega arith) k in
            let high = page_start page slot (slot + 7) nonzero (omega arith) room in
            subst (IsEnclosing page slot) (some-injective _ _ e) (record {
              starts = low.0;
              near = low.1;
              ends = rw stop (enclosed _ _ page slot (slot + 7) h refl room low high);
            })))
