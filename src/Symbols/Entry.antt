-- ===== src/Symbols/Entry.antt =====
-- `RorkHookFindSymbolEntry` against the first entry of a name.
use mathlib.Core.Path.{subst}
use native.Mathlib.Nat.{zero-add}
use rork_hook.Base.{
  ℕ, zero, suc, ◌+◌, ◌-◌, ◌*◌, ◌≡◌, ◌≢◌, refl, Bool, true, false, not, Option, none, some, List,
  arith, leb, neb, ◌==◌, ◌||◌, ◌&&◌, if◌then◌else◌, Bool-cases, inl, inr, bit_and,
}
use rork_hook.Base.First.{IsFirst, IsFirst-step, IsFirst-here, IsFirst-empty}
use rork_hook.Outcome.{Outcome, ok, rejected}
use rork_hook.Outcome.Ensures.{Ensures, returns, rejects}
use rork_hook.Space.{Space, null}
use rork_hook.Space.Reads.{IsReadable, IsReadable-part, can_read-ok}
use rork_hook.CString.Spelled.{IsText, spelled, matches_string-spelled}
use rork_hook.MachO.{n_type_mask, n_sect}
use rork_hook.MachO.NList
use rork_hook.Symbols.{entry_matches, search_entries, find_symbol_entry}

module _ (m : Space) (symbols strings strings_size : ℕ) (name : List ℕ) where
  abbrev entry_at : ℕ → ℕ
  entry_at k = symbols + k * 16

  abbrev entry_is : ℕ → Bool
  entry_is e =
      if NList.n_strx m e == 0
        || (leb strings_size (NList.n_strx m e)
            || neb (bit_and (NList.n_type m e) n_type_mask) n_sect)
      then false
      else spelled m (strings + NList.n_strx m e) (strings_size - NList.n_strx m e) name

  -- Entry `k` is a section symbol of this name, in the string table.
  abbrev pub symbol_is : ℕ → Bool
  symbol_is k = entry_is (entry_at k)

  -- The outcome for the index of the entry found.
  abbrev pub entry_of : Option ℕ → Outcome ℕ
  entry_of none = rejected
  entry_of (some k) = ok (entry_at k)

  entry_matches-entry_is :
      (e : ℕ)
      → IsReadable m strings strings_size
      → IsText name
      → entry_matches m strings strings_size name e ≡ ok (entry_is e)
  unfolding entry_matches
  entry_matches-entry_is e r text =
      let o = NList.n_strx m e in
      let skip =
        NList.n_strx m e == 0
        || (leb strings_size o || neb (bit_and (NList.n_type m e) n_type_mask) n_sect) in
      elim (Bool-cases skip) [
        | inl out ↦ rw out
        | inr considered ↦
            let inside : leb strings_size o ≡ false = ground arith in
            let part : IsReadable m (strings + o) (strings_size - o) =
              IsReadable-part _ _ r (omega arith) (ground arith) in
            rw
              (considered, matches_string-spelled m (strings + o) (strings_size - o) name part text)
              refl
      ]

  search_entries-IsFirst :
      IsReadable m strings strings_size
      → IsText name
      → (left index : ℕ) → IsReadable m symbols ((index + left) * 16)
      → (j : Option ℕ) × (search_entries m symbols strings strings_size name left index
          ≡ entry_of j)
        × IsFirst symbol_is index (index + left) j
  unfolding search_entries
  search_entries-IsFirst pool text zero index r = (none, refl, IsFirst-empty symbol_is index)
  search_entries-IsFirst pool text (suc left) index r =
      let (j, rest, first) =
        search_entries-IsFirst pool text left (index + 1)
          (IsReadable-part _ _ r (omega arith) (omega arith)) in
      let read = can_read-ok m (entry_at index) 16 r (omega arith) (omega arith) in
      let compared = entry_matches-entry_is (entry_at index) pool text in
      elim (Bool-cases (symbol_is index)) [
        | inl same ↦ (some index, rw (read, compared, same), IsFirst-here symbol_is index left same)
        | inr other ↦
            (j, rw (read, compared, other, rest), IsFirst-step symbol_is index left j other first)
      ]

  -- On a readable symbol table and string table at non-null addresses the search returns the first
  -- entry that defines the name, and fails exactly when no entry does. The name holds no zero byte.
  pub find_symbol_entry-IsFirst :
      (count : ℕ)
      → symbols ≢ null
      → strings ≢ null
      → IsReadable m symbols (count * 16)
      → IsReadable m strings strings_size
      → IsText name
      → (j : Option ℕ) × (find_symbol_entry m symbols strings strings_size count (some name) true
          ≡ entry_of j)
        × IsFirst symbol_is 0 count j
  unfolding find_symbol_entry
  find_symbol_entry-IsFirst count a b r pool text =
      let given : (not (symbols == null || strings == null) && true) ≡ true = ground arith in
      let whole = IsReadable-part _ _ r (omega arith) (omega arith) in
      let (j, found, first) = search_entries-IsFirst pool text count 0 whole in
      (j, rw (given, found), subst (λ n. IsFirst symbol_is 0 n j) (zero-add count) first)

  -- The same as a postcondition.
  pub find_symbol_entry-Ensures :
      (count : ℕ)
      → symbols ≢ null
      → strings ≢ null
      → IsReadable m symbols (count * 16)
      → IsReadable m strings strings_size
      → IsText name
      → Ensures
          (λ e. (k : ℕ) × (e ≡ symbols + k * 16) × IsFirst symbol_is 0 count (some k))
          (find_symbol_entry m symbols strings strings_size count (some name) true)
  find_symbol_entry-Ensures count a b r pool text =
      let (j, found, first) = find_symbol_entry-IsFirst count a b r pool text in
      rw found (ensured j first)
    where
      ensured :
          (j : Option ℕ)
          → IsFirst symbol_is 0 count j
          → Ensures
              (λ e. (k : ℕ) × (e ≡ symbols + k * 16) × IsFirst symbol_is 0 count (some k))
              (entry_of j)
      ensured none first = rejects
      ensured (some k) first = returns (k, refl, first)
