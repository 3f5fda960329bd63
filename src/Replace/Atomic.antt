-- ===== src/Replace/Atomic.antt =====
-- `RorkHookReplaceFunctionWithSize` from the change of the protection on, and what it leaves.
use rork_hook.Base.{
  ℕ, ◌+◌, ◌<◌, ◌≡◌, ◌≢◌, refl, ◌∙◌, arith, false, ◌&&◌, List, ltb, leb, neb, length, Bool-cases,
  inl, inr, u8,
}
use rork_hook.Outcome.Ensures.{Ensures, returns, access-then}
use rork_hook.Space.{Space, can_read, byte_at}
use rork_hook.Space.Reads.{IsReadable, readable_range-IsReadable}
use rork_hook.Space.Write.{
  can_write, write_bytes, bytes_at, word_bytes, item, writable_range-IsWritable,
  byte_at-write_bytes, byte_at-write_bytes_outside, byte_at-restored, writable_range-write_bytes,
}
use rork_hook.Memory.{Kernel, protect_memory, make_memory_writable, kern_success}
use rork_hook.Memory.Protects.{
  IsProtecting, protect_memory-byte_at, protect_memory-failed, make_memory_writable-IsWritable,
}
use rork_hook.Replace.{install_patch}

-- Every byte is as before.
abbrev pub SameBytes : Space → Space → Type 0
SameBytes m m' = (x : ℕ) → byte_at m' x ≡ byte_at m x

-- The words stand at `a`, and every other byte is as before.
pub record IsPatched (m m' : Space) (a : ℕ) (words : List ℕ) : Type 0 where
  pub patched :
      (k : ℕ) → k < length (word_bytes words) → byte_at m' (a + k) ≡ u8 (item (word_bytes words) k)
  pub others :
      (x : ℕ)
      → (leb a x && ltb x (a + length (word_bytes words))) ≡ false
      → byte_at m' x ≡ byte_at m x

-- Success leaves the patch, and an error no trace.
pub record IsAtomic (m : Space) (a : ℕ) (words : List ℕ) (result : ℕ × Space) : Type 0 where
  pub success : result.0 ≡ kern_success → IsPatched m result.1 a words
  pub failure : result.0 ≢ kern_success → SameBytes m result.1

pub failed :
    (m : Space) (a : ℕ) (words : List ℕ) (code : ℕ) → code ≢ 0 → IsAtomic m a words (code, m)
failed m a words code ne = record { success = λ e. absurd (ne e); failure = λ _. λ x. refl }

module _ (k : Kernel) (law : IsProtecting k) (m : Space) (a q : ℕ) (ws : List ℕ) where
  abbrev unlocked : Space
  unlocked = (make_memory_writable k m a 20).1

  abbrev written : Space
  written = write_bytes unlocked a (word_bytes ws)

  abbrev locked : ℕ × Space
  locked = protect_memory k written a 20 q

  unlocked-byte_at : (x : ℕ) → byte_at unlocked x ≡ byte_at m x
  unfolding make_memory_writable
  unlocked-byte_at = protect_memory-byte_at k law m a 20 0x13

  written_outside :
      (x : ℕ)
      → (leb a x && ltb x (a + length (word_bytes ws))) ≡ false
      → byte_at written x ≡ byte_at m x
  written_outside x out =
      byte_at-write_bytes_outside unlocked a (word_bytes ws) x out ∙ unlocked-byte_at x

  locked-IsPatched : IsPatched m locked.1 a ws
  locked-IsPatched = record {
    patched = λ i short.
        protect_memory-byte_at k law written a 20 q (a + i)
        ∙ byte_at-write_bytes unlocked a (word_bytes ws) i short;
    others = λ x out. protect_memory-byte_at k law written a 20 q x ∙ written_outside x out;
  }

  restored-SameBytes :
      length (word_bytes ws) ≡ 20
      → locked.0 ≢ kern_success
      → SameBytes m (protect_memory k (write_bytes locked.1 a (bytes_at m a 20)) a 20 q).1
  restored-SameBytes sized lock_failed x =
      protect_memory-byte_at k law (write_bytes locked.1 a (bytes_at m a 20)) a 20 q x
      ∙ byte_at-restored m locked.1 a 20 x
          λ y out. protect_memory-byte_at k law written a 20 q y ∙ written_outside y (rw sized out)

  -- The installation neither reads nor writes without permission, and is all or nothing.
  pub install_patch-IsAtomic :
      IsReadable m a 20
      → length (word_bytes ws) ≡ 20
      → Ensures (IsAtomic m a ws) (install_patch k m a q ws)
  unfolding install_patch can_read can_write
  install_patch-IsAtomic r sized =
      access-then _ (readable_range-IsReadable m a 20 r)
        (elim (Bool-cases (neb (make_memory_writable k m a 20).0 kern_success)) [
          | inl refused ↦ rw refused (
              returns
                (record { success = λ e. absurd (ground arith); failure = λ _. unlocked-byte_at }))
          | inr granted ↦
              let ready =
                writable_range-IsWritable unlocked a 20
                  (make_memory_writable-IsWritable k law m a 20 (ground arith)) in
              rw granted (
                access-then _ ready (elim (Bool-cases (neb locked.0 kern_success)) [
                  | inl broken ↦
                      let lock_failed : locked.0 ≢ kern_success = ground arith in
                      rw broken (
                        access-then _
                          (rw
                            (
                              protect_memory-failed k law written a 20 q lock_failed,
                              writable_range-write_bytes,
                            )
                            ready)
                          (returns (record {
                            success = λ e. absurd (lock_failed e);
                            failure = λ _. restored-SameBytes sized lock_failed;
                          })))
                  | inr done ↦ rw done (
                      returns (record {
                        success = λ _. locked-IsPatched;
                        failure = λ ne. absurd (ne refl);
                      }))
                ]))
        ])
