-- ===== src/Files/Mapped.antt =====
-- What `RorkHookMapFile` relies on and what it leaves, of RorkHookSharedCache.c.
use mathlib.Core.Path.{subst}
use mathlib.Core.Bool.{false≢true}
use rork_hook.Base.{
  ℕ, ◌+◌, ◌^◌, ◌≤◌, ◌<◌, ◌≡◌, ◌≢◌, refl, sym, ap, ◌∙◌, Bool, true, false, Option, none, some, List,
  ◌∷◌, arith, none-ne-some, by_option, ltb, leb, ◌&&◌, u64_max, u8, if◌then◌else◌,
}
use rork_hook.Base.Int.{ℤ, pos, negsuc}
use rork_hook.Space.{Space, null, byte_at}
use rork_hook.Space.Write.{item}
use rork_hook.Space.Reads.{IsReadable}
use rork_hook.Files.{
  FileMapping, Held, Status, System, MapResult, valid_size, empty_mapping, not_mapped,
  map_descriptor, map_private, open_flags, prot_read, map_file, s_isreg,
}

-- What is readable in `m` is so in `m'`, with the same bytes.
pub record IsExtended (m m' : Space) : Type 0 where
  pub reads : {a n : ℕ} → IsReadable m a n → IsReadable m' a n
  pub same : {a n : ℕ} → IsReadable m a n → (x : ℕ) → a ≤ x → x < a + n → byte_at m' x ≡ byte_at m x

-- The mapping is readable and shows the file.
pub record IsMapping (content : List ℕ → List ℕ) (m : Space) (path : List ℕ) (f : FileMapping)
    : Type 0 where
  pub nonnull : f.bytes ≢ null
  pub nonempty : 0 < f.size
  pub word : f.size < 2 ^ 64
  pub readable : IsReadable m f.bytes f.size
  pub shows : (i : ℕ) → i < f.size → byte_at m (f.bytes + i) ≡ u8 (item (content path) i)

-- What the calls do, on success and on failure. A new mapping takes no place of another, and
-- `close` does not touch the memory.
pub record IsSystem (content : List ℕ → List ℕ) (sys : System) : Type 0 where
  pub opened :
      (h h' : Held) (path : List ℕ) (flags d : ℕ)
      → sys.open_file h path flags ≡ (some d, h')
      → h' ≡ record h { descriptors = (d, path) ∷ h.descriptors }
  pub not_opened :
      (h h' : Held) (path : List ℕ) (flags : ℕ) → sys.open_file h path flags ≡ (none, h') → h' ≡ h
  pub closed :
      (h : Held) (d : ℕ) (path : List ℕ) (ds : List (ℕ × List ℕ))
      → h.descriptors ≡ (d, path) ∷ ds
      → sys.close h d ≡ record h { descriptors = ds }
  pub mmap_failed : (h h' : Held) (a n q f d o : ℕ) → sys.mmap h a n q f d o ≡ (none, h') → h' ≡ h
  pub mapped :
      (h h' : Held) (n b d : ℕ) (path : List ℕ) (ds : List (ℕ × List ℕ))
      → h.descriptors ≡ (d, path) ∷ ds
      → 0 < n
      → n < 2 ^ 64
      → sys.mmap h 0 n 1 2 d 0 ≡ (some b, h')
      → (h'.descriptors ≡ h.descriptors)
        × (h'.mappings ≡ (record { bytes = b; size = n }) ∷ h.mappings)
        × IsMapping content h'.space path (record { bytes = b; size = n })
        × IsExtended h.space h'.space
  pub unmapped :
      (h : Held) (f : FileMapping) (fs : List FileMapping)
      → h.mappings ≡ f ∷ fs
      → ((sys.munmap h f.bytes f.size).mappings ≡ fs)
        × ((sys.munmap h f.bytes f.size).descriptors ≡ h.descriptors)

-- On success the mapping of the file is held too, otherwise the result is empty and nothing has
-- changed; no descriptor is left open.
pub record IsMapResult (content : List ℕ → List ℕ) (h : Held) (path : List ℕ) (r : MapResult)
    : Type 0 where
  pub descriptors : r.held.descriptors ≡ h.descriptors
  pub extended : IsExtended h.space r.held.space
  pub success :
      r.mapped ≡ true
      → (r.held.mappings ≡ r.mapping ∷ h.mappings) × IsMapping content r.held.space path r.mapping
  pub failure : r.mapped ≡ false → (r.mapping ≡ empty_mapping) × (r.held ≡ h)

size_of : Bool → ℤ → Option ℕ
size_of regular size = elim size [
  | pos n ↦ if regular && (ltb 0 n && leb n u64_max) then some n else none
  | negsuc n ↦ none
]

size_of-bounds :
    (regular : Bool) (size : ℤ) (n : ℕ) → size_of regular size ≡ some n → (0 < n) × (n < 2 ^ 64)
unfolding size_of
size_of-bounds regular (negsuc k) n e = absurd (none-ne-some e)
size_of-bounds regular (pos k) n e = ground arith

valid_size-bounds :
    (status : Option Status) (n : ℕ) → valid_size status ≡ some n → (0 < n) × (n < 2 ^ 64)
unfolding valid_size size_of
valid_size-bounds none n e = absurd (none-ne-some e)
valid_size-bounds (some status) n e = size_of-bounds (s_isreg status.st_mode) status.st_size n e

pub IsExtended-same : (m : Space) → IsExtended m m
IsExtended-same m = record { reads = λ r. r; same = λ r x p q. refl }

module _ (content : List ℕ → List ℕ) (sys : System) (law : IsSystem content sys) where
  nothing_mapped :
      (h h' : Held) (path : List ℕ) → h' ≡ h → IsMapResult content h path (not_mapped h')
  nothing_mapped h h' path e = record {
    descriptors = ap (λ (s : Held). s.descriptors) e;
    extended = subst (λ (s : Held). IsExtended h.space s.space) (sym e) (IsExtended-same h.space);
    success = λ f. absurd (false≢true f);
    failure = λ _. (refl, e);
  }

  -- After the descriptor is open, it is closed on every branch.
  map_descriptor-IsMapResult :
      (h : Held) (path : List ℕ) (d : ℕ)
      → IsMapResult content h path
          (map_descriptor sys (record h { descriptors = (d, path) ∷ h.descriptors }) d)
  unfolding map_descriptor
  map_descriptor-IsMapResult h path d =
      let ready = record h { descriptors = (d, path) ∷ h.descriptors } in
      by_option (IsMapResult content h path) (valid_size (sys.fstat ready d))
        (λ _. nothing_mapped h _ path (law.closed ready d path h.descriptors refl))
        (λ size is_size.
          let (nonempty, word) = valid_size-bounds (sys.fstat ready d) size is_size in
          let call = sys.mmap ready null size prot_read map_private d 0 in
          by_option (IsMapResult content h path) call.0
            (λ failed.
              let same =
                law.mmap_failed ready call.1 null size prot_read map_private d 0
                  (ap (λ o. (o, call.1)) failed) in
              nothing_mapped h _ path
                (ap (λ x. sys.close x d) same ∙ law.closed ready d path h.descriptors refl))
            (λ b success.
              let (open_ones, held, shown, extended) =
                law.mapped ready call.1 size b d path h.descriptors refl nonempty word
                  (ap (λ o. (o, call.1)) success) in
              let closed = law.closed call.1 d path h.descriptors open_ones in
              record {
                descriptors = ap (λ (s : Held). s.descriptors) closed;
                extended = subst (λ (s : Held). IsExtended h.space s.space) (sym closed) extended;
                success = λ _. (
                  ap (λ (s : Held). s.mappings) closed ∙ held,
                  subst
                      (λ (s : Held).
                        IsMapping content s.space path (record { bytes = b; size = size }))
                      (sym closed) shown,
                );
                failure = λ e. absurd (false≢true (sym e));
              }))

  -- With a system that opens, maps and closes as documented: on every branch of the mapping of a
  -- file the descriptor is closed again; on success one mapping more is held, which is readable and
  -- shows the bytes of the file; and on failure the result is empty and what is held is as before.
  pub map_file-IsMapResult :
      (h : Held) (path : List ℕ) → IsMapResult content h path (map_file sys h (some path) true)
  unfolding map_file
  map_file-IsMapResult h path =
      let call = sys.open_file h path open_flags in
      by_option (IsMapResult content h path) call.0
        (λ failed.
          nothing_mapped h call.1 path
            (law.not_opened h call.1 path open_flags (ap (λ o. (o, call.1)) failed)))
        (λ d success.
          subst (λ s. IsMapResult content h path (map_descriptor sys s d))
            (sym (law.opened h call.1 path open_flags d (ap (λ o. (o, call.1)) success)))
            (map_descriptor-IsMapResult h path d))
