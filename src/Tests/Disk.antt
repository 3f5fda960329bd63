-- ===== src/Tests/Disk.antt =====
-- A system with two files, a cache and its symbols, that maps a file where nothing is readable.
use mathlib.Core.Path.{subst}
use mathlib.Core.Bool.{false≢true}
use mathlib.Core.Option.{some-injective}
use rork_hook.Base.{
  ℕ, zero, suc, ◌+◌, ◌-◌, ◌*◌, ◌^◌, ◌≤◌, ◌<◌, ◌≡◌, refl, sym, ap, ◌∙◌, arith, Bool, true, false,
  not, Option, none, some, List, [], ◌∷◌, ◌&&◌, ltb, leb, ◌==◌, neb, if◌then◌else◌, Bool-cases, inl,
  inr, &&_parts, ==_iff, none-ne-some, length,
}
use rork_hook.Base.Texts.{codes, same_text}
use rork_hook.Base.Int.{pos}
use rork_hook.Space.{Space, readable, byte_at}
use rork_hook.Space.Write.{item}
use rork_hook.Files.{Held, System}
use rork_hook.Files.Mapped.{IsSystem, IsMapping, IsExtended}
use rork_hook.Tests.Cache.{main_bytes, symbols_bytes}

abbrev pub content : List ℕ → List ℕ
content path =
    if same_text path (codes "/m")
    then main_bytes
    else if same_text path (codes "/m.symbols")
    then symbols_bytes
    else []

-- No byte of the range is readable.
abbrev free : Space → (a n : ℕ) → Bool
free m a zero = true
free m a (suc n) = not (readable m a) && free m (a + 1) n

free-each : (m : Space) (a n x : ℕ) → free m a n ≡ true → a ≤ x → x < a + n → readable m x ≡ false
free-each m a zero x e low high = absurd (omega arith)
free-each m a (suc n) x e low high =
    let (here, later) = &&_parts (not (readable m a)) (free m (a + 1) n) e in
    elim (Bool-cases (x == a)) [
      | inl same ↦ rw ((==_iff x a).0 same) (ground (arith, here))
      | inr other ↦ free-each m (a + 1) n x later (ground arith) (omega arith)
    ]

abbrev base_of : Held → ℕ
base_of h = 0x10000 * suc (length h.mappings)

abbrev with_file : Space → (path : List ℕ) (base n : ℕ) → Space
with_file m path base n = record {
  byte = λ x. if leb base x && ltb x (base + n) then item (content path) (x - base) else m.byte x;
  protection = λ x. if leb base x && ltb x (base + n) then some 1 else m.protection x;
}

abbrev mapped_at : Held → (path : List ℕ) (base n : ℕ) → Held
mapped_at h path base n = record h {
  space = with_file h.space path base n;
  mappings = (record { bytes = base; size = n }) ∷ h.mappings;
}

abbrev path_of : List (ℕ × List ℕ) → List ℕ
path_of [] = []
path_of ((d, path) ∷ ds) = path

abbrev rest {ℓ} : {A : Type ℓ} → List A → List A
rest [] = []
rest (x ∷ xs) = xs

abbrev pub disk : System
disk = record {
  open_file = λ h path flags.
      if neb (length (content path)) 0
      then (some 3, record h { descriptors = (3, path) ∷ h.descriptors })
      else (none, h);
  fstat = λ h d.
      some (record { st_mode = 0x81a4; st_size = pos (length (content (path_of h.descriptors))) });
  mmap = λ h a n q f d o.
      if free h.space (base_of h) n
      then (some (base_of h), mapped_at h (path_of h.descriptors) (base_of h) n)
      else (none, h);
  close = λ h d. record h { descriptors = rest h.descriptors };
  munmap = λ h b n. record h { mappings = rest h.mappings };
}

with_file-IsMapping :
    (m : Space) (path : List ℕ) (base n : ℕ)
    → 0 < base
    → 0 < n
    → n < 2 ^ 64
    → IsMapping content (with_file m path base n) path (record { bytes = base; size = n })
unfolding readable byte_at
with_file-IsMapping m path base n nonnull nonempty word = record {
  nonnull = λ e. omega (arith, e, nonnull);
  nonempty = nonempty;
  word = word;
  readable = record {
    each = λ x low high.
        let inside : (leb base x && ltb x (base + n)) ≡ true = ground arith in
        rw (readable, inside) refl;
  };
  shows = λ i h.
      let inside : (leb base (base + i) && ltb (base + i) (base + n)) ≡ true = ground arith in
      let back : base + i - base ≡ i = omega arith in rw (inside, back) refl;
}

with_file-IsExtended :
    (m : Space) (path : List ℕ) (base n : ℕ)
    → free m base n ≡ true
    → IsExtended m (with_file m path base n)
unfolding readable byte_at
with_file-IsExtended m path base n is_free = record {
  reads = λ {a} {n = k} r. record {
    each = λ x low high. rw (readable, outside x (r.each x low high)) (r.each x low high);
  };
  same = λ {a} {n = k} r x low high. rw (outside x (r.each x low high)) refl;
}
  where
    outside : (x : ℕ) → readable m x ≡ true → (leb base x && ltb x (base + n)) ≡ false
    outside x seen = elim (Bool-cases (leb base x && ltb x (base + n))) [
      | inr out ↦ out
      | inl inside ↦
          absurd
            (false≢true (sym (free-each m base n x is_free (ground arith) (ground arith)) ∙ seen))
    ]

chosen :
    (t : Bool) (v d : ℕ) (s s0 h : Held)
    → ◌≡◌ {A = Option ℕ × Held} (if t then (some v, s) else (none, s0)) (some d, h)
    → (t ≡ true) × (v ≡ d) × (s ≡ h)
chosen true v d s s0 h e = (
  refl,
  some-injective _ _ (ap (λ (x : Option ℕ × Held). x.0) e),
  ap (λ (x : Option ℕ × Held). x.1) e,
)
chosen false v d s s0 h e = absurd (none-ne-some (ap (λ (x : Option ℕ × Held). x.0) e))

unchosen :
    (t : Bool) (v : ℕ) (s s0 h : Held)
    → ◌≡◌ {A = Option ℕ × Held} (if t then (some v, s) else (none, s0)) (none, h)
    → h ≡ s0
unchosen true v s s0 h e = absurd (none-ne-some (sym (ap (λ (x : Option ℕ × Held). x.0) e)))
unchosen false v s s0 h e = sym (ap (λ (x : Option ℕ × Held). x.1) e)

pub disk-IsSystem : IsSystem content disk
disk-IsSystem = record {
  opened = λ h h' path flags d e.
      let (_, v, k) = chosen (neb (length (content path)) 0) 3 d _ h h' e in
      sym k ∙ ap (λ n. record h { descriptors = (n, path) ∷ h.descriptors }) v;
  not_opened = λ h h' path flags e. unchosen (neb (length (content path)) 0) 3 _ h h' e;
  closed = λ h d path ds e. ap (λ l. record h { descriptors = rest l }) e;
  mmap_failed = λ h h' a n q f d o e. unchosen (free h.space (base_of h) n) (base_of h) _ h h' e;
  mapped = λ h h' n b d path ds e nonempty word success.
      let base = base_of h in
      let (is_free, v, k) = chosen (free h.space base n) base b _ h h' success in
      let space = with_file h.space (path_of h.descriptors) base n in
      subst
        (λ (k : Held).
          (k.descriptors ≡ h.descriptors)
          × (k.mappings ≡ (record { bytes = b; size = n }) ∷ h.mappings)
          × IsMapping content k.space path (record { bytes = b; size = n })
          × IsExtended h.space k.space)
        k
        (
          refl,
          ap (λ a. (record { bytes = a; size = n }) ∷ h.mappings) v,
          subst (λ a. IsMapping content space path (record { bytes = a; size = n })) v
              (subst (λ q. IsMapping content space q (record { bytes = base; size = n }))
                (ap path_of e)
                (with_file-IsMapping h.space (path_of h.descriptors) base n (omega arith) nonempty
                  word)),
          with_file-IsExtended h.space (path_of h.descriptors) base n is_free,
        );
  unmapped = λ h f fs e. (ap rest e, refl);
}
