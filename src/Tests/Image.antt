-- ===== src/Tests/Image.antt =====
-- A Mach-O image at 0x1000: a `__TEXT` segment, `__LINKEDIT`, a symbol table and two symbols.
use rork_hook.Base.{ℕ, ◌≡◌, refl, arith, List, [], ◌∷◌}
use rork_hook.Space.{Space, readable_range, u32_at, readable}
use rork_hook.Space.Reads.{IsReadable, IsReadable-of_range}
use rork_hook.LoadCommands.Table.{IsTable}
use rork_hook.Tests.Bytes.{bytes_of, ◌then_bytes◌, padding, field_of, space_of}

abbrev header_bytes : List ℕ
header_bytes =
    bytes_of 4 0xfeedfacf
    then_bytes padding 12
    then_bytes bytes_of 4 3
    then_bytes bytes_of 4 168
    then_bytes padding 8

abbrev pub segment_bytes : (name : List ℕ) (vmaddr vmsize fileoff filesize : ℕ) → List ℕ
segment_bytes name vmaddr vmsize fileoff filesize =
    bytes_of 4 0x19
    then_bytes bytes_of 4 72
    then_bytes field_of 16 name
    then_bytes bytes_of 8 vmaddr
    then_bytes bytes_of 8 vmsize
    then_bytes bytes_of 8 fileoff
    then_bytes bytes_of 8 filesize
    then_bytes padding 16

abbrev text_name : List ℕ
text_name = b'_' ∷ b'_' ∷ b'T' ∷ b'E' ∷ b'X' ∷ b'T' ∷ []

abbrev linkedit_name : List ℕ
linkedit_name = b'_' ∷ b'_' ∷ b'L' ∷ b'I' ∷ b'N' ∷ b'K' ∷ b'E' ∷ b'D' ∷ b'I' ∷ b'T' ∷ []

abbrev pub symbol_bytes : (n_strx n_value : ℕ) → List ℕ
symbol_bytes n_strx n_value =
    bytes_of 4 n_strx then_bytes 0x0e ∷ 1 ∷ bytes_of 2 0 then_bytes bytes_of 8 n_value

-- "_f" and "_g"
abbrev pub name_f : List ℕ
name_f = b'_' ∷ b'f' ∷ []

abbrev pub name_g : List ℕ
name_g = b'_' ∷ b'g' ∷ []

abbrev image_bytes : List ℕ
image_bytes =
    header_bytes
    then_bytes segment_bytes text_name 0x100 240 0 240
    then_bytes segment_bytes linkedit_name 0x1c8 40 200 40
    then_bytes bytes_of 4 2
    then_bytes bytes_of 4 24
    then_bytes bytes_of 4 200
    then_bytes bytes_of 4 2
    then_bytes bytes_of 4 232
    then_bytes bytes_of 4 8
    then_bytes symbol_bytes 1 0x110
    then_bytes symbol_bytes 4 0x120
    then_bytes 0 ∷ (name_f then_bytes 0 ∷ (name_g then_bytes padding 2))

abbrev pub image : Space
image = space_of 0x1000 240 5 image_bytes

pub image-IsReadable : IsReadable image 0x1000 240
unfolding readable_range readable
image-IsReadable = IsReadable-of_range image 0x1000 240 refl

abbrev pub image_commands : List ℕ
image_commands = 0x1020 ∷ 0x1068 ∷ 0x10b0 ∷ []

image_read : u32_at image 0x10b4 ≡ 24
unfolding u32_at
image_read = refl

sizes :
    (u32_at image 0x1014 ≡ 168)
    × (u32_at image 0x1024 ≡ 72)
    × (u32_at image 0x106c ≡ 72)
    × (u32_at image 0x10b4 ≡ 24)
unfolding u32_at
sizes = (refl, refl, refl, refl)

pub image-IsTable : IsTable image 0x1000 240 image_commands
unfolding u32_at
image-IsTable = record {
  nonnull = λ e. omega (arith, e);
  magic = refl;
  fits = omega (arith, sizes.0);
  counted = refl;
  commands = (
    refl,
    record { large = omega (arith, sizes.1); aligned = refl; inside = omega (arith, sizes.1) },
    (
      refl,
      record { large = omega (arith, sizes.2); aligned = refl; inside = omega (arith, sizes.2) },
      (
        refl,
        record { large = omega (arith, sizes.3); aligned = refl; inside = omega (arith, sizes.3) },
        refl,
      ),
    ),
  );
}
