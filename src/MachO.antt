-- ===== src/MachO.antt =====
-- The Mach-O records of `<mach-o/loader.h>` and `<mach-o/nlist.h>` on LP64: the sizes, the constants
-- and the offsets of the fields that the library reads.
pub mod Command
pub mod Segment
pub mod Section
pub mod Symtab
pub mod NList
use rork_hook.Base.{ℕ}

abbrev pub lc_segment : ℕ
lc_segment = 0x19

abbrev pub lc_symtab : ℕ
lc_symtab = 0x2

abbrev pub sizeof_segment_command : ℕ
sizeof_segment_command = 72

abbrev pub sizeof_section : ℕ
sizeof_section = 80

abbrev pub sizeof_symtab_command : ℕ
sizeof_symtab_command = 24

abbrev pub sizeof_nlist : ℕ
sizeof_nlist = 16

abbrev pub n_type_mask : ℕ
n_type_mask = 0x0e

abbrev pub n_sect : ℕ
n_sect = 0x0e

-- SECTION_TYPE, S_NON_LAZY_SYMBOL_POINTERS and S_LAZY_SYMBOL_POINTERS.
abbrev pub section_type : ℕ
section_type = 0xff

abbrev pub s_non_lazy_symbol_pointers : ℕ
s_non_lazy_symbol_pointers = 6

abbrev pub s_lazy_symbol_pointers : ℕ
s_lazy_symbol_pointers = 7
