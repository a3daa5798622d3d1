-- ===== src/Exec/Elf.antt =====
-- execve.c, `elf_needs_fixup`: does an ELF64 program mix alignments, and has it an interpreter?
-- `pread` is the kernel's; an `ElfFile` says what it returns at each offset.
pub mod Spec
use wslcompat.Prelude.{
  ℕ, zero, suc, ◌+◌, ◌*◌, ◌%◌, ◌^◌, Bool, true, false, not, ◌&&◌, ◌||◌, Option, none, some, List,
  [], ◌∷◌, ◌==◌, if◌then◌else◌, get_or,
}

abbrev pub pt_load : ℕ
pt_load = 1

abbrev pub pt_interp : ℕ
pt_interp = 3

abbrev pub elfclass64 : ℕ
elfclass64 = 2

-- sizeof(Elf64_Phdr)
abbrev pub phdr_size : ℕ
phdr_size = 56

pub record Ehdr : Type 0 where
  pub ident : List ℕ
  pub phoff : ℕ
  pub phentsize : ℕ
  pub phnum : ℕ

pub record Phdr : Type 0 where
  pub p_type : ℕ
  pub p_align : ℕ

-- What a full-sized `pread` yields: the header at offset 0, a program header at any offset, and
-- `none` for a short read.
pub record ElfFile : Type 0 where
  pub ehdr : Option Ehdr
  pub phdr_at : ℕ → Option Phdr

-- memcmp(e_ident, ELFMAG, SELFMAG) == 0
unfoldable pub has_magic : List ℕ → Bool
has_magic ident =
    (get_or ident 0 0 == 0x7f)
    && (get_or ident 1 0 == 0x45)
    && (get_or ident 2 0 == 0x4c)
    && (get_or ident 3 0 == 0x46)

unfoldable pub is_class64 : List ℕ → Bool
is_class64 ident = get_or ident 4 0 == elfclass64

-- The locals of the loop over the program headers.
pub record Scan : Type 0 where
  pub align : ℕ
  pub mixed : Bool
  pub dynamic : Bool

unfoldable pub scan_load : Scan → ℕ → Scan
scan_load s p =
    let base = if s.align == 0 then p else s.align in
    record s { align = base; mixed = s.mixed || not (p == base) }

unfoldable pub scan_phdr : Scan → Phdr → Scan
scan_phdr s ph =
    let s' = if ph.p_type == pt_load then scan_load s ph.p_align else s in
    record s' { dynamic = s'.dynamic || (ph.p_type == pt_interp) }

-- `rounds` headers from index `i` on; `none` is the early `return false` after a short read.
unfoldable pub scan_loop : ElfFile → (phoff rounds i : ℕ) → Scan → Option Scan
scan_loop f phoff zero i s = some s
scan_loop f phoff (suc n) i s = elim (f.phdr_at ((phoff + i * phdr_size) % 2 ^ 64)) [
  | none ↦ none
  | some ph ↦ scan_loop f phoff n (i + 1) (scan_phdr s ph)
]

abbrev pub scan_start : Scan
scan_start = record { align = 0; mixed = false; dynamic = false }

-- The tests before the loop.
unfoldable pub header_ok : Ehdr → Bool
header_ok h =
    has_magic h.ident
    && is_class64 h.ident
    && not ((h.phnum == 0) || not (h.phentsize == phdr_size))

unfoldable pub elf_needs_fixup : ElfFile → Bool
elf_needs_fixup f = elim f.ehdr [
  | none ↦ false
  | some h ↦
      if header_ok h
      then elim (scan_loop f h.phoff h.phnum 0 scan_start) [
        | none ↦ false
        | some s ↦ if s.mixed && not s.dynamic then false else s.mixed
      ]
      else false
]
