-- ===== src/Exec/Tests.antt =====
-- Sample programs, and the theorems of this part at them.
use wslcompat.Prelude.{
  ℕ, ◌≡◌, refl, true, false, ◌&&◌, none, some, List, [], ◌∷◌, ◌==◌, if◌then◌else◌, enoexec,
}
use text.Mathlib.Text.{◌==◌ as str_eq}
use wslcompat.Exec.Elf.{
  Ehdr, Phdr, ElfFile, phdr_size, header_ok, has_magic, is_class64, elf_needs_fixup, scan_loop,
  scan_phdr, scan_load,
}
use wslcompat.Exec.Elf.Spec.{
  load_aligns, has_interp, mixed_aligns, any_other, elf_needs_fixup_decides,
}
use wslcompat.Exec.Clamp.{
  Image, unified, elfclamp, unify, unify_loop, unify_phdr, changed_by, min_loop, load_count,
  out_of_bounds,
}
use wslcompat.Exec.Execve.{World, execve}
use wslcompat.Exec.Execve.Laws.{IsClean, execve-IsClean}

abbrev sample_ehdr : Ehdr
sample_ehdr = record {
  ident = 0x7f ∷ 0x45 ∷ 0x4c ∷ 0x46 ∷ 2 ∷ [];
  phoff = 64;
  phentsize = phdr_size;
  phnum = 3;
}

abbrev load : ℕ → Phdr
load a = record { p_type = 1; p_align = a }

abbrev interp : Phdr
interp = record { p_type = 3; p_align = 1 }

abbrev sample_phdrs : List Phdr
sample_phdrs = interp ∷ load 4096 ∷ load 65536 ∷ []

abbrev sample_file : ElfFile
sample_file = record {
  ehdr = some sample_ehdr;
  phdr_at = λ off.
      if off == 64
      then some interp
      else if off == 120
      then some (load 4096)
      else if off == 176
      then some (load 65536)
      else none;
}

elf_needs_fixup_decides_example :
    elf_needs_fixup sample_file
    ≡ (mixed_aligns (load_aligns sample_phdrs) && has_interp sample_phdrs)
unfolding header_ok has_magic is_class64
elf_needs_fixup_decides_example =
    elf_needs_fixup_decides sample_file sample_ehdr sample_phdrs refl refl refl
      (refl, (refl, (refl, tt)))

sample_needs_fixup : elf_needs_fixup sample_file ≡ true
unfolding elf_needs_fixup header_ok has_magic is_class64 scan_loop scan_phdr scan_load
sample_needs_fixup = refl

-- A first alignment of 0 is skipped, so these are not mixed; the other order is.
zero_first : mixed_aligns (0 ∷ 4096 ∷ []) ≡ false
unfolding mixed_aligns any_other
zero_first = refl

zero_last : mixed_aligns (4096 ∷ 0 ∷ []) ≡ true
unfolding mixed_aligns any_other
zero_last = refl

abbrev sample_image : Image
sample_image = record { size = 300; ehdr = sample_ehdr; phdrs = sample_phdrs }

abbrev clamped : List Phdr
clamped = interp ∷ load 4096 ∷ load 4096 ∷ []

sample_clamped : elfclamp sample_image ≡ unified 4096 1 clamped
unfolding elfclamp unify unify_loop unify_phdr changed_by min_loop load_count has_magic is_class64
    out_of_bounds
sample_clamped = refl

-- A kernel that refuses the program and runs anything else; the file's mode is a parameter.
abbrev world : ℕ → World
world mode = record {
  passthru = false;
  exec = λ path _. if str_eq path "./prog" then some enoexec else none;
  open_file = λ _. some (record { mode = some mode; elf = sample_file });
  ptinterp = "ld.so";
  glibc_argv0 = true;
  argv0_tunable = true;
}

execve-IsClean_example : IsClean (execve (world 0o755) "./prog" (some ("prog" ∷ [])))
execve-IsClean_example = execve-IsClean (world 0o755) "./prog" (some ("prog" ∷ []))
