-- ===== src/Exec/Elf/Spec.antt =====
-- What `elf_needs_fixup` decides, in terms of the list of program headers.
use wslcompat.Prelude.{
  ℕ, true, ◌&&◌, ◌+◌, ◌*◌, ◌%◌, ◌^◌, ◌≡◌, refl, Bool, false, not, ◌||◌, some, List, [], ◌∷◌, ◌==◌,
  if◌then◌else◌, length, arith,
}
use wslcompat.Exec.Elf.{
  Phdr, ElfFile, Scan, pt_load, pt_interp, phdr_size, scan_load, scan_phdr, scan_loop, Ehdr,
  scan_start, header_ok, elf_needs_fixup,
}

-- The alignments of the PT_LOAD headers, in order.
unfoldable pub load_aligns : List Phdr → List ℕ
load_aligns [] = []
load_aligns (ph ∷ phs) =
    if ph.p_type == pt_load then ph.p_align ∷ load_aligns phs else load_aligns phs

unfoldable pub has_interp : List Phdr → Bool
has_interp [] = false
has_interp (ph ∷ phs) = (ph.p_type == pt_interp) || has_interp phs

-- Some element differs from `a`.
unfoldable pub any_other : ℕ → List ℕ → Bool
any_other a [] = false
any_other a (x ∷ xs) = not (x == a) || any_other a xs

-- Some element differs from the first that is not 0. (0 is the code's mark for "no base yet".)
unfoldable pub mixed_aligns : List ℕ → Bool
mixed_aligns [] = false
mixed_aligns (x ∷ xs) = if x == 0 then mixed_aligns xs else any_other x xs

-- The file holds the headers `phs` from index `i` on.
abbrev pub Holds : ElfFile → ℕ → ℕ → List Phdr → Type 0
Holds f phoff i [] = Unit
Holds f phoff i (ph ∷ phs) =
    (f.phdr_at ((phoff + i * phdr_size) % 2 ^ 64) ≡ some ph) × Holds f phoff (i + 1) phs

scan_list : Scan → List Phdr → Scan
scan_list s [] = s
scan_list s (ph ∷ phs) = scan_list (scan_phdr s ph) phs

scan_loop-scan_list :
    (f : ElfFile) (phoff i : ℕ) (s : Scan) (phs : List Phdr)
    → Holds f phoff i phs
    → scan_loop f phoff (length phs) i s ≡ some (scan_list s phs)
unfolding scan_loop scan_list
scan_loop-scan_list f phoff i s [] h = refl
scan_loop-scan_list f phoff i s (ph ∷ phs) h =
    ground (arith, scan_loop-scan_list f phoff (i + 1) (scan_phdr s ph) phs h.1)

scan_list-dynamic :
    (s : Scan) (phs : List Phdr) → (scan_list s phs).dynamic ≡ (s.dynamic || has_interp phs)
unfolding scan_list scan_phdr scan_load has_interp
scan_list-dynamic s [] = ground arith
scan_list-dynamic s (ph ∷ phs) = ground (arith, scan_list-dynamic (scan_phdr s ph) phs)

scan_list-mixed_based :
    (s : Scan) (phs : List Phdr)
    → (s.align == 0) ≡ false
    → (scan_list s phs).mixed ≡ (s.mixed || any_other s.align (load_aligns phs))
unfolding scan_list scan_phdr scan_load load_aligns any_other
scan_list-mixed_based s [] h = ground arith
scan_list-mixed_based s (ph ∷ phs) h = ground (arith, scan_list-mixed_based (scan_phdr s ph) phs)

scan_list-mixed :
    (s : Scan) (phs : List Phdr)
    → s.align ≡ 0
    → (scan_list s phs).mixed ≡ (s.mixed || mixed_aligns (load_aligns phs))
unfolding scan_list scan_phdr scan_load load_aligns mixed_aligns
scan_list-mixed s [] h = ground arith
scan_list-mixed s (ph ∷ phs) h =
    ground (arith, scan_list-mixed (scan_phdr s ph) phs, scan_list-mixed_based (scan_phdr s ph) phs)

-- For a file whose header passes the first tests and whose program headers `phs` can all be read,
-- the answer is yes exactly when the PT_LOAD alignments are mixed (some alignment differs from the
-- first that is not 0) and there is a PT_INTERP header.
pub elf_needs_fixup_decides :
    (f : ElfFile) (h : Ehdr) (phs : List Phdr)
    → f.ehdr ≡ some h
    → header_ok h ≡ true
    → h.phnum ≡ length phs
    → Holds f h.phoff 0 phs
    → elf_needs_fixup f ≡ (mixed_aligns (load_aligns phs) && has_interp phs)
unfolding elf_needs_fixup
elf_needs_fixup_decides f h phs e ok n holds = ground (
  arith,
  scan_loop-scan_list f h.phoff 0 scan_start phs holds,
  scan_list-mixed scan_start phs,
  scan_list-dynamic scan_start phs,
)
