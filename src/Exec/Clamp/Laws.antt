-- ===== src/Exec/Clamp/Laws.antt =====
-- What `elfclamp` leaves behind, and what it refuses.
use wslcompat.Prelude.{
  ℕ, ◌+◌, ◌*◌, ◌^◌, ◌≤◌, ◌<◌, ◌≡◌, refl, ap, false, List, [], ◌∷◌, arith, ltb, ◌==◌, length,
}
use wslcompat.Exec.Elf.{Phdr}
use wslcompat.Exec.Elf.Spec.{load_aligns, has_interp, any_other, mixed_aligns}
use wslcompat.Exec.Clamp.{
  Image, unified, min_loop, load_count, unify_phdr, unify_loop, unify, changed_by, out_of_bounds,
  elfclamp,
}

abbrev pub AllEq : ℕ → List ℕ → Type 0
AllEq m [] = Unit {0}
AllEq m (x ∷ xs) = (x ≡ m) × AllEq m xs

unify_loop-AllEq : (m : ℕ) (phs : List Phdr) → AllEq m (load_aligns (unify_loop m phs).0)
unfolding unify_loop unify_phdr load_aligns
unify_loop-AllEq m [] = tt
unify_loop-AllEq m (ph ∷ phs) = ground (arith, unify_loop-AllEq m phs)

any_other-AllEq : (m : ℕ) (xs : List ℕ) → AllEq m xs → any_other m xs ≡ false
unfolding any_other
any_other-AllEq m [] h = refl
any_other-AllEq m (x ∷ xs) h = ground (arith, any_other-AllEq m xs)

mixed_aligns-AllEq : (m : ℕ) (xs : List ℕ) → AllEq m xs → mixed_aligns xs ≡ false
unfolding mixed_aligns
mixed_aligns-AllEq m [] h = refl
mixed_aligns-AllEq m (x ∷ xs) h = ground (arith, mixed_aligns-AllEq m xs, any_other-AllEq m xs)

unify_loop-has_interp : (m : ℕ) (phs : List Phdr) → has_interp (unify_loop m phs).0 ≡ has_interp phs
unfolding unify_loop unify_phdr has_interp
unify_loop-has_interp m [] = refl
unify_loop-has_interp m (ph ∷ phs) = ground (arith, unify_loop-has_interp m phs)

length-unify_loop : (m : ℕ) (phs : List Phdr) → length (unify_loop m phs).0 ≡ length phs
unfolding unify_loop
length-unify_loop m [] = refl
length-unify_loop m (ph ∷ phs) = ground (arith, length-unify_loop m phs)

unify_loop_twice :
    (m : ℕ) (phs : List Phdr) → unify_loop m (unify_loop m phs).0 ≡ ((unify_loop m phs).0, 0)
unfolding unify_loop unify_phdr changed_by
unify_loop_twice m [] = refl
unify_loop_twice m (ph ∷ phs) = ground (arith, unify_loop_twice m phs)

load_count-unify_loop : (m : ℕ) (phs : List Phdr) → load_count (unify_loop m phs).0 ≡ load_count phs
unfolding unify_loop unify_phdr load_count
load_count-unify_loop m [] = refl
load_count-unify_loop m (ph ∷ phs) = ground (arith, load_count-unify_loop m phs)

min_loop-AllEq : (m : ℕ) (phs : List Phdr) → AllEq m (load_aligns phs) → min_loop m phs ≡ m
unfolding min_loop load_aligns
min_loop-AllEq m [] h = refl
min_loop-AllEq m (ph ∷ phs) h = ground (arith, min_loop-AllEq m phs)

min_loop-AllEq_zero :
    (m : ℕ) (phs : List Phdr)
    → AllEq m (load_aligns phs)
    → (load_count phs == 0) ≡ false
    → min_loop 0 phs ≡ m
unfolding min_loop load_aligns load_count
min_loop-AllEq_zero m [] h n = cc
min_loop-AllEq_zero m (ph ∷ phs) h n =
    ground (arith, min_loop-AllEq m phs, min_loop-AllEq_zero m phs)

elfclamp-unify :
    (f : Image) {m c : ℕ} {phs : List Phdr}
    → elfclamp f ≡ unified m c phs
    → unify f.phdrs ≡ unified m c phs
unfolding elfclamp
elfclamp-unify f h = ground arith

unify-eq :
    (phs0 : List Phdr) {m c : ℕ} {phs : List Phdr}
    → unify phs0 ≡ unified m c phs
    → ((load_count phs0 == 0) ≡ false) × (m ≡ min_loop 0 phs0) × (unify_loop m phs0 ≡ (phs, c))
unfolding unify
unify-eq phs0 h = ground arith

-- When `elfclamp` ends normally, every PT_LOAD header of the result has the alignment `m`, so its
-- alignments are not mixed in the sense of `elf_needs_fixup`; there are as many headers as before,
-- and there is a PT_INTERP header exactly if there was one.
pub elfclamp_uniform :
    (f : Image) {m c : ℕ} {phs : List Phdr}
    → elfclamp f ≡ unified m c phs
    → AllEq m (load_aligns phs)
      × (mixed_aligns (load_aligns phs) ≡ false)
      × (has_interp phs ≡ has_interp f.phdrs)
      × (length phs ≡ length f.phdrs)
elfclamp_uniform f {m} {phs} h =
    let e = (unify-eq f.phdrs (elfclamp-unify f h)).2 in
    let fst : (unify_loop m f.phdrs).0 ≡ phs = ap (λ r. r.0) e in
    let all = unify_loop-AllEq m f.phdrs in
    (
      rw fst at all,
      mixed_aligns-AllEq m (load_aligns phs) (rw fst at all),
      rw fst at (unify_loop-has_interp m f.phdrs),
      rw fst at (length-unify_loop m f.phdrs),
    )

-- Running `elfclamp` again on its own result finds the same alignment and changes nothing.
pub elfclamp_idempotent :
    (f : Image) {m c : ℕ} {phs : List Phdr}
    → elfclamp f ≡ unified m c phs
    → elfclamp (record f { phdrs = phs }) ≡ unified m 0 phs
unfolding elfclamp unify
elfclamp_idempotent f {m} {phs} h =
    let (n, em, e) = unify-eq f.phdrs (elfclamp-unify f h) in
    let fst : (unify_loop m f.phdrs).0 ≡ phs = ap (λ r. r.0) e in
    let all : AllEq m (load_aligns phs) = rw fst at (unify_loop-AllEq m f.phdrs) in
    let count : load_count phs ≡ load_count f.phdrs = rw fst at (load_count-unify_loop m f.phdrs) in
    let twice : unify_loop m phs ≡ (phs, 0) = rw fst at (unify_loop_twice m f.phdrs) in
    ground (arith, min_loop-AllEq_zero m phs all)

abbrev pub NoZero : List ℕ → Type 0
NoZero [] = Unit {0}
NoZero (x ∷ xs) = (0 < x) × NoZero xs

abbrev pub AllGe : ℕ → List ℕ → Type 0
AllGe m [] = Unit {0}
AllGe m (x ∷ xs) = (m ≤ x) × AllGe m xs

AllGe-mono : (a b : ℕ) (xs : List ℕ) → b ≤ a → AllGe a xs → AllGe b xs
AllGe-mono a b [] h g = tt
AllGe-mono a b (x ∷ xs) h g = (omega arith, AllGe-mono a b xs h g.1)

min_loop-le :
    (m : ℕ) (phs : List Phdr)
    → 0 < m
    → NoZero (load_aligns phs)
    → (min_loop m phs ≤ m) × (0 < min_loop m phs)
unfolding min_loop load_aligns
min_loop-le m [] h n = omega arith
min_loop-le m (ph ∷ phs) h n = ground (arith, min_loop-le m phs, min_loop-le ph.p_align phs)

min_loop-AllGe :
    (m : ℕ) (phs : List Phdr) → NoZero (load_aligns phs) → AllGe (min_loop m phs) (load_aligns phs)
unfolding min_loop load_aligns
min_loop-AllGe m [] n = tt
min_loop-AllGe m (ph ∷ phs) n = ground (
  arith,
  min_loop-AllGe m phs,
  min_loop-AllGe ph.p_align phs,
  min_loop-le m phs,
  min_loop-le ph.p_align phs,
)

-- When no PT_LOAD header of the input has alignment 0, the alignment chosen is at most each of the
-- input's PT_LOAD alignments.
pub elfclamp_minimum :
    (f : Image) {m c : ℕ} {phs : List Phdr}
    → elfclamp f ≡ unified m c phs
    → NoZero (load_aligns f.phdrs)
    → AllGe m (load_aligns f.phdrs)
elfclamp_minimum f h n =
    let (_, em, _) = unify-eq f.phdrs (elfclamp-unify f h) in rw em (min_loop-AllGe 0 f.phdrs n)

-- The bounds test is exact as long as the end of the header table does not wrap around 64 bits.
pub out_of_bounds_exact :
    (phoff phnum phentsize size : ℕ)
    → phoff + phnum * phentsize < 2 ^ 64
    → out_of_bounds phoff phnum phentsize size ≡ ltb size (phoff + phnum * phentsize)
unfolding out_of_bounds
out_of_bounds_exact phoff phnum phentsize size h = ground arith

-- For an offset beyond the end of the file, so large that the end of the table wraps to a value
-- within the file, the test finds nothing wrong.
pub out_of_bounds_wraps :
    (phoff phnum phentsize size : ℕ)
    → size < phoff
    → 2 ^ 64 ≤ phoff + phnum * phentsize
    → phoff + phnum * phentsize ≤ 2 ^ 64 + size
    → size < 2 ^ 64
    → out_of_bounds phoff phnum phentsize size ≡ false
unfolding out_of_bounds
out_of_bounds_wraps phoff phnum phentsize size a b c d = ground arith
