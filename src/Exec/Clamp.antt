-- ===== src/Exec/Clamp.antt =====
-- tools/elfclamp.c, `main`: give all PT_LOAD headers of a mapped ELF64 file one alignment.
pub mod Laws
use wslcompat.Prelude.{
  ℕ, zero, suc, ◌+◌, ◌-◌, ◌*◌, ◌/◌, ◌%◌, ◌^◌, ◌≤◌, ◌<◌, ◌≡◌, refl, sym, ap, ◌∙◌, ◌≢◌, ◌↔◌, ◌⊎◌, inl,
  inr, Bool, true, false, not, ◌&&◌, ◌||◌, Option, none, some, List, [], ◌∷◌, ◌++◌, map, arith, ltb,
  leb, ◌==◌, if◌then◌else◌, ltb→lt, lt→ltb, leb→le, ==_iff, ==_self, Bool-cases, Option-cases,
  length, get_elem?, get_or, set, take, drop, replicate, length-append, length-set,
  get_elem?-set_self, get_elem?-set_ne, length-replicate, length-map, Res, ret, fail, eperm, enoent,
  eintr, e2big, enoexec, ebadf, ewouldblock, enomem, efault, eexist, enodev, einval, enfile, enosys,
  enoprotoopt, eopnotsupp,
}
use wslcompat.Exec.Elf.{Ehdr, Phdr, pt_load, phdr_size, has_magic, is_class64}

-- The file as it is mapped: its size, its header, and the `phnum` program headers at `phoff`.
pub record Image : Type 0 where
  pub size : ℕ
  pub ehdr : Ehdr
  pub phdrs : List Phdr

-- sizeof(Elf64_Ehdr)
abbrev pub ehdr_size : ℕ
ehdr_size = 64

-- e_phoff + (uint64_t) e_phnum * e_phentsize > size, with the wrap of the addition.
unfoldable pub out_of_bounds : (phoff phnum phentsize size : ℕ) → Bool
out_of_bounds phoff phnum phentsize size = ltb size ((phoff + phnum * phentsize) % 2 ^ 64)

-- The first loop; 0 is the code's mark for "no minimum yet".
unfoldable pub min_loop : ℕ → List Phdr → ℕ
min_loop m [] = m
min_loop m (ph ∷ phs) =
    min_loop
      (if ph.p_type == pt_load then (if (m == 0) || ltb ph.p_align m then ph.p_align else m) else m)
      phs

unfoldable pub load_count : List Phdr → ℕ
load_count [] = 0
load_count (ph ∷ phs) = if ph.p_type == pt_load then suc (load_count phs) else load_count phs

-- The second loop, with the number of headers that it changed.
unfoldable pub unify_phdr : ℕ → Phdr → Phdr
unify_phdr m ph =
    if ph.p_type == pt_load then (if ph.p_align == m then ph else record ph { p_align = m }) else ph

unfoldable pub changed_by : ℕ → Phdr → ℕ
changed_by m ph = if (ph.p_type == pt_load) && not (ph.p_align == m) then 1 else 0

unfoldable pub unify_loop : ℕ → List Phdr → List Phdr × ℕ
unify_loop m [] = ([], 0)
unify_loop m (ph ∷ phs) =
    let rest = unify_loop m phs in (unify_phdr m ph ∷ rest.0, changed_by m ph + rest.1)

-- How `main` ends: with a complaint, or with the headers after the second loop.
pub data Outcome : Type 0 where
  too_small not_elf not_elf64 no_headers bad_phentsize headers_out_of_bounds no_loads : Outcome
  unified : (m changed : ℕ) → List Phdr → Outcome

unfoldable pub unify : List Phdr → Outcome
unify phs =
    if load_count phs == 0
    then no_loads
    else let m = min_loop 0 phs in let r = unify_loop m phs in unified m r.1 r.0

unfoldable pub elfclamp : Image → Outcome
elfclamp f =
    let h = f.ehdr in
    if ltb f.size ehdr_size
    then too_small
    else if not (has_magic h.ident)
    then not_elf
    else if not (is_class64 h.ident)
    then not_elf64
    else if (h.phoff == 0) || (h.phnum == 0)
    then no_headers
    else if not (h.phentsize == phdr_size)
    then bad_phentsize
    else if out_of_bounds h.phoff h.phnum h.phentsize f.size
    then headers_out_of_bounds
    else unify f.phdrs
