-- ===== src/Proc/Mem.antt =====
-- proc.c: /proc/<pid>/mem by process_vm_readv and process_vm_writev, with the position as the
-- address. The kernel's transfer is a parameter: an address and a length give the bytes moved or an
-- errno. Addresses end at 2^47, so that a position does not overflow.
pub mod Laws
use wslcompat.Prelude.{
  ℕ, zero, suc, ◌+◌, ◌-◌, ◌*◌, ◌/◌, ◌%◌, ◌^◌, ◌≤◌, ◌<◌, ◌≡◌, refl, sym, ap, ◌∙◌, ◌≢◌, ◌↔◌, ◌⊎◌, inl,
  inr, Bool, true, false, not, ◌&&◌, ◌||◌, Option, none, some, List, [], ◌∷◌, ◌++◌, map, arith, ltb,
  leb, ◌==◌, if◌then◌else◌, ltb→lt, lt→ltb, leb→le, ==_iff, ==_self, Bool-cases, Option-cases,
  length, get_elem?, get_or, set, take, drop, replicate, length-append, length-set,
  get_elem?-set_self, get_elem?-set_ne, length-replicate, length-map, length-snoc, append-cons,
  is_some, Res, ret, fail, eperm, enoent, eintr, e2big, enoexec, ebadf, ewouldblock, enomem, efault,
  eexist, enodev, einval, enfile, enosys, enoprotoopt, eopnotsupp,
}

abbrev pub Transfer : Type 0
Transfer = (address len : ℕ) → Res ℕ

-- `if (n > 0) e->pos += n`
unfoldable pub advance : ℕ → Res ℕ → ℕ × Res ℕ
advance p (fail e) = (p, fail e)
advance p (ret n) = (if n == 0 then p else p + n, ret n)

-- The loop over the vector: `none` when an addition overflows a size_t.
unfoldable pub iov_loop : ℕ → List ℕ → Option ℕ
iov_loop total [] = some total
iov_loop total (len ∷ iov) =
    let rest = iov_loop (total + len) iov in if leb (2 ^ 64) (total + len) then none else rest

-- proc_pid_mem_preadv and proc_pid_mem_pwritev
unfoldable pub vector_at : Transfer → (iov : List ℕ) (offset : ℕ) → Res ℕ
vector_at vm iov offset = elim (iov_loop 0 iov) [
  | none ↦ fail einval
  | some total ↦ if ltb (2 ^ 63 - 1) total then fail einval else vm offset total
]

pub data Op : Type 0 where
  read write : (count : ℕ) → Op
  readv writev : (iov : List ℕ) → Op
  pread pwrite : (count offset : ℕ) → Op
  preadv pwritev : (iov : List ℕ) (offset : ℕ) → Op

-- One operation: the position afterwards, and the result.
unfoldable pub run_op : (vm_read vm_write : Transfer) → Op → ℕ → ℕ × Res ℕ
run_op vr vw (read count) p = advance p (vr p count)
run_op vr vw (write count) p = advance p (vw p count)
run_op vr vw (readv iov) p = advance p (vector_at vr iov p)
run_op vr vw (writev iov) p = advance p (vector_at vw iov p)
run_op vr vw (pread count offset) p = (p, vr offset count)
run_op vr vw (pwrite count offset) p = (p, vw offset count)
run_op vr vw (preadv iov offset) p = (p, vector_at vr iov offset)
run_op vr vw (pwritev iov offset) p = (p, vector_at vw iov offset)
