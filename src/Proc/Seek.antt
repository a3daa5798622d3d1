-- ===== src/Proc/Seek.antt =====
-- proc.c, `mmap_min_addr_lseek` and `proc_pid_mem_lseek`. A position is a number, since both refuse
-- negative ones; an offset is an `off_t` of 64 bits.
pub mod Laws
use wslcompat.Prelude.{
  ℕ, zero, suc, ◌+◌, ◌-◌, ◌*◌, ◌/◌, ◌%◌, ◌^◌, ◌≤◌, ◌<◌, ◌≡◌, refl, sym, ap, ◌∙◌, ◌≢◌, ◌↔◌, ◌⊎◌, inl,
  inr, Bool, true, false, not, ◌&&◌, ◌||◌, Option, none, some, List, [], ◌∷◌, ◌++◌, map, arith, ltb,
  leb, ◌==◌, if◌then◌else◌, ltb→lt, lt→ltb, leb→le, ==_iff, ==_self, Bool-cases, Option-cases,
  length, get_elem?, get_or, set, take, drop, replicate, length-append, length-set,
  get_elem?-set_self, get_elem?-set_ne, length-replicate, length-map, length-snoc, append-cons,
  is_some, Res, ret, fail, eperm, enoent, eintr, e2big, enoexec, ebadf, ewouldblock, enomem, efault,
  eexist, enodev, einval, enfile, enosys, enoprotoopt, eopnotsupp,
}
use wslcompat.Prelude.Int.{ℤ, pos, negsuc, minus_one, int_eq, is_neg, int_eq_iff, int_eq_self}

pub data Whence : Type 0 where
  seek_set seek_cur seek_end seek_other : Whence

-- The sum in unbounded integers.
abbrev pub add : ℕ → ℤ → ℤ
add p (pos n) = pos (p + n)
add p (negsuc n) = if ltb n p then pos (p - n - 1) else negsuc (n - p)

-- __builtin_add_overflow(e->pos, offset, &new_pos), `none` on overflow. The position is not
-- negative, so the sum can only be too large.
unfoldable pub add_overflow : ℕ → ℤ → Option ℤ
add_overflow p off = elim (add p off) [
  | negsuc n ↦ some (negsuc n)
  | pos n ↦ if leb (2 ^ 63) n then none else some (pos n)
]

-- The tail of both: -1 with EINVAL leaves the position.
unfoldable pub seek_to : ℕ → Option ℤ → ℕ × Res ℕ
seek_to p none = (p, fail einval)
seek_to p (some (negsuc n)) = (p, fail einval)
seek_to p (some (pos n)) = (n, ret n)

unfoldable pub mmap_min_addr_lseek : ℕ → ℤ → Whence → ℕ × Res ℕ
mmap_min_addr_lseek p off seek_set = seek_to p (some off)
mmap_min_addr_lseek p off seek_end = seek_to p (some off)
mmap_min_addr_lseek p off seek_cur = seek_to p (add_overflow p off)
mmap_min_addr_lseek p off seek_other = seek_to p none

unfoldable pub proc_pid_mem_lseek : ℕ → ℤ → Whence → ℕ × Res ℕ
proc_pid_mem_lseek p off seek_set = seek_to p (some off)
proc_pid_mem_lseek p off seek_cur = seek_to p (add_overflow p off)
proc_pid_mem_lseek p off seek_end = seek_to p none
proc_pid_mem_lseek p off seek_other = seek_to p none
