-- ===== src/Proc/MinAddr.antt =====
-- proc.c: reads of the synthesized /proc/sys/vm/mmap_min_addr. `text` is what snprintf makes of the
-- tunable; it fits the 32 bytes of `tmp`.
pub mod Laws
use wslcompat.Prelude.{
  ℕ, zero, suc, ◌+◌, ◌-◌, ◌*◌, ◌/◌, ◌%◌, ◌^◌, ◌≤◌, ◌<◌, ◌≡◌, refl, sym, ap, ◌∙◌, ◌≢◌, ◌↔◌, ◌⊎◌, inl,
  inr, Bool, true, false, not, ◌&&◌, ◌||◌, Option, none, some, List, [], ◌∷◌, ◌++◌, map, arith, ltb,
  leb, ◌==◌, if◌then◌else◌, ltb→lt, lt→ltb, leb→le, ==_iff, ==_self, Bool-cases, Option-cases,
  length, get_elem?, get_or, set, take, drop, replicate, length-append, length-set,
  get_elem?-set_self, get_elem?-set_ne, length-replicate, length-map, length-snoc, append-cons,
  is_some, Res, ret, fail, eperm, enoent, eintr, e2big, enoexec, ebadf, ewouldblock, enomem, efault,
  eexist, enodev, einval, enfile, enosys, enoprotoopt, eopnotsupp,
}
use wslcompat.Prelude.Int.{ℤ, pos, negsuc, minus_one, int_eq, is_neg, int_eq_iff, int_eq_self}

-- The position afterwards, and the bytes put into the buffer.
unfoldable pub mmap_min_addr_read : (text : List ℕ) (p count : ℕ) → ℕ × List ℕ
mmap_min_addr_read text p count =
    if leb (length text) p
    then (p, [])
    else let n = (if ltb (length text - p) count then length text - p else count) in
      (p + n, take n (drop p text))

unfoldable pub mmap_min_addr_pread : (text : List ℕ) (count : ℕ) (offset : ℤ) → Res (List ℕ)
mmap_min_addr_pread text count (negsuc _) = fail einval
mmap_min_addr_pread text count (pos o) =
    if leb (length text) o
    then ret []
    else let n = (if ltb (length text - o) count then length text - o else count) in
      ret (take n (drop o text))
