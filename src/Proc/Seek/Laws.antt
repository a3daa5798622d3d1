-- ===== src/Proc/Seek/Laws.antt =====
-- What the two seeks do to the position.
use wslcompat.Prelude.{
  ℕ, zero, suc, ◌+◌, ◌-◌, ◌^◌, ◌<◌, ◌≡◌, refl, inl, inr, false, some, arith, ltb, leb, Bool-cases,
  Res, ret, fail, einval,
}
use wslcompat.Prelude.Int.{ℤ, pos, negsuc}
use wslcompat.Proc.Seek.{
  Whence, seek_set, seek_cur, seek_end, seek_other, add_overflow, seek_to, mmap_min_addr_lseek,
  proc_pid_mem_lseek,
}

-- An offset that an `off_t` holds.
abbrev pub IsOffset : ℤ → Type 0
IsOffset (pos n) = n < 2 ^ 63
IsOffset (negsuc n) = n < 2 ^ 63

-- The position is the result of a seek that succeeds, and stays where it is if it fails.
abbrev pub Consistent : ℕ → ℕ × Res ℕ → Type 0
Consistent p (q, ret n) = (q ≡ n) × (q < 2 ^ 63)
Consistent p (q, fail e) = (q ≡ p) × (e ≡ einval)

seek_to-Consistent : (p : ℕ) (off : ℤ) → IsOffset off → Consistent p (seek_to p (some off))
unfolding seek_to
seek_to-Consistent p (pos n) h = (refl, h)
seek_to-Consistent p (negsuc n) h = (refl, refl)

seek_cur-Consistent : (p : ℕ) (off : ℤ) → p < 2 ^ 63 → Consistent p (seek_to p (add_overflow p off))
unfolding seek_to add_overflow
seek_cur-Consistent p (pos n) h = elim (Bool-cases (leb (2 ^ 63) (p + n))) [
  | inl y ↦ rw (y, seek_to, add_overflow) (refl, refl)
  | inr y ↦ rw (y, seek_to, add_overflow) (refl, ground arith)
]
seek_cur-Consistent p (negsuc n) h = elim (Bool-cases (ltb n p)) [
  | inl y ↦
      let small : leb (2 ^ 63) (p - n - 1) ≡ false = ground arith in
      rw (y, small, seek_to, add_overflow) (refl, omega arith)
  | inr y ↦ rw (y, seek_to, add_overflow) (refl, refl)
]

-- Both seeks, from a position below 2^63 and with an offset that an `off_t` holds: the position
-- afterwards is the result, and still below 2^63, or the call fails with EINVAL and the position is
-- the old one.
pub lseek-Consistent :
    (p : ℕ) (off : ℤ) (w : Whence)
    → p < 2 ^ 63
    → IsOffset off
    → Consistent p (mmap_min_addr_lseek p off w) × Consistent p (proc_pid_mem_lseek p off w)
unfolding mmap_min_addr_lseek proc_pid_mem_lseek seek_to
lseek-Consistent p off seek_set h o = (seek_to-Consistent p off o, seek_to-Consistent p off o)
lseek-Consistent p off seek_cur h o = (seek_cur-Consistent p off h, seek_cur-Consistent p off h)
lseek-Consistent p off seek_end h o = (seek_to-Consistent p off o, (refl, refl))
lseek-Consistent p off seek_other h o = ((refl, refl), (refl, refl))

-- The offset of the way back.
abbrev pub opposite : ℤ → ℤ
opposite (pos zero) = pos 0
opposite (pos (suc n)) = negsuc n
opposite (negsuc n) = pos (suc n)

-- Relative seeks undo each other: if one from a position below 2^63 succeeds, the one by the
-- opposite offset from there ends at the first position.
pub lseek_there_and_back :
    (p : ℕ) (off : ℤ) (n : ℕ)
    → p < 2 ^ 63
    → (proc_pid_mem_lseek p off seek_cur).1 ≡ ret n
    → proc_pid_mem_lseek (proc_pid_mem_lseek p off seek_cur).0 (opposite off) seek_cur ≡ (p, ret p)
unfolding proc_pid_mem_lseek seek_to add_overflow
lseek_there_and_back p (pos zero) n h e = ground arith
lseek_there_and_back p (pos (suc m)) n h e = ground arith
lseek_there_and_back p (negsuc m) n h e = ground arith
