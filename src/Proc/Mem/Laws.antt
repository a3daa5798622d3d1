-- ===== src/Proc/Mem/Laws.antt =====
-- The position of a /proc/<pid>/mem file, and the length of a vector.
use wslcompat.Prelude.{
  ℕ, ◌+◌, ◌^◌, ◌<◌, ◌≡◌, refl, inl, inr, none, some, List, [], ◌∷◌, arith, ltb, leb, if◌then◌else◌,
  Bool-cases, Res, ret, fail, einval,
}
use wslcompat.Proc.Mem.{
  Transfer, advance, iov_loop, vector_at, Op, read, write, readv, writev, pread, pwrite, preadv,
  pwritev, run_op,
}

abbrev pub total_length : List ℕ → ℕ
total_length [] = 0
total_length (len ∷ iov) = len + total_length iov

iov_loop-sum :
    (iov : List ℕ) (t : ℕ)
    → t < 2 ^ 64
    → iov_loop t iov
      ≡ (if ltb (t + total_length iov) (2 ^ 64) then some (t + total_length iov) else none)
unfolding iov_loop
iov_loop-sum [] t h = ground arith
iov_loop-sum (len ∷ iov) t h = elim (Bool-cases (leb (2 ^ 64) (t + len))) [
  | inl y ↦ ground arith
  | inr n ↦
      let h' : t + len < 2 ^ 64 = ground arith in ground (arith, iov_loop-sum iov (t + len) h')
]

-- A vectored transfer at an offset is one transfer of the sum of the lengths if a signed size holds
-- that sum, and fails with EINVAL otherwise; the overflow checks of the loop miss no case.
pub vector_at-sum :
    (vm : Transfer) (iov : List ℕ) (offset : ℕ)
    → vector_at vm iov offset
      ≡ (if ltb (total_length iov) (2 ^ 63) then vm offset (total_length iov) else fail einval)
unfolding vector_at
vector_at-sum vm iov offset = ground (arith, iov_loop-sum iov 0 (omega arith))

-- The bytes that an operation moves at the position.
abbrev pub bytes_of : Res ℕ → ℕ
bytes_of (ret n) = n
bytes_of (fail e) = 0

abbrev pub at_position : Op → Res ℕ → ℕ
at_position (read _) r = bytes_of r
at_position (write _) r = bytes_of r
at_position (readv _) r = bytes_of r
at_position (writev _) r = bytes_of r
at_position _ r = 0

advance-bytes : (p : ℕ) (r : Res ℕ) → advance p r ≡ (p + bytes_of r, r)
unfolding advance
advance-bytes p (ret n) = ground arith
advance-bytes p (fail e) = ground arith

run_op-position :
    (vr vw : Transfer) (o : Op) (p : ℕ)
    → (run_op vr vw o p).0 ≡ p + at_position o (run_op vr vw o p).1
unfolding run_op
run_op-position vr vw (read count) p = rw (advance-bytes p (vr p count)) refl
run_op-position vr vw (write count) p = rw (advance-bytes p (vw p count)) refl
run_op-position vr vw (readv iov) p = rw (advance-bytes p (vector_at vr iov p)) refl
run_op-position vr vw (writev iov) p = rw (advance-bytes p (vector_at vw iov p)) refl
run_op-position vr vw (pread count offset) p = omega arith
run_op-position vr vw (pwrite count offset) p = omega arith
run_op-position vr vw (preadv iov offset) p = omega arith
run_op-position vr vw (pwritev iov offset) p = omega arith

-- The operations one after the other, with the bytes moved at the position.
abbrev pub run : (vr vw : Transfer) → List Op → (p : ℕ) → ℕ × ℕ
run vr vw [] p = (p, 0)
run vr vw (o ∷ os) p =
    let rest = run vr vw os (run_op vr vw o p).0 in
    (rest.0, at_position o (run_op vr vw o p).1 + rest.1)

-- After any sequence of reads and writes of all kinds, failed ones included, the position has
-- advanced by exactly the bytes that read, write, readv and writev have moved; the operations that
-- have an offset of their own leave it alone.
pub run-position :
    (vr vw : Transfer) (os : List Op) (p : ℕ) → (run vr vw os p).0 ≡ p + (run vr vw os p).1
run-position vr vw [] p = omega arith
run-position vr vw (o ∷ os) p =
    omega (arith, run-position vr vw os (run_op vr vw o p).0, run_op-position vr vw o p)
