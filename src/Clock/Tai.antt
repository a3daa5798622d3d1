-- ===== src/Clock/Tai.antt =====
-- clock.c: CLOCK_TAI, which is CLOCK_REALTIME shifted by a number of seconds, the tunable
-- `taioffset`. The kernel's clocks are parameters.
use wslcompat.Prelude.{
  ℕ, zero, suc, ◌≡◌, ap, Bool, true, false, arith, if◌then◌else◌, Res, ret, fail,
}
use wslcompat.Prelude.Int.{ℤ, pos, negsuc}
use wslcompat.Prelude.Int.{int_add, int_neg, int_leb}

pub record Timespec : Type 0 where
  pub tv_sec : ℤ
  pub tv_nsec : ℤ

-- handle_tai_gettime: `real` is the kernel's answer for CLOCK_REALTIME.
unfoldable pub handle_tai_gettime : (offset : ℤ) → (real : Res Timespec) → Res Timespec
handle_tai_gettime offset (fail e) = fail e
handle_tai_gettime offset (ret t) = ret (record t { tv_sec = int_add t.tv_sec offset })

-- handle_tai: the time that the sleep on CLOCK_REALTIME is asked for.
unfoldable pub handle_tai : (abstime : Bool) (offset : ℤ) → Timespec → Timespec
handle_tai false offset req = req
handle_tai true offset req =
    if int_leb offset req.tv_sec
    then record req { tv_sec = int_add req.tv_sec (int_neg offset) }
    else record { tv_sec = pos 0; tv_nsec = pos 0 }

add-leb : (s : ℕ) (o : ℤ) → int_leb o (int_add (pos s) o) ≡ true
add-leb s (pos o) = ground arith
add-leb s (negsuc o) = ground arith

add-neg : (s : ℕ) (o : ℤ) → int_add (int_add (pos s) o) (int_neg o) ≡ pos s
add-neg s (pos zero) = ground arith
add-neg s (pos (suc o)) = ground arith
add-neg s (negsuc o) = ground arith

-- A sleep on CLOCK_TAI until a time that CLOCK_TAI has shown is a sleep on CLOCK_REALTIME until the
-- time that CLOCK_REALTIME showed then, for any offset, if that time is not before the epoch.
pub handle_tai-gettime :
    (offset : ℤ) (s : ℕ) (ns : ℤ) (t : Timespec)
    → handle_tai_gettime offset (ret (record { tv_sec = pos s; tv_nsec = ns })) ≡ ret t
    → handle_tai true offset t ≡ record { tv_sec = pos s; tv_nsec = ns }
unfolding handle_tai_gettime handle_tai
handle_tai-gettime offset s ns t e =
    let shown : record { tv_sec = int_add (pos s) offset; tv_nsec = ns } ≡ t = ground arith in
    rw⁻¹ shown (
      rw (add-leb s offset)
        (ap (λ (x : ℤ). record { tv_sec = x; tv_nsec = ns }) (add-neg s offset)))
