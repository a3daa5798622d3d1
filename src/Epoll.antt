-- ===== src/Epoll.antt =====
-- epoll.c: epoll_ctl on synthetic descriptors, and the timeout of epoll_pwait2. `S` is the state
-- of the kernel's epoll instances.
pub mod Laws
mod Tests
use wslcompat.Prelude.{
  ℕ, zero, suc, ◌+◌, ◌-◌, ◌*◌, ◌/◌, ◌%◌, ◌^◌, ◌≤◌, ◌<◌, ◌≡◌, refl, sym, ap, ◌∙◌, ◌≢◌, ◌↔◌, ◌⊎◌, inl,
  inr, Bool, true, false, not, ◌&&◌, ◌||◌, Option, none, some, List, [], ◌∷◌, ◌++◌, map, arith, ltb,
  leb, ◌==◌, if◌then◌else◌, ltb→lt, lt→ltb, leb→le, ==_iff, ==_self, Bool-cases, Option-cases,
  length, get_elem?, get_or, set, take, take_all, drop, replicate, length-append, length-set,
  get_elem?-set_self, get_elem?-set_ne, length-replicate, length-map, length-snoc, append-cons,
  is_some, Res, ret, fail, eperm, enoent, eintr, e2big, enoexec, ebadf, ewouldblock, enomem, efault,
  eexist, enodev, einval, enfile, enosys, enoprotoopt, eopnotsupp,
}
use wslcompat.Prelude.Int.{ℤ, pos, negsuc, minus_one, int_eq, is_neg, int_eq_iff, int_eq_self}

-- EPOLL_CTL_ADD, EPOLL_CTL_DEL and EPOLL_CTL_MOD, and any other value.
pub data CtlOp : Type 0 where
  ctl_add ctl_del ctl_mod : CtlOp
  ctl_other : ℕ → CtlOp

-- epoll_ctl of the kernel on (epfd, op, fd, event).
abbrev pub Ctl : Type 0 → Type 0
Ctl S = ℤ → CtlOp → ℤ → (event : ℕ) → S → Res ℕ × S

-- The failure that a synthetic descriptor gives, none where the operation is not handled.
unfoldable pub expected : CtlOp → Option ℕ
expected ctl_add = some eperm
expected ctl_del = some enoent
expected ctl_mod = some enoent
expected (ctl_other n) = none

unfoldable pub is_expected : CtlOp → ℕ → Bool
is_expected op e = elim (expected op) [ none ↦ false | some x ↦ e == x ]

-- `backing` is wslcompat_synth_passthru for SYNTH_OP_POLL.
module _ {S : Type 0} (kernel : Ctl S) (backing : ℤ → ℤ) where
  unfoldable pub after_ctl : ℤ → CtlOp → ℤ → (event : ℕ) → Res ℕ × S → Res ℕ × S
  after_ctl epfd op fd event (ret n, s) = (ret n, s)
  after_ctl epfd op fd event (fail e, s) =
      if not (is_expected op e) || is_neg (backing fd)
      then (fail e, s)
      else kernel epfd op (backing fd) event s

  unfoldable pub epoll_ctl : (passthru : Bool) → ℤ → CtlOp → ℤ → (event : ℕ) → S → Res ℕ × S
  epoll_ctl passthru epfd op fd event s =
      let r = kernel epfd op fd event s in if passthru then r else after_ctl epfd op fd event r

-- An int from a long.
unfoldable pub to_int : ℕ → ℤ
to_int n = let m = n % 2 ^ 32 in if ltb m (2 ^ 31) then pos m else negsuc (2 ^ 32 - m - 1)

-- The milliseconds of epoll_pwait2; none is a NULL timeout.
unfoldable pub timeout_ms : Option (ℕ × ℕ) → ℤ
timeout_ms none = minus_one
timeout_ms (some (tv_sec, tv_nsec)) = to_int (tv_sec * 1000 + (tv_nsec + 999999) / 1000000)

-- epoll_pwait2, from the kernel's result; `epoll_pwait` is the kernel's, for a timeout.
unfoldable pub epoll_pwait2 :
    (passthru : Bool) → (native : Res ℕ) → (epoll_pwait : ℤ → Res ℕ) → Option (ℕ × ℕ) → Res ℕ
epoll_pwait2 passthru (ret n) epoll_pwait timeout = ret n
epoll_pwait2 passthru (fail e) epoll_pwait timeout =
    if not (e == enosys) || passthru then fail e else epoll_pwait (timeout_ms timeout)
