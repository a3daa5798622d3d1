-- ===== src/Epoll/Tests.antt =====
-- An instance that watches descriptor 9 for the synthetic descriptor 5.
use wslcompat.Prelude.{
  ℕ, ◌≤◌, ◌<◌, ◌≡◌, refl, Bool, true, false, some, List, [], ◌∷◌, arith, if◌then◌else◌, ret, fail,
  eperm, enoent, eexist, ebadf, Option, none, einval, enosys,
}
use wslcompat.Prelude.Int.{ℤ, pos, negsuc, minus_one, int_eq, is_neg}
use wslcompat.Epoll.{
  CtlOp, ctl_add, ctl_del, ctl_mod, ctl_other, Ctl, timeout_ms, epoll_pwait2, to_int,
}
use wslcompat.Epoll.Laws.{
  is_handled, refusal, RefusesPath, CtlCall, run_calls, by_shim, by_kernel, epoll_ctl_run,
  timeout_ms_bounds, timeout_ms-negative, ns_of,
}

abbrev backing : ℤ → ℤ
backing fd = if int_eq fd (pos 5) then pos 9 else minus_one

-- The state is whether 9 is watched. Descriptor 5 is an O_PATH one.
abbrev kernel : Ctl Bool
kernel (negsuc n) op fd event s = (fail ebadf, s)
kernel epfd ctl_add fd event s =
    if int_eq fd (pos 5) then (fail eperm, s) else if s then (fail eexist, s) else (ret 0, true)
kernel epfd ctl_del fd event s =
    if int_eq fd (pos 5) then (fail enoent, s) else if s then (ret 0, false) else (fail enoent, s)
kernel epfd ctl_mod fd event s =
    if int_eq fd (pos 5) then (fail enoent, s) else if s then (ret 0, s) else (fail enoent, s)
kernel epfd (ctl_other n) fd event s = (fail einval, s)

abbrev no_instance : ℤ → Option ℕ
no_instance epfd = if is_neg epfd then some ebadf else none

kernel-RefusesPath : RefusesPath kernel backing no_instance
kernel-RefusesPath = record { path = path; bad = bad }
  where
    path :
        (epfd : ℤ) (op : CtlOp) (fd : ℤ) (event : ℕ) (s : Bool)
        → no_instance epfd ≡ none
        → is_neg (backing fd) ≡ false
        → is_handled op ≡ true
        → kernel epfd op fd event s ≡ (fail (refusal op), s)
    path (negsuc n) op fd event s q h x = cc
    path (pos n) ctl_add fd event s q h x = ground arith
    path (pos n) ctl_del fd event s q h x = ground arith
    path (pos n) ctl_mod fd event s q h x = ground arith
    path (pos n) (ctl_other m) fd event s q h x = cc

    bad :
        (epfd : ℤ) (op : CtlOp) (fd : ℤ) (event : ℕ) (s : Bool) (e : ℕ)
        → no_instance epfd ≡ some e
        → kernel epfd op fd event s ≡ (fail e, s)
    bad (pos n) op fd event s e q = cc
    bad (negsuc n) op fd event s e q = ground arith

abbrev on_five : CtlOp → CtlCall
on_five op = record { epfd = pos 3; op = op; fd = pos 5; event = 1 }

abbrev calls : List CtlCall
calls =
    record { epfd = minus_one; op = ctl_add; fd = pos 5; event = 1 }
    ∷ on_five ctl_add
    ∷ on_five ctl_add
    ∷ on_five ctl_del
    ∷ []

epoll_ctl_run_example :
    run_calls (by_shim kernel backing no_instance kernel-RefusesPath) calls false
    ≡ run_calls (by_kernel kernel backing no_instance kernel-RefusesPath) calls false
epoll_ctl_run_example = epoll_ctl_run kernel backing no_instance kernel-RefusesPath calls false refl

-- Not an instance, added, refused as present, and removed.
answers :
    run_calls (by_kernel kernel backing no_instance kernel-RefusesPath) calls false
    ≡ (fail ebadf ∷ ret 0 ∷ fail eexist ∷ ret 0 ∷ [], false)
answers = refl

timeout_ms_bounds_example :
    (is_neg (timeout_ms (some (1, 1))) ≡ false)
    × (1000000001 ≤ ns_of (timeout_ms (some (1, 1))))
    × (ns_of (timeout_ms (some (1, 1))) < 1001000001)
timeout_ms_bounds_example = timeout_ms_bounds 1 1 (omega arith) (omega arith)

-- Thirty days.
timeout_ms-negative_example : is_neg (timeout_ms (some (2592000, 0))) ≡ true
timeout_ms-negative_example =
    timeout_ms-negative 2592000 0 (omega arith) (omega arith) (omega arith)

rounded_up :
    epoll_pwait2 false
      (fail enosys)
      (λ t. if int_eq t (pos 1001) then ret 7 else ret 0)
      (some (1, 1))
    ≡ ret 7
unfolding epoll_pwait2 timeout_ms to_int
rounded_up = refl
