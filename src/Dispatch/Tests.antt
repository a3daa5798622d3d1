-- ===== src/Dispatch/Tests.antt =====
-- A machine with a wrap at descriptor 5, the terminal that backs it at 9, and an O_PATH descriptor
-- of another file at 6.
use wslcompat.Prelude.{
  ℕ, ◌+◌, ◌≡◌, refl, inr, true, false, none, some, List, [], ◌∷◌, if◌then◌else◌, Res, ret, fail,
  ebadf, einval, enosys,
}
use wslcompat.Prelude.Int.{ℤ, pos, int_eq}
use wslcompat.Dispatch.{
  Op, tc_ioctl, ioctl_after, run, unpinned, ioctl_entry, or_else, dispatch, handle, forward, pinned,
  after_kernel, fstat_after, set_request, backing_of, Reply, Handler, Host, World, canary, sys,
  shim, checked_shim, fcntl_shim, ioctl_shim, fstat_shim, f_setfl, TcCall, tc_call, tcgetpgrp,
  tcsetattr, read, readv, request, tc_result, ioctl, ftruncate,
}
use wslcompat.Dispatch.Forward.{shims_return_pins, shim_unserved, fcntl_keeps_path, kernel_at}
use wslcompat.Dispatch.Session.{path_errno, session_backed, run_calls, direct, IsWrap, in_read_c}

-- The kernel counts its calls on descriptor 9, and answers with the count.
abbrev kernel : Op → ℤ → List ℕ → ℕ → Res Reply × ℕ
kernel op fd args n =
    if int_eq fd (pos 9)
    then (ret (record { result = n + 1; out = n + 100 }), n + 1)
    else (fail (path_errno op), n)

abbrev plain : Handler ℕ
plain = record { calls = λ op. none; passthru = some (λ k n. pos 9) }

abbrev bare : Handler ℕ
bare = record { calls = λ op. none; passthru = none }

abbrev host : Host ℕ
host = record {
  disabled = λ op. false;
  kernel = kernel;
  entry = λ fd n. if int_eq fd (pos 5) then some plain else none;
  install = λ fd n. n + 1000;
}

abbrev start : World ℕ
start = record { state = 0; pins = 3 }

abbrev libc : TcCall → ℤ → ℕ → Res Reply × ℕ
libc c fd n = (fail enosys, n)

shims_return_pins_example :
    ((shim host read (pos 5) [] start).1.pins ≡ 3)
    × ((fcntl_shim host (pos 5) f_setfl 2048 start).1.pins ≡ 3)
    × ((ioctl_shim host (pos 5) f_setfl 2048 start).1.pins ≡ 3)
shims_return_pins_example = shims_return_pins host read (pos 5) [] f_setfl 2048 start

shim_unserved_example : shim host read (pos 6) [] start ≡ sys host read (pos 6) [] start
shim_unserved_example = shim_unserved host read (pos 6) [] start refl

-- Its reads have a function of their own.
abbrev reading : Handler ℕ
reading = record plain {
  calls = λ op. elim op [
    | read ↦ some (λ args n. (ret (record { result = 40; out = n }), n + 5))
    | _ ↦ none
  ];
}

abbrev wrapped : Host ℕ
wrapped = record host { entry = λ fd n. if int_eq fd (pos 5) then some reading else none }

wrapped-IsWrap : IsWrap wrapped (pos 5) reading (λ k n. pos 9)
wrapped-IsWrap = record {
  enabled = λ op e. refl;
  refuses = refused;
  found = λ s. refl;
  pass = refl;
  real = λ s. refl;
}
  where
    refused :
        (op : Op) (args : List ℕ) (n : ℕ)
        → in_read_c wrapped op ≡ true
        → kernel op (pos 5) args n ≡ (fail (path_errno op), n)
    refused readv args n e = refl
    refused op args n e = refl

abbrev session : List (Op × List ℕ)
session = (readv, []) ∷ (read, []) ∷ (ftruncate, 0 ∷ []) ∷ []

session_backed_example :
    run_calls wrapped (λ op args w. shim wrapped op (pos 5) args w) session start
    ≡ run_calls wrapped (direct wrapped reading (λ k n. pos 9)) session start
session_backed_example =
    session_backed wrapped (pos 5) reading (λ k n. pos 9) session start wrapped-IsWrap refl

fcntl_keeps_path_example :
    fcntl_shim
      (kernel_at host (pos 5) (λ args n. (ret (record { result = 0; out = 0 }), 77)))
      (pos 5)
      f_setfl
      0
      start
    ≡ fcntl_shim host (pos 5) f_setfl 0 start
unfolding backing_of
fcntl_keeps_path_example =
    fcntl_keeps_path host (λ args n. (ret (record { result = 0; out = 0 }), 77)) (pos 5) f_setfl 0
      start plain refl (inr refl) refl refl

wrap : (op arg : ℕ) → kernel ioctl (pos 5) (op ∷ arg ∷ []) 0 ≡ (fail ebadf, 0)
wrap op arg = refl

-- The group comes from the terminal.
foreground :
    (tc_call host libc (λ c. false) tcgetpgrp (pos 5) start).0
    ≡ ret (record { result = 100; out = 100 })
unfolding tc_call tc_ioctl request set_request tc_result ioctl_shim ioctl_after sys run canary
    unpinned ioctl_entry or_else dispatch handle forward pinned
foreground = refl

bad_action : (tc_call host libc (λ c. false) (tcsetattr 3 0) (pos 5) start).0 ≡ fail einval
unfolding tc_call tc_ioctl request set_request tc_result ioctl_shim ioctl_after sys run canary
    unpinned ioctl_entry or_else dispatch handle forward pinned
bad_action = refl

-- fallocate's relative: ftruncate on the wrap goes by EINVAL.
truncates : (shim host ftruncate (pos 5) (0 ∷ []) start).0 ≡ ret (record { result = 1; out = 100 })
unfolding shim after_kernel sys run canary or_else dispatch unpinned handle forward pinned
truncates = refl

abort_on_overflow : checked_shim host read (pos 5) 9 8 [] start ≡ none
unfolding checked_shim
abort_on_overflow = refl

stat_of_backing : (fstat_shim host true (pos 9) start).0 ≡ ret (record { result = 1; out = 100 })
unfolding fstat_shim fstat_after sys run backing_of
stat_of_backing = refl
