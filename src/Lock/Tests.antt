-- ===== src/Lock/Tests.antt =====
-- A file with a shared lock of another process, and the theorems of this part at it.
use wslcompat.Prelude.{refl, some}
use wslcompat.Prelude.Int.{ℤ, pos, minus_one}
use wslcompat.Lock.{wrlck, Flock, Kernel, getlk, ofd_getlk, fcntl_lock_shim}
use wslcompat.Lock.Conflicts.{shared, attempt, Answers, Reported, getlk-Reported}

abbrev kernel : Kernel
kernel = record {
  flock = λ _ op. attempt shared op.kind;
  reopen = λ _. some (pos 9);
  passthru = λ _. minus_one;
}

kernel-Answers : (fd : ℤ) → Answers kernel fd shared
kernel-Answers fd kind = refl

abbrev proposed : Flock
proposed = record { l_type = wrlck; l_whence = 0; l_start = pos 10; l_len = pos 4; l_pid = pos 0 }

getlk-Reported_example :
    Reported shared (pos 9) proposed (fcntl_lock_shim kernel (pos 3) getlk proposed)
    × Reported shared (pos 9) proposed (fcntl_lock_shim kernel (pos 3) ofd_getlk proposed)
getlk-Reported_example =
    getlk-Reported kernel (pos 3) (pos 9) shared proposed refl (kernel-Answers (pos 9))
