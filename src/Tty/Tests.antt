-- ===== src/Tty/Tests.antt =====
-- A terminal that delivers two bytes at a time, and the theorems of this part at it.
use wslcompat.Prelude.{
  ◌≡◌, refl, true, false, ◌||◌, some, List, [], ◌∷◌, arith, ltb, leb, if◌then◌else◌, ret, fail,
  ebadf,
}
use wslcompat.Prelude.Int.{pos, minus_one}
use wslcompat.Tty.{TtyState, Kernel, round_bytes, read_loop, after_first, raw_read, tty_read}
use wslcompat.Tty.Read.{ReadsWithin, Supplied, Ends, tty_read-Ends, tty_read-waits}
use wslcompat.Tty.Wrap.{
  Termios, Terminal, set_termios, fionbio, other_request, set_flags, Calls, Slot, Ttys, Results,
  failed, wrapped, tty_install, tty_alloc, dup_real, read_flags, open_synth, put_over,
}
use wslcompat.Tty.Wrap.Caches.{
  IsTty, Coherent, Act, by_ioctl, by_fcntl, act, run, run-Coherent, fionbio_stale, ioctl_effect,
  fcntl_effect,
}
use wslcompat.Tty.Wrap.Install.{claims, tty_install_fails}

abbrev kernel : Kernel
kernel = record {
  passthru = false;
  poll = λ _ _. ret 1;
  read = λ _ count. ret (if ltb count 2 then count else 2);
}

kernel-ReadsWithin : ReadsWithin kernel
kernel-ReadsWithin k count n e = ground arith

kernel-Supplied : Supplied kernel
kernel-Supplied = record {
  wakes = λ _ _. refl;
  next = λ _ count. if ltb count 2 then count else 2;
  reads = λ _ _. refl;
  gives = λ _ count h. ground arith;
}

abbrev raw : TtyState
raw = record { canon = false; nonblock = false; vmin = 5; vtime = 0 }

tty_read-Ends_example : Ends 10 (tty_read kernel raw 10)
tty_read-Ends_example = tty_read-Ends kernel raw 10 kernel-ReadsWithin

six_bytes : tty_read kernel raw 10 ≡ some (ret 6)
unfolding tty_read raw_read after_first read_loop round_bytes
six_bytes = refl

tty_read-waits_example : leb 5 6 || leb 10 6 ≡ true
tty_read-waits_example =
    tty_read-waits kernel raw 10 6 kernel-Supplied refl (omega arith) (omega arith) six_bytes

-- A terminal whose calls succeed.
abbrev tty : Calls
tty = record { ioctl = λ q t. (ret 0, ioctl_effect q t); fcntl = λ c t. (ret 0, fcntl_effect c t) }

tty-IsTty : IsTty tty
tty-IsTty = record { ioctl_law = λ q t. refl; fcntl_law = λ c t. refl }

abbrev raw_settings : Termios
raw_settings = record { icanon = false; min = 5; time = 0 }

abbrev cooked : Termios
cooked = record { icanon = true; min = 1; time = 0 }

abbrev at_start : TtyState × Terminal
at_start = (raw, record { termios = raw_settings; nonblock = false })

at_start-Coherent : Coherent at_start
at_start-Coherent = record { canon = refl; vmin = refl; vtime = refl; nonblock = refl }

abbrev session : List Act
session =
    by_ioctl (set_termios cooked) ∷ by_fcntl (set_flags true) ∷ by_ioctl (other_request 7) ∷ []

run-Coherent_example : Coherent (run tty session at_start)
run-Coherent_example = run-Coherent tty session at_start tty-IsTty refl at_start-Coherent

fionbio_stale_example : ¬ Coherent (act tty (by_ioctl (fionbio true)) at_start)
fionbio_stale_example =
    fionbio_stale tty true raw (record { termios = raw_settings; nonblock = false }) tty-IsTty
      at_start-Coherent refl (λ e. cc)

abbrev free_slot : Slot
free_slot = record { claimed = false; real_fd = minus_one; caches = raw }

abbrev table : Ttys
table = record { slots = free_slot ∷ free_slot ∷ []; held = pos 8 ∷ [] }

abbrev good : Results
good = record {
  dupfd = ret (pos 9);
  getfl = ret true;
  getfd = ret true;
  synth_open = ret (pos 10);
  dup3 = ret (pos 0);
}

-- dup3 fails after everything else.
abbrev late_failure : Results
late_failure = record good { dup3 = fail ebadf }

fails_late : (tty_install late_failure cooked table).0 ≡ failed
unfolding tty_install tty_alloc dup_real read_flags open_synth put_over
fails_late = refl

tty_install_fails_example :
    (claims (tty_install late_failure cooked table).1.slots ≡ false ∷ false ∷ [])
    × ((tty_install late_failure cooked table).1.held ≡ pos 8 ∷ [])
tty_install_fails_example = tty_install_fails late_failure cooked table fails_late

succeeds : (tty_install good cooked table).0 ≡ wrapped true
unfolding tty_install tty_alloc dup_real read_flags open_synth put_over
succeeds = refl
