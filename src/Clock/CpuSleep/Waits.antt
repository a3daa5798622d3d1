-- ===== src/Clock/CpuSleep/Waits.antt =====
-- The polling loop ends, and not too early.
use wslcompat.Prelude.{
  ℕ, zero, suc, ◌+◌, ◌*◌, ◌/◌, ◌%◌, ◌≤◌, ◌<◌, ◌≡◌, refl, inl, inr, Bool, true, false, not, ◌&&◌,
  Option, none, some, arith, ltb, leb, if◌then◌else◌, ltb→lt, lt→ltb, ◌^◌, Bool-cases, ret,
}
use wslcompat.Prelude.Int.{pos}
use wslcompat.Clock.CpuSleep.{
  Timeval, tv_to_ns, Kernel, rusage_cpu_ns, Outcome, sleep_ns, ns_to_ts, poll_loop,
  handle_process_cputime, to_target,
}

-- Every sleep runs to its end, the reading of the times never fails, and each reading is later than
-- the one before.
pub record Advances (K : Kernel) (time : ℕ → ℕ) : Type 0 where
  pub sleeps : (k : ℕ) (d : ℕ × ℕ) → K.nanosleep k d ≡ 0
  pub reads : (k : ℕ) → rusage_cpu_ns K k ≡ ret (time k)
  pub later : (k : ℕ) → time k < time (k + 1)

-- The outcome of a sleep that reached its target.
pub record Reached (target : ℕ) (relative : Bool) (o : Option Outcome) : Type 0 where
  pub outcome : Outcome
  pub ended : o ≡ some outcome
  pub success : outcome.rc ≡ 0
  pub late_enough : target ≤ outcome.last
  pub nothing_left : outcome.rem ≡ (if relative then some (0, 0) else none)

poll_loop-Reached :
    (f : ℕ) (K : Kernel) (time : ℕ → ℕ) (k target : ℕ) (relative : Bool)
    → Advances K time
    → 0 < f
    → target < time k + f
    → Reached target relative (poll_loop f K k (time k) target relative)
unfolding poll_loop
poll_loop-Reached zero K time k target relative a p h = elim p [ ]
poll_loop-Reached (suc f) K time k target relative a p h = elim (Bool-cases (ltb (time k) target)) [
  | inr n ↦
      rw (n, poll_loop)
        (record {
          outcome = _;
          ended = refl;
          success = refl;
          late_enough = ground arith;
          nothing_left = refl;
        })
  | inl y ↦
      let enough : target < time (k + 1) + f = omega (arith, a.later k) in
      let more : 0 < f = omega (arith, ltb→lt (time k) target y) in
      rw (y, a.sleeps k (ns_to_ts (sleep_ns (time k) target)), a.reads (k + 1), poll_loop)
        (poll_loop-Reached f K time (k + 1) target relative a more enough)
]

-- The CPU time that a sleep waits for.
abbrev pub target_of : (abstime : Bool) → (now requested : ℕ) → ℕ
target_of true now requested = requested
target_of false now requested = requested + now

in_range : (n m : ℕ) → n ≡ m → m < 2 ^ 63 → to_target n ≡ m
unfolding to_target
in_range n m e h =
    let whole : n % 2 ^ 64 ≡ m = omega arith in
    let small : ltb m (2 ^ 63) ≡ true = lt→ltb m (2 ^ 63) h in rw (whole, small) refl

-- While sleeps are not interrupted and the process keeps using CPU time: a sleep for a valid time,
-- or until one, whose target is below 2^63
-- nanoseconds, ends, with as many rounds as nanoseconds requested as fuel, and one more. It
-- returns 0, not before the CPU time is reached, and stores a remainder of 0 if it is relative and
-- one is wanted.
pub handle_process_cputime-Reached :
    (K : Kernel) (time : ℕ → ℕ) (abstime wants_rem : Bool) (s n : ℕ)
    → Advances K time
    → n < 1000000000
    → target_of abstime (time 0) (s * 1000000000 + n) < 2 ^ 63
    → Reached
        (target_of abstime (time 0) (s * 1000000000 + n))
        (wants_rem && not abstime)
        (handle_process_cputime (s * 1000000000 + n + 1) K abstime wants_rem (pos s) (pos n))
unfolding handle_process_cputime
handle_process_cputime-Reached K time true wants_rem s n a h small =
    let valid : leb 1000000000 n ≡ false = ground arith in
    let target : to_target (s * 1000000000 + n + 0) ≡ s * 1000000000 + n =
      in_range _ _ (omega arith) small in
    rw (valid, a.reads 0, target, handle_process_cputime)
      (poll_loop-Reached _ K time 0 _ _ a (omega arith) (omega arith))
handle_process_cputime-Reached K time false wants_rem s n a h small =
    let valid : leb 1000000000 n ≡ false = ground arith in
    let target = in_range _ _ refl small in
    rw (valid, a.reads 0, target, handle_process_cputime)
      (poll_loop-Reached _ K time 0 _ _ a (omega arith) (omega arith))

-- What a time in nanoseconds says as seconds and nanoseconds, for the time of a getrusage that is
-- back in one number: the pair is normalized and says the same time.
pub ns_to_ts-tv_to_ns :
    (tv : Timeval) → tv.tv_usec < 1000000 → ns_to_ts (tv_to_ns tv) ≡ (tv.tv_sec, tv.tv_usec * 1000)
unfolding ns_to_ts tv_to_ns
ns_to_ts-tv_to_ns tv h =
    let sec : (tv.tv_sec * 1000000000 + tv.tv_usec * 1000) / 1000000000 ≡ tv.tv_sec = omega arith in
    let rest : (tv.tv_sec * 1000000000 + tv.tv_usec * 1000) % 1000000000 ≡ tv.tv_usec * 1000 =
      omega arith in
    rw (sec, rest) refl
