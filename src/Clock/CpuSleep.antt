-- ===== src/Clock/CpuSleep.antt =====
-- clock.c, `handle_process_cputime`: sleep until the process has used an amount of CPU time, by
-- polling. The CPU time used is below 2^63 nanoseconds, which is 292 years. The kernel is a
-- parameter by the number of its calls.
pub mod Waits
use wslcompat.Prelude.{
  ℕ, zero, suc, ◌+◌, ◌-◌, ◌*◌, ◌/◌, ◌%◌, ◌^◌, ◌≤◌, ◌<◌, ◌≡◌, refl, sym, ap, ◌∙◌, ◌≢◌, ◌↔◌, ◌⊎◌, inl,
  inr, Bool, true, false, not, ◌&&◌, ◌||◌, Option, none, some, List, [], ◌∷◌, ◌++◌, map, arith, ltb,
  leb, ◌==◌, if◌then◌else◌, ltb→lt, lt→ltb, leb→le, ==_iff, ==_self, Bool-cases, Option-cases,
  length, get_elem?, get_or, set, take, drop, replicate, length-append, length-set,
  get_elem?-set_self, get_elem?-set_ne, length-replicate, length-map, length-snoc, append-cons,
  is_some, Res, ret, fail, eperm, enoent, eintr, e2big, enoexec, ebadf, ewouldblock, enomem, efault,
  eexist, enodev, einval, enfile, enosys, enoprotoopt, eopnotsupp,
}
use wslcompat.Prelude.Int.{ℤ, pos, negsuc, minus_one, int_eq, is_neg, int_eq_iff, int_eq_self}

-- WIN_TICK_NS
abbrev pub win_tick_ns : ℕ
win_tick_ns = 15625000

-- struct timeval and struct timespec
pub record Timeval : Type 0 where
  pub tv_sec : ℕ
  pub tv_usec : ℕ

unfoldable pub tv_to_ns : Timeval → ℕ
tv_to_ns tv = tv.tv_sec * 1000000000 + tv.tv_usec * 1000

unfoldable pub ns_to_ts : ℕ → ℕ × ℕ
ns_to_ts ns = (ns / 1000000000, ns % 1000000000)

-- getrusage gives user and system time; clock_nanosleep on CLOCK_MONOTONIC gives an errno or 0.
pub record Kernel : Type 0 where
  pub getrusage : ℕ → Res (Timeval × Timeval)
  pub nanosleep : ℕ → (ℕ × ℕ) → ℕ

unfoldable pub rusage_cpu_ns : Kernel → ℕ → Res ℕ
rusage_cpu_ns K k = elim (K.getrusage k) [
  | fail e ↦ fail e
  | ret (user, system) ↦ ret (tv_to_ns user + tv_to_ns system)
]

-- The errno returned, what is stored in `rem`, and the CPU time read last.
pub record Outcome : Type 0 where
  pub rc : ℕ
  pub rem : Option (ℕ × ℕ)
  pub last : ℕ

-- MAX(target_ns - now_ns, WIN_TICK_NS)
unfoldable pub sleep_ns : (now target : ℕ) → ℕ
sleep_ns now target = if ltb (target - now) win_tick_ns then win_tick_ns else target - now

-- After a sleep that failed. `relative` says that the sleep is not TIMER_ABSTIME and the caller
-- wants `rem`.
unfoldable pub interrupted : Kernel → (k now target : ℕ) → (relative : Bool) → (rc : ℕ) → Outcome
interrupted K k now target relative rc =
    if not (rc == eintr) || not relative
    then record { rc = rc; rem = none; last = now }
    else elim (rusage_cpu_ns K k) [
      | fail e ↦ record { rc = rc; rem = none; last = now }
      | ret cur ↦ record { rc = rc; rem = some (ns_to_ts (target - cur)); last = cur }
    ]

-- The loop, whose next calls have the number `k`; `none` when the fuel runs out.
unfoldable pub poll_loop : ℕ → Kernel → (k now target : ℕ) → (relative : Bool) → Option Outcome
poll_loop zero K k now target relative = none
poll_loop (suc f) K k now target relative = elim (ltb now target) [
  | false ↦ some (record { rc = 0; rem = if relative then some (0, 0) else none; last = now })
  | true ↦
      let rc = K.nanosleep k (ns_to_ts (sleep_ns now target)) in
      elim (rc == 0) [
        | false ↦ some (interrupted K (k + 1) now target relative rc)
        | true ↦ elim (rusage_cpu_ns K (k + 1)) [
          | fail e ↦ some (record { rc = e; rem = none; last = now })
          | ret now' ↦ poll_loop f K (k + 1) now' target relative
        ]
      ]
]

-- A long long from a sum. A negative target is reached like 0, since no CPU time is below it.
unfoldable pub to_target : ℕ → ℕ
to_target n = let m = n % 2 ^ 64 in if ltb m (2 ^ 63) then m else 0

-- The request's seconds and nanoseconds are signed.
unfoldable pub handle_process_cputime :
    (fuel : ℕ) → Kernel → (abstime wants_rem : Bool) → (sec nsec : ℤ) → Option Outcome
handle_process_cputime fuel K abstime wants_rem (negsuc s) nsec =
    some (record { rc = einval; rem = none; last = 0 })
handle_process_cputime fuel K abstime wants_rem (pos s) (negsuc n) =
    some (record { rc = einval; rem = none; last = 0 })
handle_process_cputime fuel K abstime wants_rem (pos s) (pos n) = elim (leb 1000000000 n) [
  | true ↦ some (record { rc = einval; rem = none; last = 0 })
  | false ↦ elim (rusage_cpu_ns K 0) [
    | fail e ↦ some (record { rc = e; rem = none; last = 0 })
    | ret now ↦
        let target = to_target (s * 1000000000 + n + (if abstime then 0 else now)) in
        poll_loop fuel K 0 now target (wants_rem && not abstime)
  ]
]
