-- ===== src/Epoll/Laws.antt =====
-- An instance of epoll treats a synthetic descriptor as its backing one; and when the timeout is
-- kept.
use wslcompat.Prelude.{
  ℕ, ◌+◌, ◌*◌, ◌/◌, ◌%◌, ◌^◌, ◌≤◌, ◌<◌, ◌≡◌, refl, ap, ◌∙◌, inl, inr, Bool, true, false, ◌&&◌, some,
  List, [], ◌∷◌, arith, eperm, enoent, ltb, if◌then◌else◌, lt→ltb, ==_self, Bool-cases,
  Option-cases, Option, none, Res, ret, fail,
}
use wslcompat.Prelude.Int.{ℤ, pos, negsuc, is_neg}
use wslcompat.Epoll.{
  CtlOp, ctl_other, ctl_add, ctl_del, ctl_mod, Ctl, expected, is_expected, after_ctl, epoll_ctl,
  to_int, timeout_ms,
}

-- The descriptor that a call is about.
abbrev pub translated : (ℤ → ℤ) → ℤ → ℤ
translated backing fd = if is_neg (backing fd) then fd else backing fd

-- The three operations, and what the kernel says of a descriptor that it cannot watch: EPERM for an
-- addition, and ENOENT otherwise, since it is not there.
abbrev pub is_handled : CtlOp → Bool
is_handled (ctl_other n) = false
is_handled _ = true

abbrev pub refusal : CtlOp → ℕ
refusal ctl_add = eperm
refusal _ = enoent

-- An instance of epoll refuses each descriptor that has a backing one, and nothing happens. On an
-- `epfd` that is no instance the kernel fails with an errno of its own (`no_instance`), whatever
-- the other descriptor is.
pub record RefusesPath {S : Type 0} (kernel : Ctl S) (backing : ℤ → ℤ) (no_instance : ℤ → Option ℕ)
    : Type 0 where
  pub path :
      (epfd : ℤ) (op : CtlOp) (fd : ℤ) (event : ℕ) (s : S)
      → no_instance epfd ≡ none
      → is_neg (backing fd) ≡ false
      → is_handled op ≡ true
      → kernel epfd op fd event s ≡ (fail (refusal op), s)
  pub bad :
      (epfd : ℤ) (op : CtlOp) (fd : ℤ) (event : ℕ) (s : S) (e : ℕ)
      → no_instance epfd ≡ some e
      → kernel epfd op fd event s ≡ (fail e, s)

expected-refusal : (op : CtlOp) → is_handled op ≡ true → expected op ≡ some (refusal op)
unfolding expected
expected-refusal ctl_add h = refl
expected-refusal ctl_del h = refl
expected-refusal ctl_mod h = refl
expected-refusal (ctl_other n) h = cc

-- A call of epoll_ctl with one of the three operations.
pub record CtlCall : Type 0 where
  pub epfd : ℤ
  pub op : CtlOp
  pub fd : ℤ
  pub event : ℕ

abbrev pub all_handled : List CtlCall → Bool
all_handled [] = true
all_handled (c ∷ cs) = is_handled c.op && all_handled cs

-- The results of a sequence of calls, and the state behind it.
abbrev pub run_calls :
    {S : Type 0} → (CtlCall → S → Res ℕ × S) → List CtlCall → S → List (Res ℕ) × S
run_calls f [] s = ([], s)
run_calls f (c ∷ cs) s = let (r, s') = f c s in let (rs, s'') = run_calls f cs s' in (r ∷ rs, s'')

module _ {S : Type 0} (kernel : Ctl S) (backing : ℤ → ℤ) (no_instance : ℤ → Option ℕ)
    (refuses : RefusesPath kernel backing no_instance) where
  abbrev pub by_shim : CtlCall → S → Res ℕ × S
  by_shim c s = epoll_ctl kernel backing false c.epfd c.op c.fd c.event s

  abbrev pub by_kernel : CtlCall → S → Res ℕ × S
  by_kernel c s = kernel c.epfd c.op (translated backing c.fd) c.event s

  after_ctl_plain :
      (c : CtlCall) (r : Res ℕ × S)
      → is_neg (backing c.fd) ≡ true
      → after_ctl kernel backing c.epfd c.op c.fd c.event r ≡ r
  unfolding after_ctl
  after_ctl_plain c (ret n, s) h = refl
  after_ctl_plain c (fail e, s) h = ground arith

  epoll_ctl_lem : (c : CtlCall) (s : S) → is_handled c.op ≡ true → by_shim c s ≡ by_kernel c s
  unfolding epoll_ctl after_ctl is_expected
  epoll_ctl_lem c s h = elim (Bool-cases (is_neg (backing c.fd))) [
    | inl n ↦ rw n (after_ctl_plain c (kernel c.epfd c.op c.fd c.event s) n)
    | inr p ↦ elim (Option-cases (no_instance c.epfd)) [
      | inr (e, q) ↦ ground (
        arith,
        refuses.bad c.epfd c.op c.fd c.event s e q,
        refuses.bad c.epfd c.op (backing c.fd) c.event s e q,
      )
      | inl q ↦
          rw
            (
              p,
              refuses.path c.epfd c.op c.fd c.event s q p h,
              expected-refusal c.op h,
              is_expected,
              ==_self (refusal c.op),
            )
            (rw p refl)
    ]
  ]

  -- Any sequence of additions, changes and removals, on any descriptors, has the results and the
  -- effect of the same sequence on the kernel with each synthetic descriptor replaced by its
  -- backing one. An instance refuses a synthetic descriptor with EPERM for an addition and with
  -- ENOENT otherwise; on an `epfd` that is no instance the kernel's errno is the same whatever the
  -- descriptor is; and the tunables do not disable epoll_ctl.
  pub epoll_ctl_run :
      (cs : List CtlCall) (s : S)
      → all_handled cs ≡ true
      → run_calls by_shim cs s ≡ run_calls by_kernel cs s
  epoll_ctl_run [] s h = refl
  epoll_ctl_run (c ∷ cs) s h =
      let first = epoll_ctl_lem c s (ground arith) in
      let rest = epoll_ctl_run cs (by_kernel c s).1 (ground arith) in
      ap (λ (r : Res ℕ × S). let (rs, s'') = run_calls by_shim cs r.1 in (r.0 ∷ rs, s'')) first
      ∙ ap (λ (r : List (Res ℕ) × S). ((by_kernel c s).0 ∷ r.0, r.1)) rest

-- The nanoseconds of an int of milliseconds.
abbrev pub ns_of : ℤ → ℕ
ns_of (pos m) = m * 1000000
ns_of (negsuc m) = 0

-- A timeout of at most 2147482 seconds becomes a number of milliseconds that is not shorter, and
-- longer by less than one millisecond.
pub timeout_ms_bounds :
    (tv_sec tv_nsec : ℕ)
    → tv_sec ≤ 2147482
    → tv_nsec < 1000000000
    → (is_neg (timeout_ms (some (tv_sec, tv_nsec))) ≡ false)
      × (tv_sec * 1000000000 + tv_nsec ≤ ns_of (timeout_ms (some (tv_sec, tv_nsec))))
      × (ns_of (timeout_ms (some (tv_sec, tv_nsec))) < tv_sec * 1000000000 + tv_nsec + 1000000)
unfolding timeout_ms to_int
timeout_ms_bounds tv_sec tv_nsec h k =
    let m = tv_sec * 1000 + (tv_nsec + 999999) / 1000000 in
    let whole : m % 2 ^ 32 ≡ m = omega arith in
    let small : ltb m (2 ^ 31) ≡ true = lt→ltb m (2 ^ 31) (omega arith) in
    rw (whole, small) (refl, omega arith, omega arith)

-- A timeout between 2147484 and 4294966 seconds becomes a negative number of milliseconds, for
-- which epoll_pwait waits without end.
pub timeout_ms-negative :
    (tv_sec tv_nsec : ℕ)
    → 2147484 ≤ tv_sec
    → tv_sec ≤ 4294966
    → tv_nsec < 1000000000
    → is_neg (timeout_ms (some (tv_sec, tv_nsec))) ≡ true
unfolding timeout_ms to_int
timeout_ms-negative tv_sec tv_nsec h k l =
    let m = tv_sec * 1000 + (tv_nsec + 999999) / 1000000 in
    let whole : m % 2 ^ 32 ≡ m = omega arith in
    let large : ltb m (2 ^ 31) ≡ false = ground arith in rw (whole, large) refl
