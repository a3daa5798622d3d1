-- ===== src/Lock/Board/Scan.antt =====
-- A scan, and a lock that is posted behind it, keep the board's locks apart.
use wslcompat.Prelude.{◌≡◌, inl, inr, false, some, List, [], ◌∷◌, arith, Bool-cases, Option-cases}
use mathlib.Core.Path.{subst}
use wslcompat.Lock.Board.{
  RangeLock, Slot, absent, unreadable, held, range_conflict, Procs, is_live, is_own,
  scan_range_conflicts, post, after_scan, lock_range,
}
use wslcompat.Lock.Board.Apart.{Apart, ApartFrom, Exclusive, Apart-comm}

some_eq {ℓ} : {A : Type ℓ} (a b : A) → some a ≡ some b → a ≡ b
some_eq a b e = cc e

-- What a scan leaves is what was there.
scan-ApartFrom :
    (procs : Procs) (fl l : RangeLock) (ss : List Slot)
    → ApartFrom procs l ss
    → ApartFrom procs l (scan_range_conflicts procs fl ss).1
unfolding scan_range_conflicts
scan-ApartFrom procs fl l [] h = tt
scan-ApartFrom procs fl l (absent ∷ ss) h = scan-ApartFrom procs fl l ss h
scan-ApartFrom procs fl l (unreadable ∷ ss) h = scan-ApartFrom procs fl l ss h
scan-ApartFrom procs fl l (held m ∷ ss) h =
    let rest = scan-ApartFrom procs fl l ss h.1 in
    elim (Bool-cases (is_own fl.owner fl.start_time m)) [
      | inl y ↦ rw (y, scan_range_conflicts) (h.0, rest)
      | inr n ↦ elim (Bool-cases (is_live procs m)) [
        | inr d ↦ rw (n, d, scan_range_conflicts) rest
        | inl v ↦ elim (Bool-cases (range_conflict fl m)) [
          | inl c ↦ rw (n, v, c, scan_range_conflicts) h
          | inr c ↦ rw (n, v, c, scan_range_conflicts) (h.0, rest)
        ]
      ]
    ]

scan-Exclusive :
    (procs : Procs) (fl : RangeLock) (ss : List Slot)
    → Exclusive procs ss
    → Exclusive procs (scan_range_conflicts procs fl ss).1
unfolding scan_range_conflicts
scan-Exclusive procs fl [] h = tt
scan-Exclusive procs fl (absent ∷ ss) h = scan-Exclusive procs fl ss h
scan-Exclusive procs fl (unreadable ∷ ss) h = scan-Exclusive procs fl ss h
scan-Exclusive procs fl (held m ∷ ss) h =
    let rest = scan-Exclusive procs fl ss h.1 in
    let apart = scan-ApartFrom procs fl m ss h.0 in
    elim (Bool-cases (is_own fl.owner fl.start_time m)) [
      | inl y ↦ rw (y, scan_range_conflicts) (apart, rest)
      | inr n ↦ elim (Bool-cases (is_live procs m)) [
        | inr d ↦ rw (n, d, scan_range_conflicts) rest
        | inl v ↦ elim (Bool-cases (range_conflict fl m)) [
          | inl c ↦ rw (n, v, c, scan_range_conflicts) h
          | inr c ↦ rw (n, v, c, scan_range_conflicts) (apart, rest)
        ]
      ]
    ]

-- A scan without conflict has compared the lock with every other.
scan-clear :
    (procs : Procs) (fl : RangeLock) (ss : List Slot)
    → (scan_range_conflicts procs fl ss).0 ≡ false
    → ApartFrom procs fl (scan_range_conflicts procs fl ss).1
unfolding scan_range_conflicts
scan-clear procs fl [] h = tt
scan-clear procs fl (absent ∷ ss) h = scan-clear procs fl ss h
scan-clear procs fl (unreadable ∷ ss) h = scan-clear procs fl ss h
scan-clear procs fl (held m ∷ ss) h = elim (Bool-cases (is_own fl.owner fl.start_time m)) [
  | inl y ↦
      rw (y, scan_range_conflicts)
        (ground arith, scan-clear procs fl ss (rw (y, scan_range_conflicts) at h))
  | inr n ↦ elim (Bool-cases (is_live procs m)) [
    | inr d ↦
        rw (n, d, scan_range_conflicts)
          (scan-clear procs fl ss (rw (n, d, scan_range_conflicts) at h))
    | inl v ↦ elim (Bool-cases (range_conflict fl m)) [
      | inl c ↦ absurd (cc (rw (n, v, c, scan_range_conflicts) at h))
      | inr c ↦
          rw (n, v, c, scan_range_conflicts)
            (ground arith, scan-clear procs fl ss (rw (n, v, c, scan_range_conflicts) at h))
    ]
  ]
]

post-ApartFrom :
    (procs : Procs) (fl l : RangeLock) (ss ss' : List Slot)
    → Apart procs l fl
    → ApartFrom procs l ss
    → post fl ss ≡ some ss'
    → ApartFrom procs l ss'
unfolding post
post-ApartFrom procs fl l [] ss' a h e = cc
post-ApartFrom procs fl l (absent ∷ ss) ss' a h e =
    subst (ApartFrom procs l) (some_eq (held fl ∷ ss) ss' e) (a, h)
post-ApartFrom procs fl l (unreadable ∷ ss) ss' a h e = elim (Option-cases (post fl ss)) [
  | inl n ↦ absurd (cc (rw (n, post) at e))
  | inr (t, p) ↦
      subst (ApartFrom procs l) (some_eq (unreadable ∷ t) ss' (rw (p, post) at e))
        (post-ApartFrom procs fl l ss t a h p)
]
post-ApartFrom procs fl l (held m ∷ ss) ss' a h e = elim (Option-cases (post fl ss)) [
  | inl n ↦ absurd (cc (rw (n, post) at e))
  | inr (t, p) ↦
      subst (ApartFrom procs l) (some_eq (held m ∷ t) ss' (rw (p, post) at e))
        (h.0, post-ApartFrom procs fl l ss t a h.1 p)
]

post-Exclusive :
    (procs : Procs) (fl : RangeLock) (ss ss' : List Slot)
    → ApartFrom procs fl ss
    → Exclusive procs ss
    → post fl ss ≡ some ss'
    → Exclusive procs ss'
unfolding post
post-Exclusive procs fl [] ss' a h e = cc
post-Exclusive procs fl (absent ∷ ss) ss' a h e =
    subst (Exclusive procs) (some_eq (held fl ∷ ss) ss' e) (a, h)
post-Exclusive procs fl (unreadable ∷ ss) ss' a h e = elim (Option-cases (post fl ss)) [
  | inl n ↦ absurd (cc (rw (n, post) at e))
  | inr (t, p) ↦
      subst (Exclusive procs) (some_eq (unreadable ∷ t) ss' (rw (p, post) at e))
        (post-Exclusive procs fl ss t a h p)
]
post-Exclusive procs fl (held m ∷ ss) ss' a h e = elim (Option-cases (post fl ss)) [
  | inl n ↦ absurd (cc (rw (n, post) at e))
  | inr (t, p) ↦ subst (Exclusive procs) (some_eq (held m ∷ t) ss' (rw (p, post) at e)) (
    post-ApartFrom procs fl m ss t (Apart-comm procs fl m a.0) h.0 p,
    post-Exclusive procs fl ss t a.1 h.1 p,
  )
]

pub lock_range-Exclusive :
    (procs : Procs) (fl : RangeLock) (ss : List Slot)
    → Exclusive procs ss
    → Exclusive procs (lock_range procs fl ss).1
unfolding lock_range after_scan
lock_range-Exclusive procs fl ss h =
    let left = scan-Exclusive procs fl ss h in
    let board = (scan_range_conflicts procs fl ss).1 in
    elim (Bool-cases (scan_range_conflicts procs fl ss).0) [
      | inl c ↦ rw (c, after_scan) left
      | inr c ↦ elim (Option-cases (post fl board)) [
        | inl n ↦ rw (c, after_scan, n) left
        | inr (t, p) ↦
            rw (c, after_scan, p)
              (post-Exclusive procs fl board t (scan-clear procs fl ss c) left p)
      ]
    ]
