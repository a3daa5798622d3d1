-- ===== src/Lock/Board.antt =====
-- future/xattr_locks.c: record locks on a board of extended attributes. An update of the board is
-- one step, since the code holds LOCK_EX on the file around it. A lock's range is from `l_start`
-- on, and without end where `l_len` is 0. Ranges are natural numbers, whose ends are taken to be
-- below 2^63; and an attribute reads as it was written, although in the C code a shorter text is
-- scanned with what a longer one has left in the buffer, which is not terminated.
pub mod Apart
pub mod Scan
pub mod Exclusion
mod Tests
use wslcompat.Prelude.{
  ℕ, zero, suc, ◌+◌, ◌-◌, ◌*◌, ◌/◌, ◌%◌, ◌^◌, ◌≤◌, ◌<◌, ◌≡◌, refl, sym, ap, ◌∙◌, ◌≢◌, ◌↔◌, ◌⊎◌, inl,
  inr, Bool, true, false, not, ◌&&◌, ◌||◌, Option, none, some, List, [], ◌∷◌, ◌++◌, map, arith, ltb,
  leb, ◌==◌, if◌then◌else◌, ltb→lt, lt→ltb, leb→le, ==_iff, ==_self, Bool-cases, Option-cases,
  length, get_elem?, get_or, set, take, take_all, drop, replicate, length-append, length-set,
  get_elem?-set_self, get_elem?-set_ne, length-replicate, length-map, length-snoc, append-cons,
  is_some, Res, ret, fail, eperm, enoent, eintr, e2big, enoexec, ebadf, ewouldblock, enomem, efault,
  eexist, enodev, einval, enfile, enosys, enoprotoopt, eopnotsupp,
}

pub data LockType : Type 0 where
  rdlck wrlck : LockType

-- An attribute's text: pid, start time, l_type, l_start and l_len.
pub record RangeLock : Type 0 where
  pub owner : ℕ
  pub start_time : ℕ
  pub l_type : LockType
  pub l_start : ℕ
  pub l_len : ℕ

-- One of the attributes user.wslcompat.lock.<i>: absent, not as sscanf reads it, or a lock.
pub data Slot : Type 0 where
  absent unreadable : Slot
  held : RangeLock → Slot

abbrev pub both_read : LockType → LockType → Bool
both_read rdlck rdlck = true
both_read _ _ = false

-- range_conflict
unfoldable pub range_conflict : RangeLock → RangeLock → Bool
range_conflict a b =
    if both_read a.l_type b.l_type
    then false
    else if (a.l_len == 0) || (b.l_len == 0)
    then true
    else if leb (b.l_start + b.l_len) a.l_start
    then false
    else if leb (a.l_start + a.l_len) b.l_start
    then false
    else true

-- The start time of each live process, by get_start_time; none where kill gives ESRCH.
abbrev pub Procs : Type 0
Procs = ℕ → Option ℕ

unfoldable pub is_live : Procs → RangeLock → Bool
is_live procs l = elim (procs l.owner) [ none ↦ false | some t ↦ t == l.start_time ]

unfoldable pub is_own : (pid start : ℕ) → RangeLock → Bool
is_own pid start l = (l.owner == pid) && (l.start_time == start)

-- scan_range_conflicts of the caller `fl`: is there a conflict, and the board, from which what is
-- stale before the conflict is gone.
unfoldable pub scan_range_conflicts : Procs → RangeLock → List Slot → Bool × List Slot
scan_range_conflicts procs fl [] = (false, [])
scan_range_conflicts procs fl (absent ∷ ss) =
    let (c, ss') = scan_range_conflicts procs fl ss in (c, absent ∷ ss')
scan_range_conflicts procs fl (unreadable ∷ ss) =
    let (c, ss') = scan_range_conflicts procs fl ss in (c, absent ∷ ss')
scan_range_conflicts procs fl (held l ∷ ss) =
    let (c, ss') = scan_range_conflicts procs fl ss in
    if is_own fl.owner fl.start_time l
    then (c, held l ∷ ss')
    else if not (is_live procs l)
    then (c, absent ∷ ss')
    else if range_conflict fl l
    then (true, held l ∷ ss)
    else (c, held l ∷ ss')

-- The loop that posts the lock in the first free slot.
unfoldable pub post : RangeLock → List Slot → Option (List Slot)
post fl [] = none
post fl (absent ∷ ss) = some (held fl ∷ ss)
post fl (s ∷ ss) = elim (post fl ss) [ none ↦ none | some ss' ↦ some (s ∷ ss') ]

-- F_UNLCK of a range: every lock of the caller goes.
unfoldable pub unlock : (pid start : ℕ) → List Slot → List Slot
unlock pid start [] = []
unlock pid start (held l ∷ ss) =
    (if is_own pid start l then absent else held l) ∷ unlock pid start ss
unlock pid start (s ∷ ss) = s ∷ unlock pid start ss

abbrev pub eagain : ℕ
eagain = 11

abbrev pub enolck : ℕ
enolck = 37

unfoldable pub after_scan : RangeLock → Bool × List Slot → Res ℕ × List Slot
after_scan fl (true, ss) = (fail eagain, ss)
after_scan fl (false, ss) = elim (post fl ss) [ none ↦ (fail enolck, ss) | some ss' ↦ (ret 0, ss') ]

-- fcntl_lock_shim for a range and a lock, whose owner is the caller.
unfoldable pub lock_range : Procs → RangeLock → List Slot → Res ℕ × List Slot
lock_range procs fl ss = after_scan fl (scan_range_conflicts procs fl ss)

-- What happens to a board: a process locks a range or unlocks, or the processes change.
pub data Step : Type 0 where
  locks : RangeLock → Step
  unlocks : (pid start : ℕ) → Step
  processes : Procs → Step

pub record Board : Type 0 where
  pub procs : Procs
  pub slots : List Slot

unfoldable pub step : Step → Board → Board
step (locks fl) b = record b { slots = (lock_range b.procs fl b.slots).1 }
step (unlocks pid start) b = record b { slots = unlock pid start b.slots }
step (processes procs) b = record b { procs = procs }

unfoldable pub run_steps : List Step → Board → Board
run_steps [] b = b
run_steps (s ∷ rest) b = run_steps rest (step s b)
