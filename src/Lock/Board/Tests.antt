-- ===== src/Lock/Board/Tests.antt =====
-- Two processes on a board of four slots.
use wslcompat.Prelude.{
  ℕ, ◌≡◌, refl, none, some, List, [], ◌∷◌, ◌==◌, if◌then◌else◌, replicate, ret, fail,
}
use wslcompat.Lock.Board.{
  wrlck, RangeLock, absent, held, range_conflict, Procs, is_live, is_own, scan_range_conflicts,
  post, after_scan, lock_range, Step, locks, unlocks, processes, step, eagain,
}
use wslcompat.Lock.Board.Exclusion.{AllLegit}

abbrev two : Procs
two pid = if pid == 10 then some 1 else if pid == 20 then some 2 else none

abbrev one : Procs
one pid = if pid == 20 then some 2 else none

abbrev writes : (pid start from count : ℕ) → RangeLock
writes pid start from count = record {
  owner = pid;
  start_time = start;
  l_type = wrlck;
  l_start = from;
  l_len = count;
}

-- The second lock is refused, and granted once its rival has ended.
abbrev session : List Step
session =
    locks (writes 10 1 0 50)
    ∷ locks (writes 20 2 40 10)
    ∷ processes one
    ∷ locks (writes 20 2 40 10)
    ∷ unlocks 20 2
    ∷ []

session_legit : AllLegit session (record { procs = two; slots = replicate 4 absent })
unfolding step lock_range after_scan scan_range_conflicts post is_live is_own range_conflict
session_legit = (tt, (tt, ((refl, tt), (tt, (tt, tt)))))

refused :
    (lock_range two (writes 20 2 40 10) (held (writes 10 1 0 50) ∷ absent ∷ [])).0 ≡ fail eagain
unfolding lock_range after_scan scan_range_conflicts is_live is_own range_conflict
refused = refl

granted :
    lock_range one (writes 20 2 40 10) (held (writes 10 1 0 50) ∷ absent ∷ [])
    ≡ (ret 0, held (writes 20 2 40 10) ∷ absent ∷ [])
unfolding lock_range after_scan scan_range_conflicts post is_live is_own range_conflict
granted = refl
