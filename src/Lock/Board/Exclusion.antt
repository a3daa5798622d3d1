-- ===== src/Lock/Board/Exclusion.antt =====
-- Locks of two live processes have no byte in common.
use wslcompat.Prelude.{
  ℕ, zero, suc, ◌≡◌, inl, inr, false, not, ◌&&◌, List, [], ◌∷◌, arith, Bool-cases, replicate,
}
use wslcompat.Lock.Board.{
  RangeLock, Slot, absent, unreadable, held, both_read, Procs, is_live, is_own, unlock, Step, locks,
  unlocks, processes, Board, step, run_steps,
}
use wslcompat.Lock.Board.Apart.{
  covers, same_owner, Apart, ApartFrom, Exclusive, range_conflict_sound,
}
use wslcompat.Lock.Board.Scan.{lock_range-Exclusive}

unlock-ApartFrom :
    (procs : Procs) (pid start : ℕ) (l : RangeLock) (ss : List Slot)
    → ApartFrom procs l ss
    → ApartFrom procs l (unlock pid start ss)
unfolding unlock
unlock-ApartFrom procs pid start l [] h = tt
unlock-ApartFrom procs pid start l (absent ∷ ss) h = unlock-ApartFrom procs pid start l ss h
unlock-ApartFrom procs pid start l (unreadable ∷ ss) h = unlock-ApartFrom procs pid start l ss h
unlock-ApartFrom procs pid start l (held m ∷ ss) h = elim (Bool-cases (is_own pid start m)) [
  | inl y ↦ rw (y, unlock) (unlock-ApartFrom procs pid start l ss h.1)
  | inr n ↦ rw (n, unlock) (h.0, unlock-ApartFrom procs pid start l ss h.1)
]

unlock-Exclusive :
    (procs : Procs) (pid start : ℕ) (ss : List Slot)
    → Exclusive procs ss
    → Exclusive procs (unlock pid start ss)
unfolding unlock
unlock-Exclusive procs pid start [] h = tt
unlock-Exclusive procs pid start (absent ∷ ss) h = unlock-Exclusive procs pid start ss h
unlock-Exclusive procs pid start (unreadable ∷ ss) h = unlock-Exclusive procs pid start ss h
unlock-Exclusive procs pid start (held m ∷ ss) h = elim (Bool-cases (is_own pid start m)) [
  | inl y ↦ rw (y, unlock) (unlock-Exclusive procs pid start ss h.1)
  | inr n ↦
      rw (n, unlock)
        (unlock-ApartFrom procs pid start m ss h.0, unlock-Exclusive procs pid start ss h.1)
]

-- No lock of the board becomes live that was not.
abbrev pub NoRevival : (old new : Procs) → List Slot → Type 0
NoRevival old new [] = Unit {0}
NoRevival old new (held l ∷ ss) =
    ((is_live new l && not (is_live old l)) ≡ false) × NoRevival old new ss
NoRevival old new (s ∷ ss) = NoRevival old new ss

processes-ApartFrom :
    (old new : Procs) (l : RangeLock) (ss : List Slot)
    → (is_live new l && not (is_live old l)) ≡ false
    → NoRevival old new ss
    → ApartFrom old l ss
    → ApartFrom new l ss
processes-ApartFrom old new l [] d r h = tt
processes-ApartFrom old new l (absent ∷ ss) d r h = processes-ApartFrom old new l ss d r h
processes-ApartFrom old new l (unreadable ∷ ss) d r h = processes-ApartFrom old new l ss d r h
processes-ApartFrom old new l (held m ∷ ss) d r h =
    (ground (arith, r.0, h.0), processes-ApartFrom old new l ss d r.1 h.1)

processes-Exclusive :
    (old new : Procs) (ss : List Slot) → NoRevival old new ss → Exclusive old ss → Exclusive new ss
processes-Exclusive old new [] r h = tt
processes-Exclusive old new (absent ∷ ss) r h = processes-Exclusive old new ss r h
processes-Exclusive old new (unreadable ∷ ss) r h = processes-Exclusive old new ss r h
processes-Exclusive old new (held l ∷ ss) r h =
    (processes-ApartFrom old new l ss r.0 r.1 h.0, processes-Exclusive old new ss r.1 h.1)

-- A change of the processes is one that revives no lock: no pid of a lock on the board is reused.
abbrev pub Legit : Step → Board → Type 0
Legit (processes procs) b = NoRevival b.procs procs b.slots
Legit _ b = Unit {0}

abbrev pub AllLegit : List Step → Board → Type 0
AllLegit [] b = Unit {0}
AllLegit (s ∷ rest) b = Legit s b × AllLegit rest (step s b)

step-Exclusive :
    (s : Step) (b : Board)
    → Legit s b
    → Exclusive b.procs b.slots
    → Exclusive (step s b).procs (step s b).slots
unfolding step
step-Exclusive (locks fl) b r h = lock_range-Exclusive b.procs fl b.slots h
step-Exclusive (unlocks pid start) b r h = unlock-Exclusive b.procs pid start b.slots h
step-Exclusive (processes procs) b r h = processes-Exclusive b.procs procs b.slots r h

run_steps-Exclusive :
    (steps : List Step) (b : Board)
    → AllLegit steps b
    → Exclusive b.procs b.slots
    → (let b' = run_steps steps b in Exclusive b'.procs b'.slots)
unfolding run_steps
run_steps-Exclusive [] b r h = h
run_steps-Exclusive (s ∷ rest) b r h =
    run_steps-Exclusive rest (step s b) r.1 (step-Exclusive s b r.0 h)

-- No byte is covered by both locks, where both are live, of two owners, and not both for reading.
abbrev pub Disjoint : Procs → (x : ℕ) → RangeLock → RangeLock → Type 0
Disjoint procs x a b =
    (is_live procs a
      && is_live procs b
      && not (same_owner a b)
      && not (both_read a.l_type b.l_type)
      && covers a x
      && covers b x)
    ≡ false

abbrev pub DisjointFrom : Procs → (x : ℕ) → RangeLock → List Slot → Type 0
DisjointFrom procs x l [] = Unit {0}
DisjointFrom procs x l (held m ∷ ss) = Disjoint procs x l m × DisjointFrom procs x l ss
DisjointFrom procs x l (s ∷ ss) = DisjointFrom procs x l ss

abbrev pub AllDisjoint : Procs → (x : ℕ) → List Slot → Type 0
AllDisjoint procs x [] = Unit {0}
AllDisjoint procs x (held l ∷ ss) = DisjointFrom procs x l ss × AllDisjoint procs x ss
AllDisjoint procs x (s ∷ ss) = AllDisjoint procs x ss

Apart-Disjoint : (procs : Procs) (x : ℕ) (a b : RangeLock) → Apart procs a b → Disjoint procs x a b
Apart-Disjoint procs x a b h = ground (arith, range_conflict_sound a b x)

ApartFrom-DisjointFrom :
    (procs : Procs) (x : ℕ) (l : RangeLock) (ss : List Slot)
    → ApartFrom procs l ss
    → DisjointFrom procs x l ss
ApartFrom-DisjointFrom procs x l [] h = tt
ApartFrom-DisjointFrom procs x l (absent ∷ ss) h = ApartFrom-DisjointFrom procs x l ss h
ApartFrom-DisjointFrom procs x l (unreadable ∷ ss) h = ApartFrom-DisjointFrom procs x l ss h
ApartFrom-DisjointFrom procs x l (held m ∷ ss) h =
    (Apart-Disjoint procs x l m h.0, ApartFrom-DisjointFrom procs x l ss h.1)

Exclusive-AllDisjoint :
    (procs : Procs) (x : ℕ) (ss : List Slot) → Exclusive procs ss → AllDisjoint procs x ss
Exclusive-AllDisjoint procs x [] h = tt
Exclusive-AllDisjoint procs x (absent ∷ ss) h = Exclusive-AllDisjoint procs x ss h
Exclusive-AllDisjoint procs x (unreadable ∷ ss) h = Exclusive-AllDisjoint procs x ss h
Exclusive-AllDisjoint procs x (held l ∷ ss) h =
    (ApartFrom-DisjointFrom procs x l ss h.0, Exclusive-AllDisjoint procs x ss h.1)

replicate-Exclusive : (procs : Procs) (n : ℕ) → Exclusive procs (replicate n absent)
replicate-Exclusive procs zero = tt
replicate-Exclusive procs (suc n) = replicate-Exclusive procs n

-- From an empty board of any size, after any sequence of range locks and unlocks by any processes,
-- of which some end and others start: no byte belongs to the locks of two live owners of which one
-- may write. No pid is reused while a lock of it stands on the
-- board, the ranges end below 2^63, and each attribute reads as it was written.
pub run_steps-AllDisjoint :
    (n : ℕ) (procs : Procs) (steps : List Step) (x : ℕ)
    → AllLegit steps (record { procs = procs; slots = replicate n absent })
    → (let b = run_steps steps (record { procs = procs; slots = replicate n absent }) in
        AllDisjoint b.procs x b.slots)
run_steps-AllDisjoint n procs steps x r =
    let start : Board = record { procs = procs; slots = replicate n absent } in
    let b = run_steps steps start in
    Exclusive-AllDisjoint b.procs x b.slots
      (run_steps-Exclusive steps start r (replicate-Exclusive procs n))
