-- ===== src/Lock/Board/Apart.antt =====
-- When two locks may stand on one board.
use wslcompat.Prelude.{
  ℕ, ◌+◌, ◌≡◌, refl, Bool, false, not, ◌&&◌, ◌||◌, List, [], ◌∷◌, arith, ltb, leb, ◌==◌,
}
use wslcompat.Lock.Board.{
  LockType, rdlck, wrlck, RangeLock, Slot, held, both_read, range_conflict, Procs, is_live, is_own,
}

both_read_comm : (s t : LockType) → both_read s t ≡ both_read t s
both_read_comm rdlck rdlck = refl
both_read_comm rdlck wrlck = refl
both_read_comm wrlck rdlck = refl
both_read_comm wrlck wrlck = refl

range_conflict_comm : (a b : RangeLock) → range_conflict a b ≡ range_conflict b a
unfolding range_conflict
range_conflict_comm a b = ground (arith, both_read_comm a.l_type b.l_type)

-- Does the byte belong to the range?
abbrev pub covers : RangeLock → ℕ → Bool
covers l x = leb l.l_start x && ((l.l_len == 0) || ltb x (l.l_start + l.l_len))

-- Ranges that range_conflict lets pass have no byte in common, unless both locks are for reading.
pub range_conflict_sound :
    (a b : RangeLock) (x : ℕ)
    → range_conflict a b ≡ false
    → both_read a.l_type b.l_type ≡ false
    → (covers a x && covers b x) ≡ false
unfolding range_conflict
range_conflict_sound a b x h w = ground arith

abbrev pub same_owner : RangeLock → RangeLock → Bool
same_owner a b = is_own a.owner a.start_time b

-- The two locks may stand on one board: one is stale, they have one owner, or they do not conflict.
abbrev pub Apart : Procs → RangeLock → RangeLock → Type 0
Apart procs a b =
    (is_live procs a && is_live procs b && not (same_owner a b) && range_conflict a b) ≡ false

abbrev pub ApartFrom : Procs → RangeLock → List Slot → Type 0
ApartFrom procs l [] = Unit {0}
ApartFrom procs l (held m ∷ ss) = Apart procs l m × ApartFrom procs l ss
ApartFrom procs l (s ∷ ss) = ApartFrom procs l ss

abbrev pub Exclusive : Procs → List Slot → Type 0
Exclusive procs [] = Unit {0}
Exclusive procs (held l ∷ ss) = ApartFrom procs l ss × Exclusive procs ss
Exclusive procs (s ∷ ss) = Exclusive procs ss

same_owner_comm : (a b : RangeLock) → same_owner a b ≡ same_owner b a
unfolding is_own
same_owner_comm a b = ground arith

pub Apart-comm : (procs : Procs) (a b : RangeLock) → Apart procs a b → Apart procs b a
Apart-comm procs a b h = ground (arith, range_conflict_comm a b, same_owner_comm a b)
