-- ===== src/Lock/Conflicts.antt =====
-- What the locks of others mean for a query and for a request.
use wslcompat.Prelude.{
  ℕ, ◌≡◌, refl, sym, ap, ◌∙◌, true, false, not, Option, none, some, List, [], ◌∷◌, ◌++◌,
  if◌then◌else◌, is_some, ewouldblock,
}
use wslcompat.Prelude.Int.{ℤ, pos, minus_one, is_neg}
use wslcompat.Lock.{
  LockType, rdlck, wrlck, unlck, other_type, Flock, Kind, lock_sh, lock_ex, lock_un, getlk, setlk,
  ofd_getlk, Kernel, Event, flocked, opened, closed, Answer, fcntl_translate_type, report,
  shared_type, try_ex, try_sh, query_shared, query_on, flock_status_query, is_setlk, is_unlck,
  set_lock, set_or_refuse, on_backing, fcntl_lock_shim,
}

-- The locks that other open file descriptions hold on the file.
pub data Held : Type 0 where
  nothing shared exclusive : Held

-- The answer of a kernel to an attempt that does not wait: EWOULDBLOCK on a conflict.
abbrev pub attempt : Held → Kind → Option ℕ
attempt nothing _ = none
attempt _ lock_un = none
attempt shared lock_sh = none
attempt shared lock_ex = some ewouldblock
attempt exclusive _ = some ewouldblock

-- The kernel answers by the locks held on a descriptor's file.
abbrev pub Answers : Kernel → ℤ → Held → Type 0
Answers K fd h = (kind : Kind) → K.flock fd (record { kind = kind; nb = true }) ≡ attempt h kind

-- The type of the lock in the way of a proposed one.
abbrev pub conflicting : Held → LockType → LockType
conflicting exclusive _ = wrlck
conflicting shared wrlck = rdlck
conflicting _ _ = unlck

shared_type-conflicting : (t : LockType) → shared_type t ≡ conflicting shared t
unfolding shared_type
shared_type-conflicting rdlck = refl
shared_type-conflicting wrlck = refl
shared_type-conflicting unlck = refl
shared_type-conflicting (other_type n) = refl

-- A lock of the type on the whole file, whose owner is not known.
abbrev pub on_whole_file : LockType → Flock
on_whole_file t = record {
  l_type = t;
  l_whence = 0;
  l_start = pos 0;
  l_len = pos 0;
  l_pid = minus_one;
}

-- The query leaves no descriptor open and reports the lock in the way.
pub record Reported (h : Held) (t : ℤ) (fl : Flock) (r : Answer) : Type 0 where
  pub succeeded : r.ok ≡ true
  pub answer : r.fl ≡ on_whole_file (conflicting h fl.l_type)
  pub tidy : (es : List Event) × (r.events ≡ opened t ∷ (es ++ closed t ∷ []))

query_on-Reported :
    (K : Kernel) (t : ℤ) (h : Held) (fl : Flock) → Answers K t h → Reported h t fl (query_on K t fl)
unfolding query_on query_shared report
query_on-Reported K t nothing fl a =
    rw (a lock_ex, query_on)
      (record { succeeded = refl; answer = refl; tidy = (flocked t try_ex ∷ [], refl) })
query_on-Reported K t exclusive fl a =
    rw (a lock_ex, a lock_sh, query_on, query_shared)
      (record {
        succeeded = refl;
        answer = refl;
        tidy = (flocked t try_ex ∷ flocked t try_sh ∷ [], refl);
      })
query_on-Reported K t shared fl a =
    rw (a lock_ex, a lock_sh, query_on, query_shared)
      (record {
        succeeded = refl;
        answer = ap on_whole_file (shared_type-conflicting fl.l_type);
        tidy = (flocked t try_ex ∷ flocked t try_sh ∷ [], refl);
      })

-- The descriptor that the shim works on.
abbrev pub backing : Kernel → ℤ → ℤ
backing K fd = if is_neg (K.passthru fd) then fd else K.passthru fd

-- When the file can be reopened, and the kernel answers on the new descriptor by the locks that
-- others hold: F_GETLK and F_OFD_GETLK succeed, report the type of the lock that is in the way of
-- the proposed one (F_UNLCK if none is) from offset 0 to the end of the file
-- (l_whence 0, l_start 0, l_len 0) with the owner -1, and close what they opened.
pub getlk-Reported :
    (K : Kernel) (fd t : ℤ) (h : Held) (fl : Flock)
    → K.reopen (backing K fd) ≡ some t
    → Answers K t h
    → Reported h t fl (fcntl_lock_shim K fd getlk fl)
      × Reported h t fl (fcntl_lock_shim K fd ofd_getlk fl)
unfolding fcntl_lock_shim on_backing flock_status_query
getlk-Reported K fd t h fl o a =
    rw (o, flock_status_query) (query_on-Reported K t h fl a, query_on-Reported K t h fl a)

set_lock-attempt :
    (K : Kernel) (fd : ℤ) (h : Held) (fl : Flock) (kind : Kind)
    → Answers K fd h
    → is_unlck fl.l_type ≡ false
    → (set_lock K fd setlk fl kind).ok ≡ not (is_some (attempt h kind))
unfolding set_lock is_setlk
set_lock-attempt K fd nothing fl kind a u = rw (u, a kind, set_lock) refl
set_lock-attempt K fd shared fl lock_sh a u = rw (u, a lock_sh, set_lock) refl
set_lock-attempt K fd shared fl lock_ex a u = rw (u, a lock_ex, set_lock) refl
set_lock-attempt K fd shared fl lock_un a u = rw (u, a lock_un, set_lock) refl
set_lock-attempt K fd exclusive fl lock_sh a u = rw (u, a lock_sh, set_lock) refl
set_lock-attempt K fd exclusive fl lock_ex a u = rw (u, a lock_ex, set_lock) refl
set_lock-attempt K fd exclusive fl lock_un a u = rw (u, a lock_un, set_lock) refl

-- A read or write lock is in the way of one of the same type exactly if the attempt fails.
agree :
    (h : Held) (t : LockType) (kind : Kind)
    → is_unlck t ≡ false
    → fcntl_translate_type t ≡ some kind
    → not (is_some (attempt h kind)) ≡ is_unlck (conflicting h t)
unfolding is_unlck fcntl_translate_type
agree nothing rdlck kind u e = refl
agree nothing wrlck kind u e = refl
agree shared rdlck lock_sh u e = refl
agree shared rdlck lock_ex u e = cc
agree shared rdlck lock_un u e = cc
agree shared wrlck lock_sh u e = cc
agree shared wrlck lock_ex u e = refl
agree shared wrlck lock_un u e = cc
agree exclusive rdlck lock_sh u e = refl
agree exclusive rdlck lock_ex u e = refl
agree exclusive rdlck lock_un u e = cc
agree exclusive wrlck lock_sh u e = refl
agree exclusive wrlck lock_ex u e = refl
agree exclusive wrlck lock_un u e = cc
agree h unlck kind u e = cc
agree h (other_type n) kind u e = cc

-- When the kernel answers by the locks of others on the descriptor and on the reopened one:
-- F_SETLK for a read or write lock succeeds exactly if F_GETLK with the same `struct flock`
-- reports F_UNLCK.
pub setlk-getlk :
    (K : Kernel) (fd t : ℤ) (h : Held) (fl : Flock) (kind : Kind)
    → K.reopen (backing K fd) ≡ some t
    → Answers K t h
    → Answers K (backing K fd) h
    → is_unlck fl.l_type ≡ false
    → fcntl_translate_type fl.l_type ≡ some kind
    → (fcntl_lock_shim K fd setlk fl).ok ≡ is_unlck ((fcntl_lock_shim K fd getlk fl).fl.l_type)
unfolding fcntl_lock_shim on_backing set_or_refuse
setlk-getlk K fd t h fl kind o a b u e =
    let asked = (getlk-Reported K fd t h fl o a).0.answer in
    let granted : (set_or_refuse K (backing K fd) setlk fl).ok ≡ not (is_some (attempt h kind)) =
      rw (e, set_or_refuse) (set_lock-attempt K (backing K fd) h fl kind b u) in
    granted ∙ agree h fl.l_type kind u e ∙ ap (λ (x : Flock). is_unlck x.l_type) (sym asked)
