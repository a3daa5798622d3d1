-- ===== src/Lock.antt =====
-- fcntl.c: record locks by whole-file locks of flock. The kernel is a parameter; a call of it is an
-- event of the run.
pub mod Conflicts
pub mod Board
mod Tests
use wslcompat.Prelude.{
  ℕ, zero, suc, ◌+◌, ◌-◌, ◌*◌, ◌/◌, ◌%◌, ◌^◌, ◌≤◌, ◌<◌, ◌≡◌, refl, sym, ap, ◌∙◌, ◌≢◌, ◌↔◌, ◌⊎◌, inl,
  inr, Bool, true, false, not, ◌&&◌, ◌||◌, Option, none, some, List, [], ◌∷◌, ◌++◌, map, arith, ltb,
  leb, ◌==◌, if◌then◌else◌, ltb→lt, lt→ltb, leb→le, ==_iff, ==_self, Bool-cases, Option-cases,
  length, get_elem?, get_or, set, take, drop, replicate, length-append, length-set,
  get_elem?-set_self, get_elem?-set_ne, length-replicate, length-map, length-snoc, append-cons,
  is_some, Res, ret, fail, eperm, enoent, eintr, e2big, enoexec, ebadf, ewouldblock, enomem, efault,
  eexist, enodev, einval, enfile, enosys, enoprotoopt, eopnotsupp,
}
use wslcompat.Prelude.Int.{ℤ, pos, negsuc, minus_one, int_eq, is_neg, int_eq_iff, int_eq_self}

-- F_RDLCK, F_WRLCK, F_UNLCK, and any other value of l_type.
pub data LockType : Type 0 where
  rdlck wrlck unlck : LockType
  other_type : ℕ → LockType

-- struct flock
pub record Flock : Type 0 where
  pub l_type : LockType
  pub l_whence : ℕ
  pub l_start : ℤ
  pub l_len : ℤ
  pub l_pid : ℤ

-- LOCK_SH, LOCK_EX, LOCK_UN, with or without LOCK_NB.
pub data Kind : Type 0 where
  lock_sh lock_ex lock_un : Kind

pub record Operation : Type 0 where
  pub kind : Kind
  pub nb : Bool

-- The commands that `fcntl` hands over.
pub data Command : Type 0 where
  getlk setlk setlkw ofd_getlk ofd_setlk ofd_setlkw : Command

pub record Kernel : Type 0 where
  pub flock : ℤ → Operation → Option ℕ  -- `none`: 0, `some errno`: -1
  pub reopen : ℤ → Option ℤ  -- open("/proc/self/fd/<fd>", O_RDONLY)
  pub passthru : ℤ → ℤ  -- wslcompat_synth_passthru(fd, SYNTH_OP_IO)

pub data Event : Type 0 where
  flocked : ℤ → Operation → Event
  mirrored : ℤ → LockType → Event
  opened closed : ℤ → Event

-- `ok` is the result 0, else it is -1.
pub record Answer : Type 0 where
  pub ok : Bool
  pub fl : Flock
  pub events : List Event

unfoldable pub fcntl_translate_type : LockType → Option Kind
fcntl_translate_type rdlck = some lock_sh
fcntl_translate_type wrlck = some lock_ex
fcntl_translate_type unlck = some lock_un
fcntl_translate_type (other_type _) = none

-- The fields that the query fills in.
unfoldable pub report : LockType → Flock
report t = record { l_type = t; l_whence = 0; l_start = pos 0; l_len = pos 0; l_pid = minus_one }

unfoldable pub shared_type : LockType → LockType
shared_type wrlck = rdlck
shared_type _ = unlck

abbrev pub try_ex : Operation
try_ex = record { kind = lock_ex; nb = true }

abbrev pub try_sh : Operation
try_sh = record { kind = lock_sh; nb = true }

-- The second flock, when the first would block.
unfoldable pub query_shared : Kernel → ℤ → Flock → Answer
query_shared K t fl = elim (K.flock t try_sh) [
  | none ↦ record {
    ok = true;
    fl = report (shared_type fl.l_type);
    events = opened t ∷ flocked t try_ex ∷ flocked t try_sh ∷ closed t ∷ [];
  }
  | some e ↦
      if e == ewouldblock
      then record {
        ok = true;
        fl = report wrlck;
        events = opened t ∷ flocked t try_ex ∷ flocked t try_sh ∷ closed t ∷ [];
      }
      else record {
        ok = false;
        fl = fl;
        events = opened t ∷ flocked t try_ex ∷ flocked t try_sh ∷ closed t ∷ [];
      }
]

unfoldable pub query_on : Kernel → ℤ → Flock → Answer
query_on K t fl = elim (K.flock t try_ex) [
  | none ↦ record {
    ok = true;
    fl = report unlck;
    events = opened t ∷ flocked t try_ex ∷ closed t ∷ [];
  }
  | some e ↦
      if e == ewouldblock
      then query_shared K t fl
      else record { ok = false; fl = fl; events = opened t ∷ flocked t try_ex ∷ closed t ∷ [] }
]

unfoldable pub flock_status_query : Kernel → ℤ → Flock → Answer
flock_status_query K fd fl = elim (K.reopen fd) [
  | none ↦ record { ok = false; fl = fl; events = [] }
  | some t ↦ query_on K t fl
]

unfoldable pub is_setlk : Command → Bool
is_setlk setlk = true
is_setlk ofd_setlk = true
is_setlk _ = false

unfoldable pub is_unlck : LockType → Bool
is_unlck unlck = true
is_unlck _ = false

-- The lock itself, and its mirror as a POSIX lock, whose result is ignored.
unfoldable pub set_lock : Kernel → ℤ → Command → Flock → Kind → Answer
set_lock K fd cmd fl kind =
    let op : Operation = record { kind = kind; nb = is_setlk cmd && not (is_unlck fl.l_type) } in
    elim (K.flock fd op) [
      | none ↦ record { ok = true; fl = fl; events = flocked fd op ∷ mirrored fd fl.l_type ∷ [] }
      | some e ↦ record { ok = false; fl = fl; events = flocked fd op ∷ [] }
    ]

unfoldable pub set_or_refuse : Kernel → ℤ → Command → Flock → Answer
set_or_refuse K fd cmd fl = elim (fcntl_translate_type fl.l_type) [
  | none ↦ record { ok = false; fl = fl; events = [] }
  | some kind ↦ set_lock K fd cmd fl kind
]

-- On the descriptor behind a synthetic one.
unfoldable pub on_backing : Kernel → ℤ → Command → Flock → Answer
on_backing K fd getlk fl = flock_status_query K fd fl
on_backing K fd ofd_getlk fl = flock_status_query K fd fl
on_backing K fd cmd fl = set_or_refuse K fd cmd fl

unfoldable pub fcntl_lock_shim : Kernel → ℤ → Command → Flock → Answer
fcntl_lock_shim K fd cmd fl =
    on_backing K (if is_neg (K.passthru fd) then fd else K.passthru fd) cmd fl
