-- ===== src/Synth/Override.antt =====
-- synth.c and synth.h: the copy-on-write slots through which a vfork child that shares memory with
-- its parent keeps its own value of a descriptor (`probe_fd`, tty's `real_fd`). One process runs at
-- a time here; `starttime_of` is what /proc/<pid>/stat says of a process, 0 if it is gone.
pub mod Slots
pub mod Views
mod Tests
use wslcompat.Prelude.{
  ℕ, zero, suc, ◌+◌, ◌-◌, ◌*◌, ◌/◌, ◌%◌, ◌^◌, ◌≤◌, ◌<◌, ◌≡◌, refl, sym, ap, ◌∙◌, ◌≢◌, ◌↔◌, ◌⊎◌, inl,
  inr, Bool, true, false, not, ◌&&◌, ◌||◌, Option, none, some, List, [], ◌∷◌, ◌++◌, map, arith, ltb,
  leb, ◌==◌, if◌then◌else◌, ltb→lt, lt→ltb, leb→le, ==_iff, ==_self, Bool-cases, Option-cases,
  length, get_elem?, get_or, set, take, drop, replicate, length-append, length-set,
  get_elem?-set_self, get_elem?-set_ne, length-replicate, length-map, is_some, Res, ret, fail,
  eperm, enoent, eintr, e2big, enoexec, ebadf, ewouldblock, enomem, efault, eexist, enodev, einval,
  enfile, enosys, enoprotoopt, eopnotsupp,
}
use wslcompat.Prelude.Int.{ℤ, pos, negsuc, minus_one, int_eq, is_neg, int_eq_iff, int_eq_self}

-- A live process: the pid and the start time tell it from a recycled pid.
pub record Process : Type 0 where
  pub pid : ℕ
  pub starttime : ℕ

-- struct synth_override; pid 0 is a free slot, -1 one that is being claimed.
pub record Slot : Type 0 where
  pub pid : ℤ
  pub starttime : ℕ
  pub fd : ℤ

abbrev pub override_slots : ℕ
override_slots = 4

abbrev pub free_pid : ℤ
free_pid = pos 0

pub is_of : Process → Slot → Bool
is_of p s = int_eq s.pid (pos p.pid) && (s.starttime == p.starttime)

-- wslcompat_override_init
pub init_slots : List Slot → List Slot
init_slots [] = []
init_slots (s ∷ ss) = record s { pid = free_pid } ∷ init_slots ss

-- The body of the loop of wslcompat_override_gc.
pub gc_slot : (starttime_of : ℤ → ℕ) → Process → Slot → Slot
gc_slot starttime_of self s =
    if int_eq s.pid free_pid || int_eq s.pid minus_one
    then s
    else if int_eq s.pid (pos self.pid)
    then (if s.starttime == self.starttime then s else record s { pid = free_pid })
    else if starttime_of s.pid == s.starttime
    then s
    else record s { pid = free_pid }

pub gc : (starttime_of : ℤ → ℕ) → Process → List Slot → List Slot
gc starttime_of self [] = []
gc starttime_of self (s ∷ ss) = gc_slot starttime_of self s ∷ gc starttime_of self ss

-- wslcompat_override_get_pid: the first slot of the process.
pub get_slot : Process → List Slot → Option Slot
get_slot p [] = none
get_slot p (s ∷ ss) = if is_of p s then some s else get_slot p ss

-- Pass 2 of wslcompat_override_acquire_pid: the first free slot becomes the process's.
pub claim : Process → ℤ → List Slot → Option (List Slot)
claim p fd [] = none
claim p fd (s ∷ ss) =
    if int_eq s.pid free_pid
    then some (record { pid = pos p.pid; starttime = p.starttime; fd = fd } ∷ ss)
    else elim (claim p fd ss) [ none ↦ none | some ss' ↦ some (s ∷ ss') ]

-- wslcompat_override_acquire_pid: the slots afterwards, and whether the process has one.
pub acquire : (starttime_of : ℤ → ℕ) → Process → ℤ → List Slot → List Slot × Bool
acquire starttime_of p fd ss =
    let ss' = gc starttime_of p ss in
    if is_some (get_slot p ss')
    then (ss', true)
    else elim (claim p fd ss') [ none ↦ (ss', false) | some ss'' ↦ (ss'', true) ]

-- atomic_store(&s->fd, fd) on the process's slot.
pub put_fd : Process → ℤ → List Slot → List Slot
put_fd p fd [] = []
put_fd p fd (s ∷ ss) = if is_of p s then record s { fd = fd } ∷ ss else s ∷ put_fd p fd ss

-- The parts of a synth_entry that the accessors of one descriptor use.
pub record View : Type 0 where
  pub install : Process
  pub base : ℤ
  pub slots : List Slot

pub is_installer : View → Process → Bool
is_installer v p = (p.pid == v.install.pid) && (p.starttime == v.install.starttime)

pub view_fd_load : Process → View → ℤ
view_fd_load p v =
    if is_installer v p then v.base else elim (get_slot p v.slots) [ none ↦ v.base | some s ↦ s.fd ]

pub view_fd_store : (starttime_of : ℤ → ℕ) → Process → View → ℤ → View
view_fd_store starttime_of p v fd =
    if is_installer v p
    then record v { base = fd }
    else let (ss, got) = acquire starttime_of p fd v.slots in
      record v { slots = if got then put_fd p fd ss else ss }

-- A compare-exchange on a descriptor that now holds `cur`: whether it stored `desired`.
pub cas_slot : Process → (expected desired : ℤ) → List Slot → List Slot × Bool
cas_slot p expected desired ss = elim (get_slot p ss) [
  | none ↦ (ss, false)
  | some s ↦ if int_eq s.fd expected then (put_fd p desired ss, true) else (ss, false)
]

pub view_fd_cas : (starttime_of : ℤ → ℕ) → Process → View → (expected desired : ℤ) → View × Bool
view_fd_cas starttime_of p v expected desired =
    if is_installer v p
    then (if int_eq v.base expected then (record v { base = desired }, true) else (v, false))
    else let (ss, got) = acquire starttime_of p expected v.slots in
      if got
      then (let (ss', done) = cas_slot p expected desired ss in (record v { slots = ss' }, done))
      else (record v { slots = ss }, false)

-- What wslcompat_view_fd_relocate returns, the view it leaves, and the descriptor that it closes
-- again. `dup` is the result of F_DUPFD_CLOEXEC, negative on failure.
pub record Relocation : Type 0 where
  pub result : ℤ
  pub view : View
  pub closed : Option ℤ

pub view_fd_relocate : (starttime_of : ℤ → ℕ) → Process → View → (targetfd dup : ℤ) → Relocation
view_fd_relocate starttime_of p v targetfd dup =
    if not (int_eq (view_fd_load p v) targetfd)
    then record { result = pos 0; view = v; closed = none }
    else if is_neg dup
    then record {
      result = minus_one;
      view = (view_fd_cas starttime_of p v targetfd minus_one).0;
      closed = none;
    }
    else let (v', won) = view_fd_cas starttime_of p v targetfd dup in
      if won
      then record { result = dup; view = v'; closed = none }
      else record { result = pos 0; view = v'; closed = some dup }
