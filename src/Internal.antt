-- ===== src/Internal.antt =====
-- internal.c, the registry of the library's own descriptors, and close.c, which moves them out of
-- the way of the application's close, dup2, dup3 and close_range. The synthetic descriptors' part
-- of these calls is Synth/Table and Synth/Override. One thread runs, so that the
-- compare-and-exchange of a slot succeeds.
pub mod Slots
pub mod Accounts
pub mod Live
pub mod Closes
mod Tests
use wslcompat.Prelude.{
  ℕ, zero, suc, ◌+◌, ◌-◌, ◌*◌, ◌/◌, ◌%◌, ◌^◌, ◌≤◌, ◌<◌, ◌≡◌, refl, sym, ap, ◌∙◌, ◌≢◌, ◌↔◌, ◌⊎◌, inl,
  inr, Bool, true, false, not, ◌&&◌, ◌||◌, Option, none, some, List, [], ◌∷◌, ◌++◌, map, arith, ltb,
  leb, ◌==◌, if◌then◌else◌, ltb→lt, lt→ltb, leb→le, ==_iff, ==_self, Bool-cases, Option-cases,
  length, get_elem?, get_or, set, take, take_all, drop, replicate, length-append, length-set,
  get_elem?-set_self, get_elem?-set_ne, length-replicate, length-map, length-snoc, append-cons,
  is_some, Res, ret, fail, eperm, enoent, eintr, e2big, enoexec, ebadf, ewouldblock, enomem, efault,
  eexist, enodev, einval, enfile, enosys, enoprotoopt, eopnotsupp,
}
use wslcompat.Prelude.Int.{ℤ, pos, negsuc, minus_one, int_eq, is_neg, int_eq_iff, int_eq_self}

-- Which open file each descriptor refers to.
abbrev pub Files : Type 0
Files = ℤ → Option ℕ

-- F_DUPFD_CLOEXEC from 3 on, of an open descriptor: a descriptor that is not open, or a failure.
abbrev pub Dupfd : Type 0
Dupfd = Files → Option ℤ

-- The registered slots, whose negative values are none; the descriptors of the process; and how
-- many calls of F_DUPFD have failed.
pub record Fds : Type 0 where
  pub slots : List ℤ
  pub files : Files
  pub failures : ℕ

abbrev pub max_internal_fds : ℕ
max_internal_fds = 16

-- wslcompat_register_internal_fd: a slot beyond the capacity is dropped.
unfoldable pub register_internal : ℤ → Fds → Fds
register_internal slot w =
    if leb max_internal_fds (length w.slots) then w else record w { slots = w.slots ++ slot ∷ [] }

unfoldable pub set_file : ℤ → Option ℕ → Files → Files
set_file fd f o x = if int_eq x fd then f else o x

-- fcntl(target, F_DUPFD_CLOEXEC, 3), with the count of its failures.
unfoldable pub sys_dupfd : Dupfd → ℤ → Files → ℕ → Option ℤ × ℕ
sys_dupfd dupfd target o k = elim (if is_some (o target) then dupfd o else none) [
  | none ↦ (none, k + 1)
  | some fd ↦ (some fd, k)
]

-- The body of the loop of wslcompat_relocate_internal_fd for a slot.
unfoldable pub relocate_slot : Dupfd → (target slot : ℤ) → Files → ℕ → ℤ × Files × ℕ
relocate_slot dupfd target slot o k =
    if not (int_eq slot target)
    then (slot, o, k)
    else let (r, k') = sys_dupfd dupfd target o k in
      elim r [ none ↦ (negsuc 1, o, k') | some new_fd ↦ (new_fd, set_file new_fd (o target) o, k') ]

unfoldable pub relocate_slots : Dupfd → (target : ℤ) → List ℤ → Files → ℕ → List ℤ × Files × ℕ
relocate_slots dupfd target [] o k = ([], o, k)
relocate_slots dupfd target (s ∷ ss) o k =
    let (s', o', k') = relocate_slot dupfd target s o k in
    let (ss', o'', k'') = relocate_slots dupfd target ss o' k' in (s' ∷ ss', o'', k'')

-- wslcompat_relocate_internal_fd
unfoldable pub relocate_internal : Dupfd → (target : ℤ) → Fds → Fds
relocate_internal dupfd target w =
    let (ss, o, k) = relocate_slots dupfd target w.slots w.files w.failures in
    record { slots = ss; files = o; failures = k }

-- The kernel's close.
unfoldable pub sys_close : ℤ → Fds → Res ℕ × Fds
sys_close fd w =
    if is_some (w.files fd)
    then (ret 0, record w { files = set_file fd none w.files })
    else (fail ebadf, w)

-- close, past the switch of the shim.
unfoldable pub close_shim : Dupfd → ℤ → Fds → Res ℕ × Fds
close_shim dupfd fd w = sys_close fd (relocate_internal dupfd fd w)

-- The kernel's dup3, which refuses equal descriptors.
unfoldable pub sys_dup3 : (oldfd newfd : ℤ) → Fds → Res ℤ × Fds
sys_dup3 oldfd newfd w =
    if int_eq oldfd newfd
    then (fail einval, w)
    else if not (is_some (w.files oldfd)) || is_neg newfd
    then (fail ebadf, w)
    else (ret newfd, record w { files = set_file newfd (w.files oldfd) w.files })

-- dup_common; the kernel's dup2 leaves equal descriptors.
unfoldable pub dup_common : Dupfd → (oldfd newfd : ℤ) → (allow_self : Bool) → Fds → Res ℤ × Fds
dup_common dupfd oldfd newfd allow_self w =
    if allow_self && int_eq oldfd newfd
    then (if is_some (w.files oldfd) then ret newfd else fail ebadf, w)
    else sys_dup3 oldfd newfd (relocate_internal dupfd newfd w)

-- close_range_visit over the walk of /proc/self/fd
unfoldable pub close_listed : Dupfd → (first last : ℕ) → List ℕ → Fds → Fds
close_listed dupfd first last [] w = w
close_listed dupfd first last (fd ∷ fds) w =
    close_listed dupfd first last fds
      (if leb first fd && leb fd last then (close_shim dupfd (pos fd) w).1 else w)

-- close_range; `walk` is what /proc/self/fd lists.
unfoldable pub close_range : Dupfd → (walk : List ℕ) → (first last flags : ℕ) → Fds → Res ℕ × Fds
close_range dupfd walk first last flags w =
    if ltb last first || not (flags == 0)
    then (fail einval, w)
    else (ret 0, close_listed dupfd first last walk w)

-- The calls of an application on the descriptors that it names.
pub data Act : Type 0 where
  close_act : ℕ → Act
  dup2_act : (oldfd newfd : ℕ) → Act
  dup3_act : (oldfd newfd : ℕ) → Act
  close_range_act : (walk : List ℕ) → (first last flags : ℕ) → Act

unfoldable pub act : Dupfd → Act → Fds → Fds
act dupfd (close_act n) w = (close_shim dupfd (pos n) w).1
act dupfd (dup2_act m n) w = (dup_common dupfd (pos m) (pos n) true w).1
act dupfd (dup3_act m n) w = (dup_common dupfd (pos m) (pos n) false w).1
act dupfd (close_range_act walk first last flags) w = (close_range dupfd walk first last flags w).1

unfoldable pub run_acts : Dupfd → List Act → Fds → Fds
run_acts dupfd [] w = w
run_acts dupfd (a ∷ rest) w = run_acts dupfd rest (act dupfd a w)
