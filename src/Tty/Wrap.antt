-- ===== src/Tty/Wrap.antt =====
-- tty.c: the wrapping of a terminal, and the caches by which tty_read stays off the terminal's own
-- settings. The copy-on-write slots of real_fd are those of Synth/Override.
pub mod Caches
pub mod Install
use wslcompat.Prelude.{
  ℕ, zero, suc, ◌+◌, ◌-◌, ◌*◌, ◌/◌, ◌%◌, ◌^◌, ◌≤◌, ◌<◌, ◌≡◌, refl, sym, ap, ◌∙◌, ◌≢◌, ◌↔◌, ◌⊎◌, inl,
  inr, Bool, true, false, not, ◌&&◌, ◌||◌, Option, none, some, List, [], ◌∷◌, ◌++◌, map, arith, ltb,
  leb, ◌==◌, if◌then◌else◌, ltb→lt, lt→ltb, leb→le, ==_iff, ==_self, Bool-cases, Option-cases,
  length, get_elem?, get_or, set, take, take_all, drop, replicate, length-append, length-set,
  get_elem?-set_self, get_elem?-set_ne, length-replicate, length-map, length-snoc, append-cons,
  is_some, Res, ret, fail, eperm, enoent, eintr, e2big, enoexec, ebadf, ewouldblock, enomem, efault,
  eexist, enodev, einval, enfile, enosys, enoprotoopt, eopnotsupp,
}
use wslcompat.Prelude.Int.{
  drop_one, ℤ, pos, negsuc, minus_one, int_eq, is_neg, int_eq_iff, int_eq_self,
}
use wslcompat.Tty.{TtyState}

-- The settings that tty_read depends on, and O_NONBLOCK of the terminal's open file.
pub record Termios : Type 0 where
  pub icanon : Bool
  pub min : ℕ
  pub time : ℕ

pub record Terminal : Type 0 where
  pub termios : Termios
  pub nonblock : Bool

-- The requests of ioctl: TCSETS, TCSETSW and TCSETSF with or without 2; the older TCSETA, TCSETAW
-- and TCSETAF; FIONBIO; and the others.
pub data Request : Type 0 where
  set_termios : Termios → Request
  set_termio : Termios → Request
  fionbio : Bool → Request
  other_request : ℕ → Request

-- The commands of fcntl: F_SETFL with its O_NONBLOCK, and the others.
pub data Command : Type 0 where
  set_flags : Bool → Command
  other_command : ℕ → Command

-- The kernel's calls on the real terminal.
pub record Calls : Type 0 where
  pub ioctl : Request → Terminal → Res ℕ × Terminal
  pub fcntl : Command → Terminal → Res ℕ × Terminal

-- What tty_ioctl keeps of a call, by its request and result.
unfoldable pub observe_ioctl : Request → Res ℕ → TtyState → TtyState
observe_ioctl (set_termios t) (ret n) s =
    if n == 0 then record s { canon = t.icanon; vmin = t.min; vtime = t.time } else s
observe_ioctl q r s = s

unfoldable pub tty_ioctl : Calls → Request → TtyState × Terminal → Res ℕ × TtyState × Terminal
tty_ioctl K q (s, t) = let (r, t') = K.ioctl q t in (r, observe_ioctl q r s, t')

unfoldable pub observe_fcntl : Command → Res ℕ → TtyState → TtyState
observe_fcntl (set_flags b) (ret n) s = record s { nonblock = b }
observe_fcntl c r s = s

unfoldable pub tty_fcntl : Calls → Command → TtyState × Terminal → Res ℕ × TtyState × Terminal
tty_fcntl K c (s, t) = let (r, t') = K.fcntl c t in (r, observe_fcntl c r s, t')

-- struct tty_state; `claimed` is 1 or 0.
pub record Slot : Type 0 where
  pub claimed : Bool
  pub real_fd : ℤ
  pub caches : TtyState

-- tty_table, and the descriptors that the wraps hold.
pub record Ttys : Type 0 where
  pub slots : List Slot
  pub held : List ℤ

-- tty_alloc: the index of the first free slot.
unfoldable pub tty_alloc : List Slot → Option ℕ
tty_alloc [] = none
tty_alloc (s ∷ ss) =
    let rest = tty_alloc ss in
    if s.claimed then elim rest [ none ↦ none | some i ↦ some (suc i) ] else some 0

-- Apply to the slot.
unfoldable pub at_slot : ℕ → (Slot → Slot) → List Slot → List Slot
at_slot i f [] = []
at_slot zero f (s ∷ ss) = f s ∷ ss
at_slot (suc i) f (s ∷ ss) = s ∷ at_slot i f ss

unfoldable pub claim : ℕ → List Slot → List Slot
claim i = at_slot i (λ s. record s { claimed = true })

unfoldable pub unclaim : ℕ → List Slot → List Slot
unclaim i = at_slot i (λ s. record s { claimed = false })

-- tty_release on the slot, whose real_fd is `real`.
unfoldable pub tty_release : ℕ → (real : ℤ) → Ttys → Ttys
tty_release i real w = record {
  slots = at_slot i (λ s. record s { real_fd = minus_one; claimed = false }) w.slots;
  held = drop_one real w.held;
}

-- The results of an installation's calls in their order: F_DUPFD_CLOEXEC, F_GETFL (its O_NONBLOCK),
-- F_GETFD (its FD_CLOEXEC), wslcompat_synth_open, and dup3.
pub record Results : Type 0 where
  pub dupfd : Res ℤ
  pub getfl : Res Bool
  pub getfd : Res Bool
  pub synth_open : Res ℤ
  pub dup3 : Res ℤ

-- The end of an installation: is it done, and FD_CLOEXEC of the wrap.
pub data Outcome : Type 0 where
  failed : Outcome
  wrapped : (cloexec : Bool) → Outcome

-- The failure path where nothing is registered.
unfoldable pub abandon : ℕ → ℤ → Ttys → Outcome × Ttys
abandon i real w = (failed, record { slots = unclaim i w.slots; held = drop_one real w.held })

-- From dup3 on. The close of the synthetic descriptor is its last one if dup3 has failed, and then
-- runs tty_release.
unfoldable pub put_over : ℕ → (real synth : ℤ) → (cloexec : Bool) → Res ℤ → Ttys → Outcome × Ttys
put_over i real synth cloexec (ret fd) w =
    (wrapped cloexec, record w { held = drop_one synth w.held })
put_over i real synth cloexec (fail e) w =
    (failed, tty_release i real (record w { held = drop_one synth w.held }))

unfoldable pub open_synth :
    Results → ℕ → (real : ℤ) → (cloexec : Bool) → Res ℤ → Ttys → Outcome × Ttys
open_synth R i real cloexec (fail e) w = abandon i real w
open_synth R i real cloexec (ret synth) w =
    put_over i real synth cloexec R.dup3 (record w { held = synth ∷ w.held })

-- The slot once the terminal's settings are known.
unfoldable pub primed : ℤ → Termios → (nonblock : Bool) → Slot → Slot
primed real t nonblock s = record s {
  real_fd = real;
  caches = record { canon = t.icanon; nonblock = nonblock; vmin = t.min; vtime = t.time };
}

unfoldable pub read_flags : Results → Termios → ℕ → ℤ → Res Bool → Res Bool → Ttys → Outcome × Ttys
read_flags R t i real (fail e) fdflags w = abandon i real w
read_flags R t i real (ret nonblock) (fail e) w = abandon i real w
read_flags R t i real (ret nonblock) (ret cloexec) w =
    open_synth R i real cloexec R.synth_open
      (record w { slots = at_slot i (primed real t nonblock) w.slots })

unfoldable pub dup_real : Results → Termios → ℕ → Res ℤ → Ttys → Outcome × Ttys
dup_real R t i (fail e) w = (failed, record w { slots = unclaim i w.slots })
dup_real R t i (ret real) w =
    read_flags R t i real R.getfl R.getfd (record w { held = real ∷ w.held })

-- wslcompat_tty_install
unfoldable pub tty_install : Results → Termios → Ttys → Outcome × Ttys
tty_install R t w = elim (tty_alloc w.slots) [
  | none ↦ (failed, w)
  | some i ↦ dup_real R t i R.dupfd (record w { slots = claim i w.slots })
]
