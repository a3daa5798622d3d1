-- ===== src/Dispatch.antt =====
-- synth.h's SYNTH_DISPATCH, SYNTH_DISPATCH_EXCL and SYNTH_SHIM_E, and their users: read.c, fcntl.c
-- past the lock commands (those are Lock), ioctl.c, and of synth.c the fstat shim and
-- wslcompat_synth_passthru. `S` is the state of the kernel and of the handlers.
pub mod Forward
pub mod Session
pub mod Terminal
mod Tests
use wslcompat.Prelude.{
  ℕ, zero, suc, ◌+◌, ◌-◌, ◌*◌, ◌/◌, ◌%◌, ◌^◌, ◌≤◌, ◌<◌, ◌≡◌, refl, sym, ap, ◌∙◌, ◌≢◌, ◌↔◌, ◌⊎◌, inl,
  inr, Bool, true, false, not, ◌&&◌, ◌||◌, Option, none, some, List, [], ◌∷◌, ◌++◌, map, arith, ltb,
  leb, ◌==◌, if◌then◌else◌, ltb→lt, lt→ltb, leb→le, ==_iff, ==_self, Bool-cases, Option-cases,
  length, get_elem?, get_or, set, take, take_all, drop, replicate, length-append, length-set,
  get_elem?-set_self, get_elem?-set_ne, length-replicate, length-map, length-snoc, append-cons,
  is_some, Res, ret, fail, eperm, enoent, eintr, e2big, enoexec, ebadf, ewouldblock, enomem, efault,
  eexist, enodev, einval, enfile, enosys, enoprotoopt, eopnotsupp,
}
use wslcompat.Prelude.Int.{ℤ, pos, negsuc, minus_one, int_eq, is_neg, int_eq_iff, int_eq_self}

-- The calls that the macros wrap, and those of their bodies.
pub data Op : Type 0 where
  read write lseek pread pwrite readv writev preadv pwritev fsync fdatasync ftruncate fchmod : Op
  fchown fallocate fgetxattr fsetxattr flistxattr fremovexattr ioctl fcntl fstat ttyname : Op

-- enum synth_op_kind
pub data Kind : Type 0 where
  op_poll op_io op_stat op_preexec : Kind

-- What a call returns, and what it writes through the caller's pointer.
pub record Reply : Type 0 where
  pub result : ℕ
  pub out : ℕ

-- The failure of the kernel's call on an O_PATH descriptor that each shim waits for.
unfoldable pub canary : Op → ℕ
canary readv = eperm
canary writev = eperm
canary preadv = eperm
canary pwritev = eperm
canary ftruncate = einval
canary fallocate = eopnotsupp
canary _ = ebadf

-- F_GETFL, F_SETFL, F_SETFD, FIOCLEX, FIONCLEX and the requests of the terminal.
abbrev pub f_setfd : ℕ
f_setfd = 2

abbrev pub f_getfl : ℕ
f_getfl = 3

abbrev pub f_setfl : ℕ
f_setfl = 4

abbrev pub fioclex : ℕ
fioclex = 0x5451

abbrev pub fionclex : ℕ
fionclex = 0x5450

abbrev pub tcgets : ℕ
tcgets = 0x5401

abbrev pub tcsets : ℕ
tcsets = 0x5402

abbrev pub tcsbrk : ℕ
tcsbrk = 0x5409

abbrev pub tcxonc : ℕ
tcxonc = 0x540a

abbrev pub tcflsh : ℕ
tcflsh = 0x540b

abbrev pub tiocgpgrp : ℕ
tiocgpgrp = 0x540f

abbrev pub tiocspgrp : ℕ
tiocspgrp = 0x5410

abbrev pub tiocgsid : ℕ
tiocgsid = 0x5429

-- TCSETS, TCSETSW, TCSETSF and the same three with the suffix 2.
unfoldable pub sets_terminal : ℕ → Bool
sets_terminal op =
    (leb tcsets op && leb op (tcsets + 2)) || (leb 0x402c542b op && leb op 0x402c542d)

-- struct synth_ops: the handler's calls, and its `passthru`.
pub record Handler (S : Type 0) : Type 0 where
  pub calls : Op → Option (List ℕ → S → Res Reply × S)
  pub passthru : Option (Kind → S → ℤ)

-- wslcompat_passthru by the name of the shim, which says that the tunables switch that shim off;
-- the kernel; the entry that a pin of the descriptor finds; and wslcompat_tty_install.
pub record Host (S : Type 0) : Type 0 where
  pub disabled : Op → Bool
  pub kernel : Op → ℤ → List ℕ → S → Res Reply × S
  pub entry : ℤ → S → Option (Handler S)
  pub install : ℤ → S → S

-- `pins` counts the references that this call holds.
pub record World (S : Type 0) : Type 0 where
  pub state : S
  pub pins : ℕ

module _ {S : Type 0} where
  unfoldable pub run : (List ℕ → S → Res Reply × S) → List ℕ → World S → Res Reply × World S
  run f args w = let (r, s) = f args w.state in (r, record w { state = s })

  unfoldable pub pinned : World S → World S
  pinned w = record w { pins = w.pins + 1 }

  -- The cleanup of SYNTH_AUTOPIN_FD.
  unfoldable pub unpinned : {A : Type 0} → A × World S → A × World S
  unpinned (a, w) = (a, record w { pins = w.pins - 1 })

  -- After SYNTH_DISPATCH: errno is as it was where it fell through.
  unfoldable pub or_else : Res Reply → Option (Res Reply) × World S → Res Reply × World S
  or_else r (none, w) = (r, w)
  or_else r (some r', w) = (r', w)

module _ {S : Type 0} (H : Host S) where
  unfoldable pub sys : Op → ℤ → List ℕ → World S → Res Reply × World S
  sys op fd args w = run (H.kernel op fd) args w

  -- SYNTH_DISPATCH on a pinned entry; `none` falls through.
  unfoldable pub forward : Handler S → Op → List ℕ → World S → Option (Res Reply) × World S
  forward h op args w = elim h.passthru [
    | none ↦ (none, w)
    | some backing ↦
        let real = backing op_io w.state in
        if is_neg real then (none, w) else let (r, w') = sys op real args w in (some r, w')
  ]

  unfoldable pub handle : Handler S → Op → List ℕ → World S → Option (Res Reply) × World S
  handle h op args w = elim (h.calls op) [
    | some f ↦ let (r, w') = run f args w in (some r, w')
    | none ↦ forward h op args w
  ]

  unfoldable pub dispatch : Op → ℤ → List ℕ → World S → Option (Res Reply) × World S
  dispatch op fd args w = elim (H.entry fd w.state) [
    | none ↦ (none, w)
    | some h ↦ unpinned (handle h op args (pinned w))
  ]

  -- SYNTH_SHIM_E
  unfoldable pub after_kernel : Op → ℤ → List ℕ → Res Reply × World S → Res Reply × World S
  after_kernel op fd args (ret n, w) = (ret n, w)
  after_kernel op fd args (fail e, w) =
      if not (e == canary op) || H.disabled op
      then (fail e, w)
      else or_else (fail e) (dispatch op fd args w)

  unfoldable pub shim : Op → ℤ → List ℕ → World S → Res Reply × World S
  shim op fd args w = after_kernel op fd args (sys op fd args w)

  -- `nbytes > buflen` ends the process: none.
  unfoldable pub checked_shim :
      Op → ℤ → (nbytes buflen : ℕ) → List ℕ → World S → Option (Res Reply × World S)
  checked_shim op fd nbytes buflen args w =
      if ltb buflen nbytes then none else some (shim op fd args w)

  -- What SYNTH_DISPATCH_EXCL does where SYNTH_DISPATCH fell through; `none` goes on.
  unfoldable pub exclusive : ℤ → Option (Res Reply) × World S → Option (Res Reply) × World S
  exclusive fd (some r, w) = (some r, w)
  exclusive fd (none, w) = elim (H.entry fd w.state) [
    | none ↦ (none, w)
    | some h ↦ unpinned {A = Option (Res Reply)} (some (fail eopnotsupp), pinned w)
  ]

  -- fcntl on a command that is not about locks.
  unfoldable pub fcntl_rest : ℤ → List ℕ → World S → Res Reply × World S
  fcntl_rest fd args w = after_kernel fcntl fd args (sys fcntl fd args w)

  unfoldable pub or_rest : ℤ → List ℕ → Option (Res Reply) × World S → Res Reply × World S
  or_rest fd args (some r, w) = (r, w)
  or_rest fd args (none, w) = fcntl_rest fd args w

  unfoldable pub fcntl_shim : ℤ → (cmd arg : ℕ) → World S → Res Reply × World S
  fcntl_shim fd cmd arg w =
      let args = cmd ∷ arg ∷ [] in
      if H.disabled fcntl
      then sys fcntl fd args w
      else if (cmd == f_getfl) || (cmd == f_setfl)
      then or_rest fd args (exclusive fd (dispatch fcntl fd args w))
      else fcntl_rest fd args w

  -- The switch of ioctl on a pinned entry; its default pins once more.
  unfoldable pub ioctl_entry : ℤ → (op arg : ℕ) → World S → Res Reply × World S
  ioctl_entry fd op arg w =
      if op == fioclex
      then sys fcntl fd (f_setfd ∷ 1 ∷ []) w
      else if op == fionclex
      then sys fcntl fd (f_setfd ∷ 0 ∷ []) w
      else or_else (fail ebadf) (dispatch ioctl fd (op ∷ arg ∷ []) w)

  unfoldable pub ioctl_after : ℤ → (op arg : ℕ) → Res Reply × World S → Res Reply × World S
  ioctl_after fd op arg (fail e, w) =
      if e == ebadf
      then elim (H.entry fd w.state) [
        | none ↦ (fail e, w)
        | some h ↦ unpinned (ioctl_entry fd op arg (pinned w))
      ]
      else (fail e, w)
  ioctl_after fd op arg (ret n, w) =
      if (n.result == 0) && sets_terminal op
      then (ret n, record w { state = H.install fd w.state })
      else (ret n, w)

  unfoldable pub ioctl_shim : ℤ → (op arg : ℕ) → World S → Res Reply × World S
  ioctl_shim fd op arg w =
      let r = sys ioctl fd (op ∷ arg ∷ []) w in
      if H.disabled ioctl then r else ioctl_after fd op arg r

  -- wslcompat_synth_passthru
  unfoldable pub backing_of : Kind → ℤ → S → ℤ
  backing_of kind fd s = elim (H.entry fd s) [
    | none ↦ minus_one
    | some h ↦ elim h.passthru [ none ↦ minus_one | some backing ↦ backing kind s ]
  ]

  -- fstat and fstat64; `active` is wslcompat_synth_active.
  unfoldable pub fstat_after : Bool → ℤ → Res Reply × World S → Res Reply × World S
  fstat_after active fd (fail e, w) = (fail e, w)
  fstat_after active fd (ret n, w) =
      let real = backing_of op_stat fd w.state in
      if H.disabled fstat || not active || is_neg real then (ret n, w) else sys fstat real [] w

  unfoldable pub fstat_shim : Bool → ℤ → World S → Res Reply × World S
  fstat_shim active fd w = fstat_after active fd (sys fstat fd [] w)

  -- ttyname and ttyname_r
  unfoldable pub ttyname_shim : ℤ → List ℕ → World S → Res Reply × World S
  ttyname_shim fd args w =
      let real = backing_of op_io fd w.state in
      if H.disabled ttyname || is_neg real then sys ttyname fd args w else sys ttyname real args w

-- The calls of termios.h that ioctl.c wraps, each with its arguments behind the descriptor.
pub data TcCall : Type 0 where
  tcsetattr : ℕ → ℕ → TcCall
  tcgetattr isatty tcgetpgrp tcgetsid tcdrain : TcCall
  tcsetpgrp tcsendbreak tcflush tcflow : ℕ → TcCall

-- TCSANOW, TCSADRAIN and TCSAFLUSH are 0 to 2, and choose TCSETS and the requests behind it.
unfoldable pub set_request : (optional_actions : ℕ) → Option ℕ
set_request actions = if leb actions 2 then some (tcsets + actions) else none

-- The request and its argument, none where errno is EINVAL. A pointer argument stands for what it
-- points at.
unfoldable pub request : TcCall → Option (ℕ × ℕ)
request (tcsetattr actions termios) = elim (set_request actions) [
  | none ↦ none
  | some op ↦ some (op, termios)
]
request tcgetattr = some (tcgets, 0)
request isatty = some (tcgets, 0)
request (tcsetpgrp pgrp) = some (tiocspgrp, pgrp)
request tcgetpgrp = some (tiocgpgrp, 0)
request tcgetsid = some (tiocgsid, 0)
request tcdrain = some (tcsbrk, 1)
request (tcsendbreak duration) = some (tcsbrk, 0)
request (tcflush queue) = some (tcflsh, queue)
request (tcflow action) = some (tcxonc, action)

-- The wrapper's result, from ioctl's.
unfoldable pub tc_result : TcCall → Res Reply → Res Reply
tc_result isatty (ret n) = ret (record n { result = if n.result == 0 then 1 else 0 })
tc_result isatty (fail e) = ret (record { result = 0; out = 0 })
tc_result tcgetpgrp (ret n) = ret (record n { result = n.out })
tc_result tcgetsid (ret n) = ret (record n { result = n.out })
tc_result _ r = r

module _ {S : Type 0} (H : Host S) (libc : TcCall → ℤ → S → Res Reply × S) where
  unfoldable pub tc_ioctl : TcCall → ℤ → Option (ℕ × ℕ) → World S → Res Reply × World S
  tc_ioctl c fd none w = (fail einval, w)
  tc_ioctl c fd (some (op, arg)) w = let (r, w') = ioctl_shim H fd op arg w in (tc_result c r, w')

  -- Each call of termios.h has a switch of its own.
  unfoldable pub tc_call : (disabled : TcCall → Bool) → TcCall → ℤ → World S → Res Reply × World S
  tc_call disabled c fd w =
      if disabled c then run (λ _. libc c fd) [] w else tc_ioctl c fd (request c) w
