-- ===== src/Tty.antt =====
-- tty.c, `tty_read`: VMIN and VTIME of a terminal in raw mode, which WSL1 does not honour. The
-- kernel is a parameter by the number of the round.
pub mod Read
pub mod Wrap
mod Tests
use wslcompat.Prelude.{
  ℕ, zero, suc, ◌+◌, ◌-◌, ◌*◌, ◌/◌, ◌%◌, ◌^◌, ◌≤◌, ◌<◌, ◌≡◌, refl, sym, ap, ◌∙◌, ◌≢◌, ◌↔◌, ◌⊎◌, inl,
  inr, Bool, true, false, not, ◌&&◌, ◌||◌, Option, none, some, List, [], ◌∷◌, ◌++◌, map, arith, ltb,
  leb, ◌==◌, if◌then◌else◌, ltb→lt, lt→ltb, leb→le, ==_iff, ==_self, Bool-cases, Option-cases,
  length, get_elem?, get_or, set, take, drop, replicate, length-append, length-set,
  get_elem?-set_self, get_elem?-set_ne, length-replicate, length-map, length-snoc, append-cons,
  is_some, Res, ret, fail, eperm, enoent, eintr, e2big, enoexec, ebadf, ewouldblock, enomem, efault,
  eexist, enodev, einval, enfile, enosys, enoprotoopt, eopnotsupp,
}
use wslcompat.Prelude.Int.{ℤ, pos, negsuc, minus_one, int_eq, is_neg, int_eq_iff, int_eq_self}

-- The fields of struct tty_state that a read uses.
pub record TtyState : Type 0 where
  pub canon : Bool
  pub nonblock : Bool
  pub vmin : ℕ
  pub vtime : ℕ

-- poll on the terminal with a timeout in milliseconds, and read.
pub record Kernel : Type 0 where
  pub passthru : Bool
  pub poll : (k : ℕ) → (timeout : ℤ) → Res ℕ
  pub read : (k count : ℕ) → Res ℕ

-- The timeout of tty_read_raw_wait.
unfoldable pub wait_timeout : (vmin vtime : ℕ) → ℤ
wait_timeout vmin vtime = if ltb 0 vmin then minus_one else pos (vtime * 100)

-- The timeout between bytes.
unfoldable pub byte_timeout : (vtime : ℕ) → ℤ
byte_timeout vtime = if vtime == 0 then minus_one else pos (vtime * 100)

-- The bytes of one round: none if poll fails or times out, or if read fails or is at the end.
unfoldable pub round_bytes : Kernel → (k : ℕ) → (timeout : ℤ) → (len : ℕ) → ℕ
round_bytes K k timeout len = elim (K.poll k timeout) [
  | fail e ↦ 0
  | ret ready ↦ if ready == 0 then 0 else elim (K.read k len) [ fail e ↦ 0 | ret n ↦ n ]
]

-- The loop, in its round `k` with `total` bytes read. A round without bytes ends it; `none` when
-- the fuel runs out.
unfoldable pub read_loop : ℕ → Kernel → TtyState → (count k total : ℕ) → Option ℕ
read_loop zero K s count k total = none
read_loop (suc f) K s count k total =
    let n = round_bytes K k (byte_timeout s.vtime) (count - total) in
    elim (ltb total s.vmin && ltb total count && not (n == 0)) [
      | false ↦ some total
      | true ↦ read_loop f K s count (k + 1) (total + n)
    ]

unfoldable pub after_first : Kernel → TtyState → (count n : ℕ) → Option (Res ℕ)
after_first K s count n =
    if (n == 0) || (s.vmin == 0) || leb s.vmin n || leb count n
    then some (ret n)
    else elim (read_loop count K s count 1 n) [ none ↦ none | some total ↦ some (ret total) ]

unfoldable pub raw_read : Kernel → TtyState → (count : ℕ) → Option (Res ℕ)
raw_read K s count = elim (K.poll 0 (wait_timeout s.vmin s.vtime)) [
  | fail e ↦ some (fail e)
  | ret ready ↦ elim (ready == 0) [
    | true ↦ some (ret 0)
    | false ↦ elim (K.read 0 count) [ fail e ↦ some (fail e) | ret n ↦ after_first K s count n ]
  ]
]

unfoldable pub tty_read : Kernel → TtyState → (count : ℕ) → Option (Res ℕ)
tty_read K s count =
    if K.passthru || s.canon || s.nonblock
    then some (K.read 0 count)
    else if count == 0
    then some (ret 0)
    else raw_read K s count
