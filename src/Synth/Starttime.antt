-- ===== src/Synth/Starttime.antt =====
-- synth.c, `read_proc_starttime`, and its relative `get_start_time` of future/xattr_locks.c: the
-- start time of a process from the text of /proc/<pid>/stat. The text is what `read` returns, a
-- list of bytes without NULs.
pub mod Stat
mod Tests
use wslcompat.Prelude.{
  ℕ, zero, suc, ◌+◌, ◌-◌, ◌*◌, ◌/◌, ◌%◌, ◌^◌, ◌≤◌, ◌<◌, ◌≡◌, refl, sym, ap, ◌∙◌, ◌≢◌, ◌↔◌, ◌⊎◌, inl,
  inr, Bool, true, false, not, ◌&&◌, ◌||◌, Option, none, some, List, [], ◌∷◌, ◌++◌, map, arith, ltb,
  leb, ◌==◌, if◌then◌else◌, ltb→lt, lt→ltb, leb→le, ==_iff, ==_self, Bool-cases, Option-cases,
  length, get_elem?, get_or, set, take, drop, replicate, length-append, length-set,
  get_elem?-set_self, get_elem?-set_ne, length-replicate, length-map, length-snoc, append-cons,
  is_some, Res, ret, fail, eperm, enoent, eintr, e2big, enoexec, ebadf, ewouldblock, enomem, efault,
  eexist, enodev, einval, enfile, enosys, enoprotoopt, eopnotsupp,
}
use wslcompat.Prelude.Decimal.{strtoull, is_digit}

abbrev pub stat_buf : ℕ
stat_buf = 512

-- What follows the last ')': strrchr and `p++`.
unfoldable pub after_last : List ℕ → Option (List ℕ)
after_last [] = none
after_last (c ∷ cs) = elim (after_last cs) [
  | some r ↦ some r
  | none ↦ if c == b')' then some cs else none
]

-- `while (*p == ' ') p++`
unfoldable pub skip_blanks : List ℕ → List ℕ
skip_blanks [] = []
skip_blanks (c ∷ cs) = let more = skip_blanks cs in if c == 32 then more else c ∷ cs

-- `while (*p && *p != ' ') p++`
unfoldable pub skip_word : List ℕ → List ℕ
skip_word [] = []
skip_word (c ∷ cs) = let more = skip_word cs in if c == 32 then c ∷ cs else more

-- `for (i = 0; i < n; i++) strtoull(p, &p, 10)`
unfoldable pub skip_fields : ℕ → List ℕ → List ℕ
skip_fields zero p = p
skip_fields (suc n) p = skip_fields n (strtoull p).1

-- From the text that was read; a failure or an empty text is 0.
unfoldable pub read_proc_starttime : Option (List ℕ) → ℕ
read_proc_starttime none = 0
read_proc_starttime (some text) = elim (after_last (take (stat_buf - 1) text)) [
  | none ↦ 0
  | some p ↦ (strtoull (skip_fields 18 (skip_word (skip_blanks p)))).0
]

-- pid_starttime keeps 32 bits.
unfoldable pub pid_starttime : Option (List ℕ) → ℕ
pid_starttime text = read_proc_starttime text % 2 ^ 32

-- `while (*p != '\0' && count < n)`, which counts spaces.
unfoldable pub skip_by_spaces : ℕ → List ℕ → List ℕ
skip_by_spaces zero p = p
skip_by_spaces (suc n) [] = []
skip_by_spaces (suc n) (c ∷ cs) = if c == 32 then skip_by_spaces n cs else skip_by_spaces (suc n) cs

-- get_start_time of future/xattr_locks.c; its scan begins at the ')' itself. sscanf's %lu reads
-- like strtoull, and fails where there is no number, which is 0 too.
unfoldable pub get_start_time : Option (List ℕ) → ℕ
get_start_time none = 0
get_start_time (some text) = elim (after_last (take (stat_buf - 1) text)) [
  | none ↦ 0
  | some p ↦ (strtoull (skip_by_spaces 19 (b')' ∷ p))).0
]
