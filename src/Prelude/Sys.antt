-- ===== src/Prelude/Sys.antt =====
-- Results of system calls, and the error numbers that the shims tell apart.
use Prim.Native.Nat.{ℕ}

-- A call that returns a value, or -1 with `errno` set.
pub data Res {ℓ} (A : Type ℓ) : Type ℓ where
  ret : A → Res A
  fail : ℕ → Res A

abbrev pub eperm : ℕ
eperm = 1

abbrev pub enoent : ℕ
enoent = 2

abbrev pub eintr : ℕ
eintr = 4

abbrev pub e2big : ℕ
e2big = 7

abbrev pub enoexec : ℕ
enoexec = 8

abbrev pub ebadf : ℕ
ebadf = 9

abbrev pub ewouldblock : ℕ
ewouldblock = 11

abbrev pub enomem : ℕ
enomem = 12

abbrev pub efault : ℕ
efault = 14

abbrev pub eexist : ℕ
eexist = 17

abbrev pub enodev : ℕ
enodev = 19

abbrev pub einval : ℕ
einval = 22

abbrev pub enfile : ℕ
enfile = 23

abbrev pub enosys : ℕ
enosys = 38

abbrev pub enoprotoopt : ℕ
enoprotoopt = 92

abbrev pub eopnotsupp : ℕ
eopnotsupp = 95
