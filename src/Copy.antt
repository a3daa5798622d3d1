-- ===== src/Copy.antt =====
-- copy_file_range.c: the copy by pread and pwrite where the kernel has no copy_file_range. The
-- source file is a function from offsets to bytes, which the copy does not change; the target is
-- one too.
pub mod Loop
mod Tests
use wslcompat.Prelude.{
  ℕ, zero, suc, ◌+◌, ◌-◌, ◌*◌, ◌/◌, ◌%◌, ◌^◌, ◌≤◌, ◌<◌, ◌≡◌, refl, sym, ap, ◌∙◌, ◌≢◌, ◌↔◌, ◌⊎◌, inl,
  inr, Bool, true, false, not, ◌&&◌, ◌||◌, Option, none, some, List, [], ◌∷◌, ◌++◌, map, arith, ltb,
  leb, ◌==◌, if◌then◌else◌, ltb→lt, lt→ltb, leb→le, ==_iff, ==_self, Bool-cases, Option-cases,
  length, get_elem?, get_or, set, take, take_all, drop, replicate, length-append, length-set,
  get_elem?-set_self, get_elem?-set_ne, length-replicate, length-map, length-snoc, append-cons,
  is_some, Res, ret, fail, eperm, enoent, eintr, e2big, enoexec, ebadf, ewouldblock, enomem, efault,
  eexist, enodev, einval, enfile, enosys, enoprotoopt, eopnotsupp,
}

-- pread gives a count for the round, the size asked for and the offset; pwrite one for the round,
-- the number of the call in it, and the size asked for.
pub record Kernel : Type 0 where
  pub pread : (k chunk offset : ℕ) → Res ℕ
  pub pwrite : (k j count : ℕ) → Res ℕ

abbrev pub buf_size : ℕ
buf_size = 4096

-- The target after `n` bytes of `input` from `a` on were written at `b`.
unfoldable pub written_at : (input : ℕ → ℕ) → (a b n : ℕ) → (ℕ → ℕ) → ℕ → ℕ
written_at input a b n out x = if leb b x && ltb x (b + n) then input (a + (x - b)) else out x

pub record State : Type 0 where
  pub out : ℕ → ℕ
  pub off_in : ℕ
  pub off_out : ℕ
  pub total : ℕ
  pub len : ℕ

-- How the loop ends: by its test or the end of the file, or by an error.
pub data Ending : Type 0 where
  finished : State → Ending
  broken : (errno : ℕ) → State → Ending

-- The inner loop, with the result of the last pwrite, and the target; `none` when the fuel runs
-- out, as where pwrite keeps writing nothing.
unfoldable pub write_loop :
    ℕ
    → Kernel
    → (input : ℕ → ℕ) → (k j off_in off_out r written : ℕ) → (ℕ → ℕ)
    → Option (Res ℕ × (ℕ → ℕ))
write_loop zero K input k j off_in off_out r written out = none
write_loop (suc f) K input k j off_in off_out r written out = elim (ltb written r) [
  | false ↦ some (ret written, out)
  | true ↦ elim (K.pwrite k j (r - written)) [
    | fail e ↦ some (fail e, out)
    | ret w ↦
        write_loop f K input k (j + 1) off_in off_out r (written + w)
          (written_at input (off_in + written) (off_out + written) w out)
  ]
]

-- The round's end, from the inner loop's: its state, or the end of the copy.
unfoldable pub advance : (r : ℕ) → State → (ℕ → ℕ) → State
advance r s out = record {
  out = out;
  off_in = s.off_in + r;
  off_out = s.off_out + r;
  total = s.total + r;
  len = s.len - r;
}

unfoldable pub chunk_of : (len : ℕ) → ℕ
chunk_of len = if ltb len buf_size then len else buf_size

-- The outer loop in its round `k`; the fuel is for the rounds, and each inner loop has as much as
-- it has bytes, and one more.
unfoldable pub copy_loop : ℕ → Kernel → (input : ℕ → ℕ) → (k : ℕ) → State → Option Ending
copy_loop zero K input k s = none
copy_loop (suc f) K input k s = elim (s.len == 0) [
  | true ↦ some (finished s)
  | false ↦ elim (K.pread k (chunk_of s.len) s.off_in) [
    | fail e ↦ some (broken e s)
    | ret r ↦ elim (r == 0) [
      | true ↦ some (finished s)
      | false ↦ elim (write_loop (suc r) K input k 0 s.off_in s.off_out r 0 s.out) [
        | none ↦ none
        | some (fail e, out) ↦ some (broken e (record s { out = out }))
        | some (ret n, out) ↦ copy_loop f K input (k + 1) (advance r s out)
      ]
    ]
  ]
]

-- The offsets of the two open files, and the target.
pub record World : Type 0 where
  pub pos_in : ℕ
  pub pos_out : ℕ
  pub out : ℕ → ℕ

-- The caller's offsets, none for NULL.
pub record Pointers : Type 0 where
  pub off_in : Option ℕ
  pub off_out : Option ℕ

unfoldable pub start_at : Option ℕ → (pos : ℕ) → ℕ
start_at none pos = pos
start_at (some off) pos = off

-- What the call leaves: through the pointers in any case, and by lseek where the copy finished.
unfoldable pub leave_pointer : Option ℕ → ℕ → Option ℕ
leave_pointer none off = none
leave_pointer (some _) off = some off

unfoldable pub leave_pos : Option ℕ → (pos off : ℕ) → ℕ
leave_pos none pos off = off
leave_pos (some _) pos off = pos

unfoldable pub outcome : Pointers → World → Ending → Res ℕ × Pointers × World
outcome p w (finished s) = (
  ret s.total,
  record { off_in = leave_pointer p.off_in s.off_in; off_out = leave_pointer p.off_out s.off_out },
  record {
    pos_in = leave_pos p.off_in w.pos_in s.off_in;
    pos_out = leave_pos p.off_out w.pos_out s.off_out;
    out = s.out;
  },
)
outcome p w (broken e s) = (
  if ltb 0 s.total then ret s.total else fail e,
  record { off_in = leave_pointer p.off_in s.off_in; off_out = leave_pointer p.off_out s.off_out },
  record w { out = s.out },
)

-- The emulation, behind the kernel's ENOSYS, on files whose offsets lseek can tell.
unfoldable pub emulate :
    Kernel → (input : ℕ → ℕ) → Pointers → (len : ℕ) → World → Option (Res ℕ × Pointers × World)
emulate K input p len w =
    elim (copy_loop (suc len) K input 0 (record {
      out = w.out;
      off_in = start_at p.off_in w.pos_in;
      off_out = start_at p.off_out w.pos_out;
      total = 0;
      len = len;
    })) [ none ↦ none | some e ↦ some (outcome p w e) ]

-- copy_file_range: `native` is the kernel's result and state.
unfoldable pub copy_file_range :
    (passthru : Bool)
    → (native : Res ℕ × Pointers × World) → Kernel
    → (input : ℕ → ℕ) → Pointers
    → (len : ℕ) → World
    → Option (Res ℕ × Pointers × World)
copy_file_range passthru (ret n, p', w') K input p len w = some (ret n, p', w')
copy_file_range passthru (fail e, p', w') K input p len w =
    if not (e == enosys) || passthru then some (fail e, p', w') else emulate K input p len w
