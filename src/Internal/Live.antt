-- ===== src/Internal/Live.antt =====
-- The library's descriptors keep their files whatever the application closes or duplicates.
use wslcompat.Prelude.{
  ℕ, ◌+◌, ◌≤◌, refl, inl, inr, Bool, true, false, not, ◌&&◌, ◌||◌, none, List, [], ◌∷◌, ltb, leb,
  ◌==◌, Bool-cases, is_some,
}
use wslcompat.Prelude.Int.{pos, int_eq}
use wslcompat.Internal.{
  Dupfd, Fds, relocate_internal, sys_close, close_shim, sys_dup3, dup_common, close_listed,
  close_range, Act, close_act, dup2_act, dup3_act, close_range_act, act, run_acts,
}
use wslcompat.Internal.Slots.{
  given_up, GivesFree, Keeps, AllOther, relocate_slots-AllOther, relocate_slots-Keeps,
  Keeps-set_file,
}
use wslcompat.Internal.Accounts.{run_acts-Accounted}

-- Each slot of the registry is empty or refers to its file.
abbrev pub IsKept : List ℕ → Fds → Type 0
IsKept own w = Keeps w.files w.slots own

module _ (dupfd : Dupfd) (free : GivesFree dupfd) (own : List ℕ) where
  relocate_internal-IsKept :
      (n : ℕ) (w : Fds)
      → IsKept own w
      → IsKept own (relocate_internal dupfd (pos n) w)
        × AllOther (pos n) (relocate_internal dupfd (pos n) w).slots
  unfolding relocate_internal
  relocate_internal-IsKept n w h = (
    relocate_slots-Keeps dupfd (pos n) w.slots own w.files w.failures free refl h,
    relocate_slots-AllOther dupfd (pos n) w.slots w.files w.failures free refl,
  )

  sys_close-IsKept :
      (n : ℕ) (w : Fds)
      → AllOther (pos n) w.slots
      → IsKept own w
      → IsKept own (sys_close (pos n) w).1
  unfolding sys_close
  sys_close-IsKept n w other h = elim (Bool-cases (is_some (w.files (pos n)))) [
    | inl y ↦ rw (y, sys_close) (Keeps-set_file (pos n) none w.files w.slots own other h)
    | inr e ↦ rw (e, sys_close) h
  ]

  close_shim-IsKept : (n : ℕ) (w : Fds) → IsKept own w → IsKept own (close_shim dupfd (pos n) w).1
  unfolding close_shim
  close_shim-IsKept n w h =
      let (kept, other) = relocate_internal-IsKept n w h in
      sys_close-IsKept n (relocate_internal dupfd (pos n) w) other kept

  sys_dup3-IsKept :
      (m n : ℕ) (w : Fds)
      → AllOther (pos n) w.slots
      → IsKept own w
      → IsKept own (sys_dup3 (pos m) (pos n) w).1
  unfolding sys_dup3
  sys_dup3-IsKept m n w other h = elim (Bool-cases (int_eq (pos m) (pos n))) [
    | inl y ↦ rw (y, sys_dup3) h
    | inr e ↦ elim (Bool-cases (is_some (w.files (pos m)))) [
      | inr c ↦ rw (e, c, sys_dup3) h
      | inl c ↦
          rw (e, c, sys_dup3) (Keeps-set_file (pos n) (w.files (pos m)) w.files w.slots own other h)
    ]
  ]

  dup_common-IsKept :
      (m n : ℕ) (self : Bool) (w : Fds)
      → IsKept own w
      → IsKept own (dup_common dupfd (pos m) (pos n) self w).1
  unfolding dup_common
  dup_common-IsKept m n self w h = elim (Bool-cases (self && int_eq (pos m) (pos n))) [
    | inl y ↦ rw (y, dup_common) h
    | inr e ↦
        let (kept, other) = relocate_internal-IsKept n w h in
        rw (e, dup_common) (sys_dup3-IsKept m n (relocate_internal dupfd (pos n) w) other kept)
  ]

  close_listed-IsKept :
      (first last : ℕ) (walk : List ℕ) (w : Fds)
      → IsKept own w
      → IsKept own (close_listed dupfd first last walk w)
  unfolding close_listed
  close_listed-IsKept first last [] w h = h
  close_listed-IsKept first last (n ∷ ns) w h = elim (Bool-cases (leb first n && leb n last)) [
    | inl y ↦
        rw (y, close_listed)
          (close_listed-IsKept first last ns (close_shim dupfd (pos n) w).1
            (close_shim-IsKept n w h))
    | inr e ↦ rw (e, close_listed) (close_listed-IsKept first last ns w h)
  ]

  act-IsKept : (a : Act) (w : Fds) → IsKept own w → IsKept own (act dupfd a w)
  unfolding act close_range
  act-IsKept (close_act n) w h = close_shim-IsKept n w h
  act-IsKept (dup2_act m n) w h = dup_common-IsKept m n true w h
  act-IsKept (dup3_act m n) w h = dup_common-IsKept m n false w h
  act-IsKept (close_range_act walk first last flags) w h =
      elim (Bool-cases (ltb last first || not (flags == 0))) [
        | inl y ↦ rw (y, act, close_range) h
        | inr e ↦ rw (e, act, close_range) (close_listed-IsKept first last walk w h)
      ]

run_acts-IsKept :
    (dupfd : Dupfd) (own : List ℕ) (acts : List Act) (w : Fds)
    → GivesFree dupfd
    → IsKept own w
    → IsKept own (run_acts dupfd acts w)
unfolding run_acts
run_acts-IsKept dupfd own [] w free h = h
run_acts-IsKept dupfd own (a ∷ rest) w free h =
    run_acts-IsKept dupfd own rest (act dupfd a w) free (act-IsKept dupfd free own a w h)

-- Whatever an application closes, duplicates over or closes by range, on descriptors that are not
-- negative and in any order: each registered slot of the library is empty or still refers to its
-- own open file, and no more slots have been emptied than calls of F_DUPFD have failed; without
-- such a failure all of them are kept. F_DUPFD gives a descriptor that is not open and not
-- negative.
pub run_acts_keep :
    (dupfd : Dupfd) (own : List ℕ) (acts : List Act) (w : Fds)
    → GivesFree dupfd
    → IsKept own w
    → (let w' = run_acts dupfd acts w in
        IsKept own w' × (given_up w'.slots + w.failures ≤ given_up w.slots + w'.failures))
run_acts_keep dupfd own acts w free h =
    (run_acts-IsKept dupfd own acts w free h, run_acts-Accounted dupfd free acts w)
