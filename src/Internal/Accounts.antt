-- ===== src/Internal/Accounts.antt =====
-- A slot of the registry is emptied only by a failure of F_DUPFD.
use wslcompat.Prelude.{
  ℕ, ◌+◌, ◌≤◌, inl, inr, Bool, true, false, ◌&&◌, List, [], ◌∷◌, arith, leb, Bool-cases,
}
use wslcompat.Prelude.Int.{ℤ, pos}
use wslcompat.Internal.{
  Dupfd, Fds, relocate_internal, sys_close, close_shim, sys_dup3, dup_common, close_listed,
  close_range, Act, close_act, dup2_act, dup3_act, close_range_act, act, run_acts,
}
use wslcompat.Internal.Slots.{GivesFree, given_up, relocate_slots_accounts}

-- From `w` on, no more slots were emptied than calls of F_DUPFD have failed.
abbrev pub Accounted : Fds → Fds → Type 0
Accounted w w' = given_up w'.slots + w.failures ≤ given_up w.slots + w'.failures

module _ (dupfd : Dupfd) (free : GivesFree dupfd) where
  relocate_internal-Accounted : (fd : ℤ) (w : Fds) → Accounted w (relocate_internal dupfd fd w)
  unfolding relocate_internal
  relocate_internal-Accounted fd w =
      relocate_slots_accounts dupfd fd w.slots w.files w.failures free

  close_shim-Accounted : (fd : ℤ) (w : Fds) → Accounted w (close_shim dupfd fd w).1
  unfolding close_shim sys_close
  close_shim-Accounted fd w = ground (arith, relocate_internal-Accounted fd w)

  dup_common-Accounted :
      (m n : ℤ) (self : Bool) (w : Fds) → Accounted w (dup_common dupfd m n self w).1
  unfolding dup_common sys_dup3
  dup_common-Accounted m n self w = ground (arith, relocate_internal-Accounted n w)

  close_listed-Accounted :
      (first last : ℕ) (walk : List ℕ) (w : Fds)
      → Accounted w (close_listed dupfd first last walk w)
  unfolding close_listed
  close_listed-Accounted first last [] w = omega arith
  close_listed-Accounted first last (n ∷ ns) w = elim (Bool-cases (leb first n && leb n last)) [
    | inr e ↦ rw (e, close_listed) (close_listed-Accounted first last ns w)
    | inl y ↦
        let w' = (close_shim dupfd (pos n) w).1 in
        let rest = close_listed-Accounted first last ns w' in
        rw (y, close_listed) (omega (arith, close_shim-Accounted (pos n) w, rest))
  ]

  act-Accounted : (a : Act) (w : Fds) → Accounted w (act dupfd a w)
  unfolding act close_range
  act-Accounted (close_act n) w = close_shim-Accounted (pos n) w
  act-Accounted (dup2_act m n) w = dup_common-Accounted (pos m) (pos n) true w
  act-Accounted (dup3_act m n) w = dup_common-Accounted (pos m) (pos n) false w
  act-Accounted (close_range_act walk first last flags) w =
      ground (arith, close_listed-Accounted first last walk w)

  pub run_acts-Accounted : (acts : List Act) (w : Fds) → Accounted w (run_acts dupfd acts w)
  unfolding run_acts
  run_acts-Accounted [] w = omega arith
  run_acts-Accounted (a ∷ rest) w =
      omega (arith, act-Accounted a w, run_acts-Accounted rest (act dupfd a w))
