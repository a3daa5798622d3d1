-- ===== src/Internal/Tests.antt =====
-- The library has descriptor 5 for its file 50; the application works on 3 to 6.
use wslcompat.Prelude.{
  ◌≤◌, ℕ, zero, suc, ◌+◌, ◌≡◌, refl, sym, ap, ◌∙◌, inl, inr, Option, none, some, List, [], ◌∷◌,
  if◌then◌else◌, Option-cases, is_some,
}
use wslcompat.Prelude.Int.{ℤ, pos, minus_one, int_eq, is_neg}
use wslcompat.Internal.{
  Files, Dupfd, Fds, set_file, register_internal, sys_dupfd, relocate_slot, relocate_slots,
  relocate_internal, sys_close, close_shim, Act, close_act, dup2_act, close_range_act, run_acts,
}
use wslcompat.Internal.Slots.{GivesFree, given_up}
use wslcompat.Internal.Live.{IsKept, run_acts_keep}

-- The lowest free one from 3 on, of eight.
abbrev first_free : ℕ → ℕ → Files → Option ℤ
first_free zero n o = none
first_free (suc f) n o = if is_some (o (pos n)) then first_free f (n + 1) o else some (pos n)

abbrev dupfd : Dupfd
dupfd = first_free 8 3

first_free-GivesFree : (f n : ℕ) → GivesFree (first_free f n)
first_free-GivesFree zero n o d e = cc
first_free-GivesFree (suc f) n o d e = elim (Option-cases (o (pos n))) [
  | inl v ↦ let found : pos n ≡ d = cc (rw v at e) in (ap o (sym found) ∙ v, ap is_neg (sym found))
  | inr (g, v) ↦ first_free-GivesFree f (n + 1) o d (rw v at e)
]

abbrev files : Files
files x = if int_eq x (pos 5) then some 50 else if int_eq x (pos 4) then some 40 else none

abbrev start : Fds
start = record { slots = minus_one ∷ pos 5 ∷ []; files = files; failures = 0 }

start-IsKept : IsKept (0 ∷ 50 ∷ []) start
start-IsKept = (inl refl, (inr refl, tt))

abbrev session : List Act
session = close_act 5 ∷ dup2_act 4 3 ∷ close_range_act (3 ∷ 4 ∷ 6 ∷ []) 3 1000 0 ∷ []

run_acts_keep_example :
    let w' = run_acts dupfd session start in
    IsKept (0 ∷ 50 ∷ []) w' × (given_up w'.slots + 0 ≤ 1 + w'.failures)
run_acts_keep_example =
    run_acts_keep dupfd (0 ∷ 50 ∷ []) session start (first_free-GivesFree 8 3) start-IsKept

-- The library's descriptor moves to 3.
moved : (close_shim dupfd (pos 5) start).1.slots ≡ minus_one ∷ pos 3 ∷ []
unfolding close_shim relocate_internal relocate_slots relocate_slot sys_dupfd sys_close set_file
moved = refl

registered : (register_internal (pos 9) start).slots ≡ minus_one ∷ pos 5 ∷ pos 9 ∷ []
unfolding register_internal
registered = refl
