-- ===== src/Poll/Select/Tests.antt =====
-- Two synthetic descriptors that share a real one, and the theorems of this part at them.
use wslcompat.Prelude.{
  ℕ, zero, suc, ◌≡◌, refl, inl, inr, false, ◌&&◌, ◌||◌, arith, ◌==◌, if◌then◌else◌, Bool-cases,
}
use wslcompat.Prelude.Int.{ℤ, pos, negsuc, minus_one}
use wslcompat.Poll.Swap.{translate}
use wslcompat.Poll.Select.{Sets, sel_swap_in, sel_unwind}
use wslcompat.Poll.Select.Unwind.{RealBacking}
use wslcompat.Poll.Select.Answers.{stand_in, sel_unwind-answer}

-- Descriptors 5 and 6 are backed by 12.
abbrev backing : ℤ → ℤ
backing (pos x) = if (x == 5) || (x == 6) then pos 12 else minus_one
backing (negsuc x) = minus_one

backing-RealBacking : RealBacking backing
unfolding translate
backing-RealBacking x r e = elim (Bool-cases ((x == 5) || (x == 6))) [
  | inl y ↦ let is12 : r ≡ 12 = ground arith in rw is12 refl
  | inr n ↦ ground arith
]

-- Both are watched for reading, and 6 for writing.
abbrev sets : Sets
sets zero x = (x == 5) || (x == 6)
sets (suc zero) x = x == 6
sets (suc (suc d)) x = false

-- The kernel leaves nothing for writing.
abbrev out : Sets
out zero x = (sel_swap_in backing 7 sets).sets 0 x
out (suc d) x = false

out-within : (x : ℕ) → (sel_swap_in backing 7 sets).sets 1 x ≡ false → out 1 x ≡ false
out-within x h = refl

sel_unwind-answer_example :
    sel_unwind (sel_swap_in backing 7 sets).swaps out 1 6
    ≡ (sets 1 6 && out 1 (stand_in (sel_swap_in backing 7 sets).swaps 1 6))
sel_unwind-answer_example = sel_unwind-answer backing backing-RealBacking out 7 sets 1 6 out-within
