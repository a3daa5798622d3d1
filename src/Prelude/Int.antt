-- ===== src/Prelude/Int.antt =====
-- C's signed `int` as an integer: descriptors, whose negative values mean "none", and offsets.
use Prim.Native.Nat.{ℕ, zero, suc, ◌+◌, ◌-◌}
use mathlib.Core.Path.{◌≡◌, refl}
use mathlib.Core.Logic.{◌↔◌}
use mathlib.Core.Bool.{Bool, true, false}
use mathlib.Core.List.{List, [], ◌∷◌}
use native.Mathlib.Omega.{arith}
use wslcompat.Prelude.Tests.{◌==◌, ltb, leb, if◌then◌else◌}

-- `negsuc n` is -(n + 1).
pub data ℤ : Type 0 where
  pos : ℕ → ℤ
  negsuc : ℕ → ℤ

abbrev pub minus_one : ℤ
minus_one = negsuc 0

abbrev pub int_eq : ℤ → ℤ → Bool
int_eq (pos a) (pos b) = a == b
int_eq (pos a) (negsuc b) = false
int_eq (negsuc a) (pos b) = false
int_eq (negsuc a) (negsuc b) = a == b

-- `fd < 0`
abbrev pub is_neg : ℤ → Bool
is_neg (pos _) = false
is_neg (negsuc _) = true

pub int_eq_iff : (a b : ℤ) → (int_eq a b ≡ true) ↔ (a ≡ b)
int_eq_iff (pos a) (pos b) = ground arith
int_eq_iff (pos a) (negsuc b) = ground arith
int_eq_iff (negsuc a) (pos b) = ground arith
int_eq_iff (negsuc a) (negsuc b) = ground arith

pub int_eq_self : (a : ℤ) → int_eq a a ≡ true
int_eq_self (pos a) = ground arith
int_eq_self (negsuc a) = ground arith

abbrev pub int_add : ℤ → ℤ → ℤ
int_add (pos a) (pos b) = pos (a + b)
int_add (pos a) (negsuc b) = if ltb b a then pos (a - b - 1) else negsuc (b - a)
int_add (negsuc a) (pos b) = if ltb a b then pos (b - a - 1) else negsuc (a - b)
int_add (negsuc a) (negsuc b) = negsuc (a + b + 1)

abbrev pub int_neg : ℤ → ℤ
int_neg (pos zero) = pos 0
int_neg (pos (suc n)) = negsuc n
int_neg (negsuc n) = pos (suc n)

abbrev pub int_leb : ℤ → ℤ → Bool
int_leb (pos a) (pos b) = leb a b
int_leb (pos a) (negsuc b) = false
int_leb (negsuc a) (pos b) = true
int_leb (negsuc a) (negsuc b) = leb b a

-- Without the first occurrence.
unfoldable pub drop_one : ℤ → List ℤ → List ℤ
drop_one fd [] = []
drop_one fd (x ∷ xs) = let rest = drop_one fd xs in if int_eq x fd then xs else x ∷ rest

pub drop_one_head : (x : ℤ) (xs : List ℤ) → drop_one x (x ∷ xs) ≡ xs
unfolding drop_one
drop_one_head x xs = rw (int_eq_self x) refl
