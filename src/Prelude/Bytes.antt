-- ===== src/Prelude/Bytes.antt =====
-- Texts as lists of bytes, without the terminating NUL of C.
use Prim.Native.Nat.{ℕ}
use Prim.Native.Char.{code}
use Prim.Native.String.{String}
use mathlib.Core.Path.{◌≡◌, refl}
use mathlib.Core.Logic.{◌↔◌}
use mathlib.Core.Bool.{Bool, true, false, ◌&&◌}
use mathlib.Core.List.{List, [], ◌∷◌}
use native.Mathlib.Omega.{arith}
use wslcompat.Prelude.Tests.{◌==◌}

abbrev pub codes : String → List ℕ
codes String.[] = []
codes (String.◌∷◌ c s) = code c ∷ codes s

-- strcmp(a, b) == 0
unfoldable pub text_eq : List ℕ → List ℕ → Bool
text_eq [] [] = true
text_eq [] (b ∷ bs) = false
text_eq (a ∷ as') [] = false
text_eq (a ∷ as') (b ∷ bs) = (a == b) && text_eq as' bs

pub text_eq_iff : (a b : List ℕ) → (text_eq a b ≡ true) ↔ (a ≡ b)
unfolding text_eq
text_eq_iff [] [] = ground arith
text_eq_iff [] (b ∷ bs) = ground arith
text_eq_iff (a ∷ as') [] = ground arith
text_eq_iff (a ∷ as') (b ∷ bs) = ground (arith, text_eq_iff as' bs)

pub text_eq_self : (a : List ℕ) → text_eq a a ≡ true
unfolding text_eq
text_eq_self [] = refl
text_eq_self (a ∷ as') = ground (arith, text_eq_self as')
