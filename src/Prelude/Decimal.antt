-- ===== src/Prelude/Decimal.antt =====
-- Decimal numbers in texts: what printf's %lu writes, and what strtoull and sscanf's %lu read.
use Prim.Native.Nat.{ℕ, zero, suc, ◌+◌, ◌-◌, ◌*◌, ◌/◌, ◌%◌, ◌^◌, ◌≤◌, ◌<◌}
use mathlib.Core.Path.{◌≡◌, refl, ap, ◌∙◌}
use mathlib.Core.Bool.{Bool, true, false, ◌&&◌, ◌||◌}
use mathlib.Core.List.{List, [], ◌∷◌, ◌++◌}
use native.Mathlib.Omega.{arith}
use mathlib.Core.Logic.{inl, inr}
use wslcompat.Prelude.Lists.{length}
use wslcompat.Prelude.Tests.{◌==◌, ltb, leb, if◌then◌else◌, Bool-cases}

abbrev pub is_digit : ℕ → Bool
is_digit c = leb 48 c && leb c 57

-- %lu; the fuel is more than the number.
unfoldable pub print_loop : (fuel n : ℕ) → List ℕ
print_loop zero n = []
print_loop (suc f) n =
    let front = print_loop f (n / 10) in
    if ltb n 10 then (48 + n) ∷ [] else front ++ (48 + n % 10) ∷ []

unfoldable pub decimal : ℕ → List ℕ
unfolding print_loop
decimal n = print_loop (suc n) n

-- The digits at the front, with the value of those before, and what follows them.
unfoldable pub read_digits : ℕ → List ℕ → ℕ × List ℕ
read_digits v [] = (v, [])
read_digits v (c ∷ cs) =
    let more = read_digits (v * 10 + (c - 48)) cs in if is_digit c then more else (v, c ∷ cs)

-- isspace
abbrev pub is_space : ℕ → Bool
is_space c = c == 32 || (leb 9 c && leb c 13)

unfoldable pub skip_spaces : List ℕ → List ℕ
skip_spaces [] = []
skip_spaces (c ∷ cs) = let more = skip_spaces cs in if is_space c then more else c ∷ cs

-- Does a digit stand first?
abbrev pub digit_first : List ℕ → Bool
digit_first [] = false
digit_first (c ∷ cs) = is_digit c

-- The sign in front, where '-' is true.
unfoldable pub read_sign : List ℕ → Bool × List ℕ
read_sign [] = (false, [])
read_sign (c ∷ cs) =
    if c == 45 then (true, cs) else if c == 43 then (false, cs) else (false, c ∷ cs)

-- Saturated at ULLONG_MAX, and negated modulo 2^64 after a '-'.
unfoldable pub to_ull : Bool → ℕ → ℕ
to_ull neg v = if leb (2 ^ 64) v then 2 ^ 64 - 1 else if neg then (2 ^ 64 - v) % 2 ^ 64 else v

-- strtoull(s, &end, 10): the value and the end. Without a digit, 0 and all of `s`.
unfoldable pub strtoull : List ℕ → ℕ × List ℕ
strtoull s =
    let (neg, t) = read_sign (skip_spaces s) in
    if digit_first t then (let (v, rest) = read_digits 0 t in (to_ull neg v, rest)) else (0, s)

-- The value of digits behind a value.
unfoldable pub value : ℕ → List ℕ → ℕ
value v [] = v
value v (c ∷ cs) = value (v * 10 + (c - 48)) cs

unfoldable pub AllDigits : List ℕ → Type 0
AllDigits [] = Unit {0}
AllDigits (c ∷ cs) = (is_digit c ≡ true) × AllDigits cs

pub value-snoc : (v : ℕ) (xs : List ℕ) (d : ℕ) → value v (xs ++ d ∷ []) ≡ value v xs * 10 + (d - 48)
unfolding value
value-snoc v [] d = refl
value-snoc v (x ∷ xs) d = value-snoc (v * 10 + (x - 48)) xs d

pub AllDigits-snoc :
    (xs : List ℕ) (d : ℕ) → AllDigits xs → is_digit d ≡ true → AllDigits (xs ++ d ∷ [])
unfolding AllDigits
AllDigits-snoc [] d h e = (e, tt)
AllDigits-snoc (x ∷ xs) d h e = (h.0, AllDigits-snoc xs d h.1 e)

pub read_digits-value :
    (v : ℕ) (xs r : List ℕ)
    → AllDigits xs
    → digit_first r ≡ false
    → read_digits v (xs ++ r) ≡ (value v xs, r)
unfolding read_digits value AllDigits
read_digits-value v [] [] h e = refl
read_digits-value v [] (c ∷ cs) h e = rw e refl
read_digits-value v (x ∷ xs) r h e = rw (h.0) (read_digits-value (v * 10 + (x - 48)) xs r h.1 e)

-- What print_loop writes.
record Printed (n : ℕ) (xs : List ℕ) : Type 0 where
  digits : AllDigits xs
  first : digit_first xs ≡ true
  worth : value 0 xs ≡ n

pub digit_first-append : (xs ys : List ℕ) → digit_first xs ≡ true → digit_first (xs ++ ys) ≡ true
digit_first-append [] ys h = cc
digit_first-append (x ∷ xs) ys h = h

print_loop-Printed : (f n : ℕ) → n < f → Printed n (print_loop f n)
unfolding print_loop value AllDigits
print_loop-Printed zero n h = elim h [ ]
print_loop-Printed (suc f) n h = elim (Bool-cases (ltb n 10)) [
  | inl small ↦
      let d : is_digit (48 + n) ≡ true = ground arith in
      rw (small, print_loop) (record { digits = (d, tt); first = d; worth = omega arith })
  | inr large ↦
      let front = print_loop-Printed f (n / 10) (ground arith) in
      let d : is_digit (48 + n % 10) ≡ true = ground arith in
      let sum : n / 10 * 10 + (48 + n % 10 - 48) ≡ n = omega arith in
      rw (large, print_loop)
        (record {
          digits = AllDigits-snoc _ _ front.digits d;
          first = digit_first-append (print_loop f (n / 10)) ((48 + n % 10) ∷ []) front.first;
          worth =
              value-snoc 0 (print_loop f (n / 10)) (48 + n % 10)
              ∙ ap (λ v. v * 10 + (48 + n % 10 - 48)) front.worth
              ∙ sum;
        })
]

decimal-Printed : (n : ℕ) → Printed n (decimal n)
unfolding decimal
decimal-Printed n = print_loop-Printed (suc n) n (omega arith)

pub digit_first-decimal : (n : ℕ) (r : List ℕ) → digit_first (decimal n ++ r) ≡ true
digit_first-decimal n r = digit_first-append (decimal n) r (decimal-Printed n).first

-- Reading back what was printed.
pub read_digits-decimal :
    (n : ℕ) (r : List ℕ) → digit_first r ≡ false → read_digits 0 (decimal n ++ r) ≡ (n, r)
read_digits-decimal n r h =
    let p = decimal-Printed n in
    read_digits-value 0 (decimal n) r p.digits h ∙ ap (λ v. (v, r)) p.worth

-- A text that begins with a digit has neither space nor sign there.
pub digit_sign : (t : List ℕ) → digit_first t ≡ true → read_sign (skip_spaces t) ≡ (false, t)
unfolding read_sign skip_spaces
digit_sign [] h = cc
digit_sign (c ∷ cs) h =
    let space : is_space c ≡ false = ground arith in
    let minus : (c == 45) ≡ false = ground arith in
    let plus : (c == 43) ≡ false = ground arith in rw (space, minus, plus) refl

-- A number that fits, with or without a space in front.
pub strtoull-decimal :
    (n : ℕ) (r : List ℕ)
    → digit_first r ≡ false
    → n < 2 ^ 64
    → (strtoull (decimal n ++ r) ≡ (n, r)) × (strtoull (32 ∷ decimal n ++ r) ≡ (n, r))
unfolding strtoull to_ull skip_spaces
strtoull-decimal n r h s =
    let d = digit_first-decimal n r in
    let fits : leb (2 ^ 64) n ≡ false = ground arith in
    let sign = digit_sign (decimal n ++ r) d in
    (
      rw (sign, d, read_digits-decimal n r h, fits) refl,
      rw (sign, d, read_digits-decimal n r h, fits) refl,
    )

-- A signed number, as printf's %ld writes it.
abbrev pub signed : Bool → ℕ → List ℕ
signed true n = 45 ∷ decimal n
signed false n = decimal n

-- The end behind a signed number and a space in front of it, whatever its size.
pub strtoull-end :
    (neg : Bool) (n : ℕ) (r : List ℕ)
    → digit_first r ≡ false
    → strtoull (32 ∷ signed neg n ++ r) ≡ (to_ull neg n, r)
unfolding strtoull skip_spaces read_sign
strtoull-end true n r h = let d = digit_first-decimal n r in rw (d, read_digits-decimal n r h) refl
strtoull-end false n r h =
    let d = digit_first-decimal n r in
    rw (digit_sign (decimal n ++ r) d, d, read_digits-decimal n r h) refl

-- The same without a space.
pub strtoull-signed :
    (neg : Bool) (n : ℕ) (r : List ℕ)
    → digit_first r ≡ false
    → strtoull (signed neg n ++ r) ≡ (to_ull neg n, r)
unfolding strtoull skip_spaces read_sign
strtoull-signed true n r h =
    let d = digit_first-decimal n r in rw (d, read_digits-decimal n r h) refl
strtoull-signed false n r h =
    let d = digit_first-decimal n r in
    rw (digit_sign (decimal n ++ r) d, d, read_digits-decimal n r h) refl

-- No byte of the text is `c`.
abbrev pub HasNone : ℕ → List ℕ → Type 0
HasNone c [] = Unit {0}
HasNone c (x ∷ xs) = ((x == c) ≡ false) × HasNone c xs

pub HasNone-append : (c : ℕ) (xs ys : List ℕ) → HasNone c xs → HasNone c ys → HasNone c (xs ++ ys)
HasNone-append c [] ys h k = k
HasNone-append c (x ∷ xs) ys h k = (h.0, HasNone-append c xs ys h.1 k)

AllDigits-HasNone : (c : ℕ) (xs : List ℕ) → is_digit c ≡ false → AllDigits xs → HasNone c xs
unfolding AllDigits
AllDigits-HasNone c [] e h = tt
AllDigits-HasNone c (x ∷ xs) e h = (ground (arith, h.0), AllDigits-HasNone c xs e h.1)

pub decimal-HasNone : (c n : ℕ) → is_digit c ≡ false → HasNone c (decimal n)
decimal-HasNone c n e = AllDigits-HasNone c (decimal n) e (decimal-Printed n).digits

skip_spaces-le : (s : List ℕ) → length (skip_spaces s) ≤ length s
unfolding skip_spaces
skip_spaces-le [] = omega arith
skip_spaces-le (c ∷ cs) = ground (arith, skip_spaces-le cs)

read_sign-le : (s : List ℕ) → length (read_sign s).1 ≤ length s
unfolding read_sign
read_sign-le [] = omega arith
read_sign-le (c ∷ cs) = ground arith

read_digits-le : (v : ℕ) (s : List ℕ) → length (read_digits v s).1 ≤ length s
unfolding read_digits
read_digits-le v [] = omega arith
read_digits-le v (c ∷ cs) = ground (arith, read_digits-le (v * 10 + (c - 48)) cs)

-- The end is in the text.
pub strtoull-le : (s : List ℕ) → length (strtoull s).1 ≤ length s
unfolding strtoull
strtoull-le s =
    let t = (read_sign (skip_spaces s)).1 in
    ground (arith, skip_spaces-le s, read_sign-le (skip_spaces s), read_digits-le 0 t)
