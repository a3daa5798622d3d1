-- ===== src/Exec/Argv/Laws.antt =====
-- The vector that `execve` builds is the one it means, and never overruns its array.
use wslcompat.Prelude.{
  ℕ, zero, suc, ◌+◌, ◌-◌, ◌≤◌, ◌<◌, ◌≡◌, refl, sym, ap, ◌∙◌, Bool, true, false, none, some, List,
  [], ◌∷◌, ◌++◌, arith, ltb, if◌then◌else◌, lt→ltb, length, set, replicate, length-snoc,
  append-cons,
}
use Prim.Native.String.{String}
use mathlib.Core.List.{append-nil}
use mathlib.Core.Option
use native.Mathlib.Decide.{dec_lt}
use wslcompat.Exec.Argv.{
  max_new_argv, Array, put, argv0_of, prefix, copy_loop, build_argv, argv_view,
}

-- An array with the strings `pre` in front and `k` null pointers behind.
abbrev filled : List String → ℕ → Array
filled [] k = replicate k none
filled (x ∷ pre) k = some x ∷ filled pre k

set-filled :
    (pre : List String) (k : ℕ) (y : String)
    → set (filled pre (suc k)) (length pre) (some y) ≡ filled (pre ++ y ∷ []) k
set-filled [] k y = refl
set-filled (x ∷ pre) k y = ap (λ l. some x ∷ l) (set-filled pre k y)

set-filled_replicate :
    (pre : List String) (k : ℕ) → set (filled pre (suc k)) (length pre) none ≡ filled pre (suc k)
set-filled_replicate [] k = refl
set-filled_replicate (x ∷ pre) k = ap (λ l. some x ∷ l) (set-filled_replicate pre k)

argv_view-filled : (pre : List String) (k : ℕ) → argv_view (filled pre k) ≡ pre
unfolding argv_view
argv_view-filled [] zero = refl
argv_view-filled [] (suc k) = refl
argv_view-filled (x ∷ pre) k = ap (λ l. x ∷ l) (argv_view-filled pre k)

-- The strings after the first.
abbrev pub rest_of : List String → List String
rest_of [] = []
rest_of (x ∷ xs) = xs

copy_loop-short :
    (argv pre : List String) (k : ℕ)
    → length pre + k ≡ max_new_argv
    → length argv < k
    → (arr : Array) × (copy_loop argv (filled pre k) (length pre) ≡ some arr)
      × (argv_view arr ≡ pre ++ rest_of argv)
unfolding copy_loop
copy_loop-short [] pre k e h = (filled pre k, refl, argv_view-filled pre k ∙ sym (append-nil pre))
copy_loop-short (x ∷ rest) pre zero e h = elim h [ ]
copy_loop-short (x ∷ []) pre (suc k) e h = (
  filled pre (suc k),
  rw (set-filled_replicate pre k) (ground arith),
  argv_view-filled pre (suc k) ∙ sym (append-nil pre),
)
copy_loop-short (x ∷ y ∷ r) pre (suc k) e h =
    let len = length-snoc pre y in
    let (arr, p, q) =
      copy_loop-short (y ∷ r) (pre ++ y ∷ []) k (omega (arith, len)) (omega arith) in
    (arr, ground (arith, set-filled pre k y, p, len), q ∙ append-cons pre y r)

copy_loop-long :
    (argv pre : List String) (k : ℕ)
    → length pre + k ≡ max_new_argv
    → k ≤ length argv
    → 0 < length argv
    → copy_loop argv (filled pre k) (length pre) ≡ none
unfolding copy_loop
copy_loop-long [] pre k e h n = elim n [ ]
copy_loop-long (x ∷ rest) pre zero e h n = ground arith
copy_loop-long (x ∷ []) pre (suc k) e h n = ground arith
copy_loop-long (x ∷ y ∷ r) pre (suc k) e h n =
    let len = length-snoc pre y in
    ground (
      arith,
      set-filled pre k y,
      len,
      copy_loop-long (y ∷ r) (pre ++ y ∷ []) k (omega (arith, len)) (omega arith) (omega arith),
    )

-- The loop from an array with `pre` in front and room for `k` more pointers.
copy_loop-filled :
    (argv pre : List String) (k : ℕ)
    → length pre + k ≡ max_new_argv
    → 0 < k
    → Option.map argv_view (copy_loop argv (filled pre k) (length pre))
      ≡ (if ltb (length argv) k then some (pre ++ rest_of argv) else none)
copy_loop-filled argv pre k e room = elim (dec_lt (length argv) k) [
  | yes h ↦ let (arr, p, q) = copy_loop-short argv pre k e h in rw (p, lt→ltb _ _ h) (ap some q)
  | no h ↦ let p = copy_loop-long argv pre k e (omega arith) (omega arith) in rw p (ground arith)
]

put-filled :
    (x : String) (pre : List String) (k : ℕ)
    → put x (filled pre (suc k), length pre) ≡ (filled (pre ++ x ∷ []) k, length (pre ++ x ∷ []))
unfolding put
put-filled x pre k = ground (arith, set-filled pre k x, length-snoc pre x)

-- The command line that runs `pathname` through the interpreter, up to the argument vector.
pub heads : (interp : String) (argv0 : Bool) (pathname : String) → List String → List String
unfolding argv0_of
heads interp true pathname argv = interp ∷ "--argv0" ∷ argv0_of pathname argv ∷ pathname ∷ []
heads interp false pathname argv = interp ∷ pathname ∷ []

length-heads :
    (interp : String) (argv0 : Bool) (pathname : String) (argv : List String)
    → length (heads interp argv0 pathname argv) ≡ (if argv0 then 4 else 2)
unfolding heads
length-heads interp true pathname argv = refl
length-heads interp false pathname argv = refl

prefix-heads :
    (interp : String) (argv0 : Bool) (pathname : String) (argv : List String)
    → prefix interp argv0 pathname argv ≡ (
      filled (heads interp argv0 pathname argv) (max_new_argv - (if argv0 then 4 else 2)),
      length (heads interp argv0 pathname argv),
    )
unfolding prefix put heads
prefix-heads interp true pathname argv = refl
prefix-heads interp false pathname argv = refl

-- What the kernel reads from the vector that `execve` builds for the interpreter: the interpreter,
-- with `--argv0` and argv[0] (or the path, when argv is empty) where that option is used, then the
-- path and the arguments after argv[0]. The vector is refused (E2BIG) exactly when these pointers,
-- the closing null included, need the whole array or more.
pub build_argv_lem :
    (interp : String) (argv0 : Bool) (pathname : String) (argv : List String)
    → Option.map argv_view (build_argv interp argv0 pathname argv) ≡ (
        if ltb ((if argv0 then 4 else 2) + length argv) max_new_argv
        then some (heads interp argv0 pathname argv ++ rest_of argv)
        else none)
unfolding build_argv
build_argv_lem interp argv0 pathname argv = rw (prefix-heads interp argv0 pathname argv) (
    copy_loop-filled argv (heads interp argv0 pathname argv) _
      (ground (arith, length-heads interp argv0 pathname argv)) (ground arith)
    ∙ ground arith)
