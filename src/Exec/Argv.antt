-- ===== src/Exec/Argv.antt =====
-- execve.c, `execve`: the argument vector for running a program through its interpreter. The
-- array is the fixed `new_argv[MAX_NEW_ARGV]`, where `none` is a null pointer.
pub mod Laws
use wslcompat.Prelude.{
  ℕ, zero, suc, ◌+◌, ◌-◌, ◌*◌, ◌/◌, ◌%◌, ◌^◌, ◌≤◌, ◌<◌, ◌≡◌, refl, sym, ap, ◌∙◌, ◌≢◌, ◌↔◌, ◌⊎◌, inl,
  inr, Bool, true, false, not, ◌&&◌, ◌||◌, Option, none, some, List, [], ◌∷◌, ◌++◌, map, arith, ltb,
  leb, ◌==◌, if◌then◌else◌, ltb→lt, lt→ltb, leb→le, ==_iff, ==_self, Bool-cases, Option-cases,
  length, get_elem?, get_or, set, take, drop, replicate, length-append, length-set,
  get_elem?-set_self, get_elem?-set_ne, length-replicate, length-map, Res, ret, fail, eperm, enoent,
  eintr, e2big, enoexec, ebadf, ewouldblock, enomem, efault, eexist, enodev, einval, enfile, enosys,
  enoprotoopt, eopnotsupp,
}
use Prim.Native.String.{String}

abbrev pub max_new_argv : ℕ
max_new_argv = 1024

abbrev pub Array : Type 0
Array = List (Option String)

-- argv[0], or NULL at the end
abbrev pub first? : List String → Option String
first? [] = none
first? (x ∷ xs) = some x

-- The writes `new_argv[pos++] = x` before the loop.
pub put : String → Array × ℕ → Array × ℕ
put x (arr, pos) = (set arr pos (some x), pos + 1)

pub argv0_of : String → List String → String
argv0_of pathname [] = pathname
argv0_of pathname (x ∷ xs) = x

pub prefix : (interp : String) (argv0 : Bool) (pathname : String) → List String → Array × ℕ
prefix interp argv0 pathname argv =
    let start = put interp (replicate max_new_argv none, 0) in
    put pathname (if argv0 then put (argv0_of pathname argv) (put "--argv0" start) else start)

-- `for (i = 0; argv[i];) new_argv[pos++] = argv[++i];` with the test for room in each round; `none`
-- is the way out by E2BIG. The list is what follows `argv[i]`, itself included.
pub copy_loop : List String → Array → ℕ → Option Array
copy_loop [] arr pos = some arr
copy_loop (x ∷ rest) arr pos =
    let more = copy_loop rest (set arr pos (first? rest)) (pos + 1) in
    if leb max_new_argv (pos + 1) then none else more

pub build_argv : (interp : String) (argv0 : Bool) (pathname : String) → List String → Option Array
build_argv interp argv0 pathname argv =
    let (arr, pos) = prefix interp argv0 pathname argv in copy_loop argv arr pos

-- What the kernel reads from the array: the strings up to the first null pointer.
pub argv_view : Array → List String
argv_view [] = []
argv_view (none ∷ xs) = []
argv_view (some x ∷ xs) = x ∷ argv_view xs
