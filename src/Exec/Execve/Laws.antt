-- ===== src/Exec/Execve/Laws.antt =====
-- What every run of `execve` does.
use wslcompat.Prelude.{
  ℕ, ◌+◌, ◌≡◌, ap, ◌∙◌, true, false, ◌&&◌, Option, none, some, List, [], ◌∷◌, ◌++◌, arith, ltb,
  if◌then◌else◌, length, enoexec,
}
use Prim.Native.String.{String}
use mathlib.Core.Option
use wslcompat.Exec.Elf.{elf_needs_fixup}
use wslcompat.Exec.Argv.{max_new_argv, build_argv, argv_view}
use wslcompat.Exec.Argv.Laws.{heads, rest_of, build_argv_lem}
use wslcompat.Exec.Execve.{
  OpenFile, World, Event, save, restore, opened, closed, exec_call, replaced, failed, Trace,
  args_of, close_and_fail, re_exec, through_interp, mode_refused, with_file, on_enoexec, execve,
}

-- How often wraps are saved, and how often restored.
abbrev count : List Event → ℕ × ℕ
count [] = (0, 0)
count (save ∷ es) = ((count es).0 + 1, (count es).1)
count (restore ∷ es) = ((count es).0, (count es).1 + 1)
count (opened ∷ es) = count es
count (closed ∷ es) = count es
count (exec_call _ _ ∷ es) = count es

-- How often the file is opened, and how often closed.
abbrev open_count : List Event → ℕ × ℕ
open_count [] = (0, 0)
open_count (opened ∷ es) = ((open_count es).0 + 1, (open_count es).1)
open_count (closed ∷ es) = ((open_count es).0, (open_count es).1 + 1)
open_count (_ ∷ es) = open_count es

-- On failure: as many restores as saves, as many closes as opens.
abbrev pub IsClean : Trace → Type 0
IsClean (es, replaced _ _) = Unit {0}
IsClean (es, failed _) = ((count es).0 ≡ (count es).1) × ((open_count es).0 ≡ (open_count es).1)

-- When `execve` returns at all, it has restored the synthetic descriptors as often as it saved
-- them, and closed the file it looked at if it opened it.
pub execve-IsClean :
    (w : World) (pathname : String) (argv : Option (List String)) → IsClean (execve w pathname argv)
unfolding execve on_enoexec with_file through_interp re_exec close_and_fail
execve-IsClean w pathname argv = ground arith

-- The command line that `execve` hands to the interpreter.
abbrev pub command : World → String → List String → List String
command w pathname args =
    heads w.ptinterp (w.glibc_argv0 && w.argv0_tunable) pathname args ++ rest_of args

-- The end of a run that has reached the interpreter.
abbrev pub Retried : World → List String → Trace
Retried w args = elim (w.exec w.ptinterp args) [
  | none ↦ ([], replaced w.ptinterp args)
  | some errno ↦ (closed ∷ restore ∷ [], failed errno)
]

build_argv-some :
    (w : World) (pathname : String) (argv : List String)
    → ltb ((if w.glibc_argv0 && w.argv0_tunable then 4 else 2) + length argv) max_new_argv ≡ true
    → Option.map argv_view (build_argv w.ptinterp (w.glibc_argv0 && w.argv0_tunable) pathname argv)
      ≡ some (command w pathname argv)
build_argv-some w pathname argv h =
    build_argv_lem w.ptinterp (w.glibc_argv0 && w.argv0_tunable) pathname argv ∙ rw h

through_interp_lem :
    (w : World) (pathname : String) (argv : List String) (args : List String)
    → Option.map argv_view (build_argv w.ptinterp (w.glibc_argv0 && w.argv0_tunable) pathname argv)
      ≡ some args
    → through_interp w pathname argv
      ≡ (exec_call w.ptinterp args ∷ (Retried w args).0, (Retried w args).1)
unfolding through_interp re_exec close_and_fail
through_interp_lem w pathname argv args h = ground arith

-- The two events that every run begins with.
abbrev after_first : String → List String → Trace → Trace
after_first pathname args t = (save ∷ exec_call pathname args ∷ t.0, t.1)

execve-enoexec :
    (w : World) (pathname : String) (argv : Option (List String))
    → w.passthru ≡ false
    → w.exec pathname (args_of argv) ≡ some enoexec
    → execve w pathname argv
      ≡ after_first pathname (args_of argv) (on_enoexec w pathname (args_of argv))
unfolding execve
execve-enoexec w pathname argv p e = simp (p, e)

on_enoexec-opened :
    (w : World) (pathname : String) (args : List String) (f : OpenFile)
    → w.open_file pathname ≡ some f
    → on_enoexec w pathname args
      ≡ (opened ∷ (with_file w pathname args f).0, (with_file w pathname args f).1)
unfolding on_enoexec
on_enoexec-opened w pathname args f o = rw (o, on_enoexec)

with_file-retries :
    (w : World) (pathname : String) (args : List String) (f : OpenFile)
    → mode_refused f ≡ false
    → elf_needs_fixup f.elf ≡ true
    → with_file w pathname args f ≡ through_interp w pathname args
unfolding with_file
with_file-retries w pathname args f m n = simp (m, n, with_file)

with_file-refused :
    (w : World) (pathname : String) (args : List String) (f : OpenFile)
    → mode_refused f ≡ true
    → with_file w pathname args f ≡ (closed ∷ restore ∷ [], failed enoexec)
unfolding with_file close_and_fail
with_file-refused w pathname args f m = rw (m, with_file)

-- When the shim is enabled, the first `execve` fails with ENOEXEC, the file opens, is neither
-- setuid nor setgid, needs the fix, and the arguments fit, then exactly one more program is tried:
-- the interpreter with the command line `command`. If that fails too, its errno is returned after
-- the file is closed and the descriptors are restored.
pub execve_retries :
    (w : World) (pathname : String) (argv : Option (List String)) (f : OpenFile)
    → w.passthru ≡ false
    → w.exec pathname (args_of argv) ≡ some enoexec
    → w.open_file pathname ≡ some f
    → mode_refused f ≡ false
    → elf_needs_fixup f.elf ≡ true
    → ltb ((if w.glibc_argv0 && w.argv0_tunable then 4 else 2) + length (args_of argv)) max_new_argv
      ≡ true
    → execve w pathname argv ≡ (
      save
          ∷ exec_call pathname (args_of argv)
          ∷ opened
          ∷ exec_call w.ptinterp (command w pathname (args_of argv))
          ∷ (Retried w (command w pathname (args_of argv))).0,
      (Retried w (command w pathname (args_of argv))).1,
    )
execve_retries w pathname argv f p e o m n fits =
    let args = args_of argv in
    let t = through_interp_lem w pathname args _ (build_argv-some w pathname args fits) in
    execve-enoexec w pathname argv p e
    ∙ ap (after_first pathname args) (
        on_enoexec-opened w pathname args f o
        ∙ ap (λ (t : Trace). (opened ∷ t.0, t.1)) (with_file-retries w pathname args f m n ∙ t))

-- A setuid or setgid file, or one whose mode cannot be read, is never run through the interpreter:
-- after ENOEXEC the call fails with ENOEXEC, the file closed and the descriptors restored.
pub execve_refuses_setuid :
    (w : World) (pathname : String) (argv : Option (List String)) (f : OpenFile)
    → w.passthru ≡ false
    → w.exec pathname (args_of argv) ≡ some enoexec
    → w.open_file pathname ≡ some f
    → mode_refused f ≡ true
    → execve w pathname argv
      ≡ (save ∷ exec_call pathname (args_of argv) ∷ opened ∷ closed ∷ restore ∷ [], failed enoexec)
execve_refuses_setuid w pathname argv f p e o m =
    execve-enoexec w pathname argv p e
    ∙ ap (after_first pathname (args_of argv)) (
        on_enoexec-opened w pathname (args_of argv) f o
        ∙ ap (λ (t : Trace). (opened ∷ t.0, t.1)) (with_file-refused w pathname (args_of argv) f m))
