-- ===== src/Exec/Execve.antt =====
-- execve.c, `execve`: the retry through the interpreter, as a trace of its calls. The kernel, the
-- file and the tunables are the parameter `World`; `wslcompat_synth_preexec_save` and its restore
-- are steps of the trace, and are modelled in Synth.
pub mod Laws
use wslcompat.Prelude.{
  ℕ, zero, suc, ◌+◌, ◌-◌, ◌*◌, ◌/◌, ◌%◌, ◌^◌, ◌≤◌, ◌<◌, ◌≡◌, refl, sym, ap, ◌∙◌, ◌≢◌, ◌↔◌, ◌⊎◌, inl,
  inr, Bool, true, false, not, ◌&&◌, ◌||◌, Option, none, some, List, [], ◌∷◌, ◌++◌, map, arith, ltb,
  leb, ◌==◌, if◌then◌else◌, ltb→lt, lt→ltb, leb→le, ==_iff, ==_self, Bool-cases, Option-cases,
  length, get_elem?, get_or, set, take, drop, replicate, length-append, length-set,
  get_elem?-set_self, get_elem?-set_ne, length-replicate, length-map, Res, ret, fail, eperm, enoent,
  eintr, e2big, enoexec, ebadf, ewouldblock, enomem, efault, eexist, enodev, einval, enfile, enosys,
  enoprotoopt, eopnotsupp,
}
use Prim.Native.String.{String}
use wslcompat.Exec.Elf.{ElfFile, elf_needs_fixup}
use wslcompat.Exec.Argv.{Array, build_argv, argv_view}

-- What `open` gives: `fstat`'s st_mode (or its failure), and the contents that `pread` reads.
pub record OpenFile : Type 0 where
  pub mode : Option ℕ
  pub elf : ElfFile

-- `exec` is the next `execve`: `none` if it does not return, else the errno.
pub record World : Type 0 where
  pub passthru : Bool
  pub exec : String → List String → Option ℕ
  pub open_file : String → Option OpenFile
  pub ptinterp : String
  pub glibc_argv0 : Bool  -- strverscmp(gnu_get_libc_version(), "2.33") >= 0
  pub argv0_tunable : Bool

pub data Event : Type 0 where
  save restore opened closed : Event
  exec_call : String → List String → Event

-- The process is replaced, or -1 is returned with an errno.
pub data Exit : Type 0 where
  replaced : String → List String → Exit
  failed : ℕ → Exit

abbrev pub Trace : Type 0
Trace = List Event × Exit

infixr 60 ◌then◌
abbrev pub ◌then◌ : Event → Trace → Trace
e then (es, x) = (e ∷ es, x)

-- st_mode & (S_ISUID | S_ISGID)
unfoldable pub setuid_or_setgid : ℕ → Bool
setuid_or_setgid mode = not (mode / 2048 % 2 == 0) || not (mode / 1024 % 2 == 0)

-- An argv of NULL is taken for an empty one.
abbrev pub args_of : Option (List String) → List String
args_of none = []
args_of (some argv) = argv

-- The end of `fail:` with the file open.
pub close_and_fail : ℕ → Trace
close_and_fail errno = (closed ∷ restore ∷ [], failed errno)

pub re_exec : World → Array → Trace
re_exec w arr = exec_call w.ptinterp (argv_view arr) then elim (w.exec w.ptinterp (argv_view arr)) [
  | none ↦ ([], replaced w.ptinterp (argv_view arr))
  | some errno ↦ close_and_fail errno
]

pub through_interp : World → String → List String → Trace
through_interp w pathname argv =
    elim (build_argv w.ptinterp (w.glibc_argv0 && w.argv0_tunable) pathname argv) [
      | none ↦ close_and_fail e2big
      | some arr ↦ re_exec w arr
    ]

unfoldable pub mode_refused : OpenFile → Bool
mode_refused f = elim f.mode [ none ↦ true | some m ↦ setuid_or_setgid m ]

pub with_file : World → String → List String → OpenFile → Trace
with_file w pathname argv f =
    if mode_refused f
    then close_and_fail enoexec
    else if not (elf_needs_fixup f.elf)
    then close_and_fail enoexec
    else through_interp w pathname argv

pub on_enoexec : World → String → List String → Trace
on_enoexec w pathname argv = elim (w.open_file pathname) [
  | none ↦ (restore ∷ [], failed enoexec)
  | some f ↦ opened then with_file w pathname argv f
]

pub execve : World → String → Option (List String) → Trace
execve w pathname argv =
    let first = w.exec pathname (args_of argv) in
    let tried = λ (k : ℕ → Trace).
      exec_call pathname (args_of argv)
      then elim first [ none ↦ ([], replaced pathname (args_of argv)) | some errno ↦ k errno ] in
    if w.passthru
    then tried (λ errno. ([], failed errno))
    else save
      then tried (λ errno.
        if errno == enoexec
        then on_enoexec w pathname (args_of argv)
        else (restore ∷ [], failed errno))
