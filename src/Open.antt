-- ===== src/Open.antt =====
-- open.c: openat, with O_TMPFILE, the redirection of paths, and the birth time that is recorded
-- for a new file; open, creat and the checked variants. `S` is the state of the kernel, and a path
-- is the text that the caller passes.
pub mod Create
pub mod Tmpfile
mod Tests
use wslcompat.Prelude.{
  ℕ, zero, suc, ◌+◌, ◌-◌, ◌*◌, ◌/◌, ◌%◌, ◌^◌, ◌≤◌, ◌<◌, ◌≡◌, refl, sym, ap, ◌∙◌, ◌≢◌, ◌↔◌, ◌⊎◌, inl,
  inr, Bool, true, false, not, ◌&&◌, ◌||◌, Option, none, some, List, [], ◌∷◌, ◌++◌, map, arith, ltb,
  leb, ◌==◌, if◌then◌else◌, ltb→lt, lt→ltb, leb→le, ==_iff, ==_self, Bool-cases, Option-cases,
  length, get_elem?, get_or, set, take, take_all, drop, replicate, length-append, length-set,
  get_elem?-set_self, get_elem?-set_ne, length-replicate, length-map, length-snoc, append-cons,
  is_some, Res, ret, fail, eperm, enoent, eintr, e2big, enoexec, ebadf, ewouldblock, enomem, efault,
  eexist, enodev, einval, enfile, enosys, enoprotoopt, eopnotsupp,
}
use wslcompat.Prelude.Int.{
  drop_one, ℤ, pos, negsuc, minus_one, int_eq, is_neg, int_eq_iff, int_eq_self,
}
use wslcompat.Prelude.Bytes.{text_eq}

abbrev pub FilePath : Type 0
FilePath = List ℕ

-- The flags that the shim reads; O_TMPFILE is the bit of its own and O_DIRECTORY.
pub record Flags : Type 0 where
  pub creat : Bool
  pub excl : Bool
  pub o_path : Bool
  pub tmp_bit : Bool
  pub directory : Bool
  pub others : ℕ

abbrev pub is_tmpfile : Flags → Bool
is_tmpfile f = f.tmp_bit && f.directory

-- The system calls, each with its effect.
pub record Kernel (S : Type 0) : Type 0 where
  pub openat : ℤ → FilePath → Flags → (mode : ℕ) → S → Res ℤ × S
  pub openat_null : ℤ → Flags → (mode : ℕ) → S → Res ℤ × S  -- a NULL path
  pub getrandom : S → Res ℕ × S  -- eight bytes, or a failure
  pub record_btime : ℤ → S → S  -- clock_gettime and fsetxattr of record_btime_now
  pub unlinkat : ℤ → FilePath → S → Res ℕ × S
  pub close : ℤ → S → S

-- One line of the dispatch table: its pattern under fnmatch, and its handler, none where it
-- declines.
pub record Redirect (S : Type 0) : Type 0 where
  pub pattern : FilePath → Bool
  pub fn : ℤ → FilePath → Flags → (mode : ℕ) → S → Option (Res ℤ) × S

-- `held` are the descriptors that the shim has opened, and `names` the files that it has created
-- and that still have their name, each as its directory's descriptor and its name there.
pub record World (S : Type 0) : Type 0 where
  pub state : S
  pub held : List ℤ
  pub names : List (ℤ × FilePath)

abbrev pub at_fdcwd : ℤ
at_fdcwd = negsuc 99

-- O_PATH | O_DIRECTORY | O_CLOEXEC
abbrev pub dir_flags : Flags
dir_flags = record {
  creat = false;
  excl = false;
  o_path = true;
  tmp_bit = false;
  directory = true;
  others = 0x80000;
}

-- (flags & ~O_TMPFILE) | O_CREAT | O_EXCL
unfoldable pub tmp_flags : Flags → Flags
tmp_flags f = record f { creat = true; excl = true; tmp_bit = false; directory = false }

-- The names without that one.
unfoldable pub forget_name : ℤ → FilePath → List (ℤ × FilePath) → List (ℤ × FilePath)
forget_name dir name [] = []
forget_name dir name ((d, n) ∷ ns) =
    let rest = forget_name dir name ns in
    if int_eq d dir && text_eq n name then ns else (d, n) ∷ rest

module _ {S : Type 0} (K : Kernel S) where
  unfoldable pub close_fd : ℤ → World S → World S
  close_fd fd w = record w { state = K.close fd w.state; held = drop_one fd w.held }

  -- unlinkat of a name in a directory, whose result is not read. Where it succeeds, that name is
  -- gone.
  unfoldable pub unlink : ℤ → FilePath → World S → World S
  unlink dirfd name w =
      let (r, s) = K.unlinkat dirfd name w.state in
      elim r [
        | fail e ↦ record w { state = s }
        | ret n ↦ record w { state = s; names = forget_name dirfd name w.names }
      ]

  unfoldable pub create_tmp : ℤ → FilePath → Flags → (mode : ℕ) → World S → Res ℤ × World S
  create_tmp realdir name flags mode w =
      let (r, s) = K.openat realdir name (tmp_flags flags) mode w.state in
      elim r [
        | fail e ↦ (fail e, record w { state = s })
        | ret fd ↦
            let created : World S = record w {
              state = s;
              held = fd ∷ w.held;
              names = (realdir, name) ∷ w.names;
            } in
            (ret fd, unlink realdir name (record created { state = K.record_btime fd s }))
      ]

  -- `temp_name` is the snprintf of the random number.
  unfoldable pub random_tmp : (ℕ → FilePath) → ℤ → Flags → (mode : ℕ) → World S → Res ℤ × World S
  random_tmp temp_name realdir flags mode w =
      let (r, s) = K.getrandom w.state in
      elim r [
        | fail e ↦ (fail e, record w { state = s })
        | ret n ↦ create_tmp realdir (temp_name n) flags mode (record w { state = s })
      ]

  unfoldable pub handle_tmpfile_at :
      (ℕ → FilePath) → ℤ → FilePath → Flags → (mode : ℕ) → World S → Res ℤ × World S
  handle_tmpfile_at temp_name dirfd path flags mode w =
      let (r, s) = K.openat dirfd path dir_flags 0 w.state in
      elim r [
        | fail e ↦ (fail e, record w { state = s })
        | ret realdir ↦
            let (r', w') =
              random_tmp temp_name realdir flags mode
                (record w { state = s; held = realdir ∷ w.held }) in
            (r', close_fd realdir w')
      ]

  -- match_redirects_table, where the tunable allows it.
  unfoldable pub match_redirects :
      List (Redirect S) → ℤ → FilePath → Flags → (mode : ℕ) → S → Option (Res ℤ) × S
  match_redirects [] dirfd path flags mode s = (none, s)
  match_redirects (r ∷ rs) dirfd path flags mode s = elim (r.pattern path) [
    | false ↦ match_redirects rs dirfd path flags mode s
    | true ↦
        let (o, s') = r.fn dirfd path flags mode s in
        elim o [ some fd ↦ (some fd, s') | none ↦ match_redirects rs dirfd path flags mode s' ]
  ]

  -- What follows the call with O_EXCL.
  unfoldable pub after_excl : ℤ → FilePath → Flags → (mode : ℕ) → Res ℤ × S → Res ℤ × S
  after_excl dirfd path flags mode (ret fd, s) = (ret fd, K.record_btime fd s)
  after_excl dirfd path flags mode (fail e, s) =
      if not (e == eexist) || flags.excl then (fail e, s) else K.openat dirfd path flags mode s

  unfoldable pub open_path : ℤ → FilePath → Flags → (mode : ℕ) → S → Res ℤ × S
  open_path dirfd path flags mode s =
      if not flags.creat || flags.o_path
      then K.openat dirfd path flags mode s
      else after_excl dirfd path flags mode
          (K.openat dirfd path (record flags { excl = true }) mode s)

  unfoldable pub or_open : ℤ → FilePath → Flags → (mode : ℕ) → Option (Res ℤ) × S → Res ℤ × S
  or_open dirfd path flags mode (some r, s) = (r, s)
  or_open dirfd path flags mode (none, s) = open_path dirfd path flags mode s

-- What the process has set: the switch of the shim, the tunable and the table.
pub record Config (S : Type 0) : Type 0 where
  pub passthru : Bool
  pub redirect : Bool
  pub table : List (Redirect S)
  pub temp_name : ℕ → FilePath

module _ {S : Type 0} (K : Kernel S) (c : Config S) where
  -- The call's effect on the kernel's state alone.
  unfoldable pub on_state : (S → Res ℤ × S) → World S → Res ℤ × World S
  on_state f w = let (r, s) = f w.state in (r, record w { state = s })

  unfoldable pub open_named : ℤ → FilePath → Flags → (mode : ℕ) → World S → Res ℤ × World S
  open_named dirfd path flags mode w =
      on_state
        (λ s.
          or_open K dirfd path flags mode
            (match_redirects K (if c.redirect then c.table else []) dirfd path flags mode s))
        w

  -- The mode is read only where the flags ask for one.
  unfoldable pub mode_of : Flags → ℕ → ℕ
  mode_of flags mode = if flags.creat || is_tmpfile flags then mode else 0

  -- A NULL path with O_TMPFILE goes to the kernel's openat of the directory, which fails as it
  -- does.
  unfoldable pub openat_with : ℤ → Option FilePath → Flags → (mode : ℕ) → World S → Res ℤ × World S
  openat_with dirfd none flags mode w =
      if not c.passthru && is_tmpfile flags && not flags.o_path
      then on_state (K.openat_null dirfd dir_flags 0) w
      else on_state (K.openat_null dirfd flags mode) w
  openat_with dirfd (some path) flags mode w =
      if c.passthru
      then on_state (K.openat dirfd path flags mode) w
      else if is_tmpfile flags && not flags.o_path
      then handle_tmpfile_at K c.temp_name dirfd path flags mode w
      else open_named dirfd path flags mode w

  unfoldable pub openat : ℤ → Option FilePath → Flags → (mode : ℕ) → World S → Res ℤ × World S
  openat dirfd path flags mode w = openat_with dirfd path flags (mode_of flags mode) w

  unfoldable pub open_shim : Option FilePath → Flags → (mode : ℕ) → World S → Res ℤ × World S
  open_shim path flags mode w = openat at_fdcwd path flags (mode_of flags mode) w

  -- __openat_2: a call without a mode, where one is needed, ends the process: none.
  unfoldable pub openat_2 : ℤ → Option FilePath → Flags → World S → Option (Res ℤ × World S)
  openat_2 dirfd path flags w =
      if flags.creat || is_tmpfile flags then none else some (openat dirfd path flags 0 w)

  -- O_CREAT | O_WRONLY | O_TRUNC
  unfoldable pub creat_shim : Option FilePath → (mode : ℕ) → World S → Res ℤ × World S
  creat_shim path mode w =
      open_shim path
        (record {
          creat = true;
          excl = false;
          o_path = false;
          tmp_bit = false;
          directory = false;
          others = 0x201;
        })
        mode w
