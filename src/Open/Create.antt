-- ===== src/Open/Create.antt =====
-- openat with O_CREAT: the call with O_EXCL in front of the caller's call is not seen.
use wslcompat.Prelude.{
  ℕ, ◌≡◌, refl, sym, ap, ◌∙◌, ◌≢◌, inl, inr, Bool, true, false, not, ◌&&◌, none, some, [], arith,
  ◌==◌, if◌then◌else◌, ==_iff, Bool-cases, Res, ret, fail, eexist,
}
use wslcompat.Prelude.Int.{ℤ}
use wslcompat.Open.{
  FilePath, Flags, Kernel, World, Config, is_tmpfile, match_redirects, after_excl, open_path,
  or_open, on_state, open_named, mode_of, openat_with, openat,
}

module _ {S : Type 0} (K : Kernel S) (dirfd : ℤ) (path : FilePath) (flags : Flags) (mode : ℕ) where
  abbrev pub exclusive : S → Res ℤ × S
  exclusive s = K.openat dirfd path (record flags { excl = true }) mode s

  -- O_EXCL on a path that does or does not exist; a symbolic link exists wherever it leads.
  pub record ExclOf (present : Bool) (s : S) : Type 0 where
    pub there : present ≡ true → exclusive s ≡ (fail eexist, s)
    pub absent : present ≡ false → exclusive s ≡ K.openat dirfd path flags mode s
    pub absent_error : present ≡ false → (exclusive s).0 ≢ fail eexist

  -- The birth time of a file that a call has created.
  abbrev pub recorded : Res ℤ × S → Res ℤ × S
  recorded (ret fd, s) = (ret fd, K.record_btime fd s)
  recorded (fail e, s) = (fail e, s)

  -- What the kernel does, and the birth time where the call creates the path, which was absent.
  abbrev pub kernel_create : (present : Bool) → S → Res ℤ × S
  kernel_create present s =
      if flags.creat && not flags.o_path && not present
      then recorded (K.openat dirfd path flags mode s)
      else K.openat dirfd path flags mode s

  after_excl-new :
      (x : Res ℤ × S) → x.0 ≢ fail eexist → after_excl K dirfd path flags mode x ≡ recorded x
  unfolding after_excl
  after_excl-new (ret fd, s) h = refl
  after_excl-new (fail e, s) h = elim (Bool-cases (e == eexist)) [
    | inl y ↦ absurd (h (ap (λ n. fail n) ((==_iff e eexist).0 y)))
    | inr n ↦ rw n refl
  ]

  after_excl-old :
      (s : S)
      → exclusive s ≡ (fail eexist, s)
      → after_excl K dirfd path flags mode (fail eexist, s) ≡ K.openat dirfd path flags mode s
  unfolding after_excl
  after_excl-old s there = elim (Bool-cases flags.excl) [
    | inl y ↦ rw y (sym there)
    | inr n ↦ rw n refl
  ]

  open_path-create :
      (present : Bool) (s : S)
      → ExclOf present s
      → (flags.creat && not flags.o_path) ≡ true
      → after_excl K dirfd path flags mode (exclusive s) ≡ (
          if not present
          then recorded (K.openat dirfd path flags mode s)
          else K.openat dirfd path flags mode s)
  open_path-create true s h c =
      ap (after_excl K dirfd path flags mode) (h.there refl) ∙ after_excl-old s (h.there refl)
  open_path-create false s h c =
      after_excl-new (exclusive s) (h.absent_error refl) ∙ ap recorded (h.absent refl)

  open_path_lem :
      (present : Bool) (s : S)
      → ExclOf present s
      → open_path K dirfd path flags mode s ≡ kernel_create present s
  unfolding open_path
  open_path_lem present s h = ground (arith, open_path-create present s h)

open_named_lem :
    {S : Type 0} (K : Kernel S) (c : Config S) (dirfd : ℤ) (path : FilePath) (flags : Flags)
    (mode : ℕ) (present : Bool) (w : World S)
    → match_redirects K (if c.redirect then c.table else []) dirfd path flags mode w.state
      ≡ (none, w.state)
    → ExclOf K dirfd path flags mode present w.state
    → open_named K c dirfd path flags mode w
      ≡ on_state K c (kernel_create K dirfd path flags mode present) w
unfolding open_named or_open on_state
open_named_lem K c dirfd path flags mode present w none_match h =
    rw (none_match, or_open)
      (ap (λ (x : Res ℤ × _). (x.0, record w { state = x.1 }))
        (open_path_lem K dirfd path flags mode present w.state h))

-- With the shim in force, a path that no redirection takes, and flags without O_TMPFILE, openat
-- gives the result of the kernel's openat with the caller's flags, and leaves the kernel's state
-- behind it, plus the birth time where O_CREAT (without O_PATH) is set, the path was not there and
-- the call succeeds. O_EXCL is as open(2) says: EEXIST and no effect where the path is there, as a
-- file or as a symbolic link, and no difference where it is not, which is no EEXIST either. So a
-- file that is created through a dangling link, whose path is there, gets no birth time.
pub openat-create :
    {S : Type 0} (K : Kernel S) (c : Config S) (dirfd : ℤ) (path : FilePath) (flags : Flags)
    (mode : ℕ) (present : Bool) (w : World S)
    → c.passthru ≡ false
    → is_tmpfile flags ≡ false
    → match_redirects K
        (if c.redirect then c.table else [])
        dirfd
        path
        flags
        (mode_of K c flags mode)
        w.state
      ≡ (none, w.state)
    → ExclOf K dirfd path flags (mode_of K c flags mode) present w.state
    → openat K c dirfd (some path) flags mode w
      ≡ on_state K c (kernel_create K dirfd path flags (mode_of K c flags mode) present) w
unfolding openat openat_with
openat-create K c dirfd path flags mode present w on plain none_match h =
    ground
      (arith, open_named_lem K c dirfd path flags (mode_of K c flags mode) present w none_match h)
