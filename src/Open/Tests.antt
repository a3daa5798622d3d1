-- ===== src/Open/Tests.antt =====
-- A directory in which the state is the list of the names that exist.
use wslcompat.Prelude.{
  ◌+◌, ◌≡◌, refl, ap, Bool, true, false, ◌&&◌, none, some, [], ◌∷◌, arith, if◌then◌else◌, Res, ret,
  fail, enoent, efault, eexist,
}
use wslcompat.Prelude.Int.{ℤ, pos, negsuc, int_eq}
use wslcompat.Open.{
  Flags, Kernel, World, Config, match_redirects, handle_tmpfile_at, on_state, mode_of, openat,
  open_shim, openat_2, creat_shim, openat_with, open_named, or_open, open_path, after_excl,
  at_fdcwd,
}
use wslcompat.Open.Create.{openat-create, kernel_create, ExclOf}
use wslcompat.Open.Tmpfile.{handle_tmpfile_at_lem, held_after}

-- The state: is the file there, and has its birth been recorded?
abbrev Disk : Type 0
Disk = Bool × Bool

abbrev open_file : Flags → Bool → Bool → Res ℤ × Disk
open_file f true b =
    if f.creat && f.excl then (fail eexist, (true, b)) else (ret (pos 7), (true, b))
open_file f false b = if f.creat then (ret (pos 7), (true, b)) else (fail enoent, (false, b))

abbrev kernel : Kernel Disk
kernel = record {
  openat = λ dirfd path f mode s. open_file f s.0 s.1;
  openat_null = λ dirfd f mode s. (fail efault, s);
  getrandom = λ s. (ret 5, s);
  record_btime = λ fd s. (s.0, true);
  unlinkat = λ dirfd path s. (ret 0, (false, s.1));
  close = λ fd s. s;
}

abbrev config : Config Disk
config = record { passthru = false; redirect = true; table = []; temp_name = λ r. r ∷ [] }

abbrev creating : Flags
creating = record {
  creat = true;
  excl = false;
  o_path = false;
  tmp_bit = false;
  directory = false;
  others = 0x201;
}

abbrev at_disk : Disk → World Disk
at_disk d = record { state = d; held = []; names = [] }

new_file : ExclOf kernel at_fdcwd (b'f' ∷ []) creating 0o644 false (false, false)
new_file = record { there = λ e. cc; absent = λ e. refl; absent_error = λ e p. cc }

old_file : ExclOf kernel at_fdcwd (b'f' ∷ []) creating 0o644 true (true, false)
old_file = record { there = λ e. refl; absent = λ e. cc; absent_error = λ e. cc }

openat-create_example :
    openat kernel config at_fdcwd (some (b'f' ∷ [])) creating 0o644 (at_disk (false, false))
    ≡ on_state kernel config
        (kernel_create kernel at_fdcwd (b'f' ∷ []) creating 0o644 false)
        (at_disk (false, false))
unfolding mode_of match_redirects
openat-create_example =
    openat-create kernel config at_fdcwd (b'f' ∷ []) creating 0o644 false (at_disk (false, false))
      refl refl refl new_file

-- The birth time is recorded for the new file, and not for the old one.
recorded_once :
    ((creat_shim kernel config (some (b'f' ∷ [])) 0o644 (at_disk (false, false))).1.state
      ≡ (true, true))
    × ((creat_shim kernel config (some (b'f' ∷ [])) 0o644 (at_disk (true, false))).1.state
        ≡ (true, false))
unfolding creat_shim open_shim openat mode_of openat_with open_named or_open open_path after_excl
    match_redirects on_state
recorded_once = (refl, refl)

aborts : openat_2 kernel config at_fdcwd (some (b'f' ∷ [])) creating (at_disk (true, false)) ≡ none
unfolding openat_2
aborts = refl

-- A kernel whose descriptors follow the directory's.
abbrev growing : Kernel Disk
growing = record kernel {
  openat = λ dirfd path f mode s. (ret (elim dirfd [ pos n ↦ pos (n + 1) | negsuc n ↦ pos 3 ]), s);
}

handle_tmpfile_at_lem_example :
    let (r, w') =
      handle_tmpfile_at growing
        (λ r. r ∷ [])
        at_fdcwd
        (b't' ∷ [])
        creating
        0o600
        (at_disk (true, false)) in
    (w'.held ≡ held_after r []) × (w'.names ≡ [])
handle_tmpfile_at_lem_example =
    handle_tmpfile_at_lem growing (λ r. r ∷ []) at_fdcwd (b't' ∷ []) creating 0o600
      (at_disk (true, false))
      (λ realdir fd name mode s s' e. new_fd realdir fd (ap (λ (x : Res ℤ × Disk). x.0) e))
      (λ realdir fd name mode s s' e. refl)
  where
    new_fd :
        (realdir fd : ℤ)
        → ret (elim realdir [ pos n ↦ pos (n + 1) | negsuc n ↦ pos 3 ]) ≡ ret fd
        → int_eq fd realdir ≡ false
    new_fd (pos n) fd e = ground arith
    new_fd (negsuc n) fd e = ground arith
