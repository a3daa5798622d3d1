-- ===== src/Synth/Table/Tests.antt =====
-- A small table, and the theorems of this part at it.
use wslcompat.Prelude.{ℕ, ◌≡◌, refl, true, false, ◌&&◌, none, some, [], ◌∷◌, if◌then◌else◌}
use wslcompat.Prelude.Int.{ℤ, pos, minus_one, int_eq}
use wslcompat.Synth.Override.{Process}
use wslcompat.Synth.Table.{
  Entry, Table, Env, Registration, release_run, closed, should_release, installed_by, post_close,
  register,
}
use wslcompat.Synth.Table.Entries.{pinned}
use wslcompat.Synth.Table.Close.{close_last_reference}
use wslcompat.Synth.Table.Register.{IsConsistent, Placed, register-IsConsistent}

abbrev self : Process
self = record { pid = 100; starttime = 7 }

abbrev entry : ℤ → ℕ → Entry
entry refs ino = record {
  refcount = refs;
  probe_fd = pos 9;
  dev = 1;
  ino = ino;
  has_release = true;
  userptr = 0;
  flags = 0;
  position = 0;
  install = self;
}

abbrev table : Table
table = record { entries = entry (pos 1) 40 ∷ entry (pos 0) 41 ∷ []; live_entries = 1; log = [] }

abbrev env : Env
env = record {
  self = self;
  lock_exclusive = λ _. true;
  open_fds = pos 3 ∷ pos 9 ∷ [];
  fstat = λ fd. if int_eq fd (pos 3) then some (1, 40) else none;
}

abbrev registration : Registration
registration = record {
  dev = 1;
  ino = 42;
  has_release = false;
  userptr = 0;
  flags = 0;
  probe_fd = pos 11;
}

table-IsConsistent : IsConsistent table
table-IsConsistent = record { rest = (refl, (refl, tt)); counted = refl }

close_last_reference_example : post_close env (pinned (entry (pos 1) 40)) ≡ (
    if installed_by self (entry (pos 1) 40) && should_release env (entry (pos 1) 40)
    then record {
      entry = record (entry (pos 1) 40) { refcount = pos 0; probe_fd = minus_one };
      events = release_run 0 ∷ closed (pos 9) ∷ [];
      freed = 1;
    }
    else record { entry = entry (pos 1) 40; events = []; freed = 0 })
close_last_reference_example = close_last_reference env (entry (pos 1) 40) refl

register-IsConsistent_example :
    IsConsistent (register 2 env registration table).0
    × Placed self registration (register 2 env registration table)
register-IsConsistent_example = register-IsConsistent 2 env registration table table-IsConsistent
