-- ===== src/Synth/Open/Tests.antt =====
-- Descriptors 10 to 12 are opened over a full table, whose one entry is no longer in use.
use wslcompat.Prelude.{◌≡◌, refl, true, false, none, List, [], ◌∷◌, ret, fail, ebadf}
use wslcompat.Prelude.Int.{drop_one, pos, minus_one}
use wslcompat.Synth.Table.{Entry, Env}
use wslcompat.Synth.Open.{
  Results, World, Wanted, synth_open, start, reopen, identify, take_fd, close_fd,
}

abbrev free_entry : Entry
free_entry = record {
  refcount = pos 0;
  probe_fd = minus_one;
  dev = 0;
  ino = 0;
  has_release = false;
  userptr = 0;
  flags = 0;
  position = 0;
  install = record { pid = 1; starttime = 1 };
}

abbrev env : Env
env = record {
  self = record { pid = 100; starttime = 7 };
  lock_exclusive = λ _. false;
  open_fds = [];
  fstat = λ fd. none;
}

abbrev world : List Entry → World
world es = record {
  table = record { entries = es; live_entries = 0; log = [] };
  held = pos 3 ∷ [];
  locked = pos 3 ∷ [];
}

abbrev wanted : Wanted
wanted = record { has_release = true; userptr = 5; flags = 0 }

abbrev results : Results
results = record {
  open_tmp = ret (pos 10);
  open_path = ret (pos 11);
  fstat = ret (1, 40);
  flock = ret 0;
  open_probe = ret (pos 12);
}

-- A full table: the sweep frees the entry of descriptor 21, whose probe 20 goes with it.
abbrev used_entry : Entry
used_entry = record free_entry {
  refcount = pos 1;
  probe_fd = pos 20;
  dev = 3;
  ino = 30;
  install = env.self;
}

abbrev full : World
full = record {
  table = record { entries = used_entry ∷ []; live_entries = 1; log = [] };
  held = pos 20 ∷ pos 3 ∷ [];
  locked = pos 3 ∷ [];
}

-- fstat fails: both descriptors are closed again.
no_inode :
    synth_open env wanted (record results { fstat = fail ebadf }) (world [])
    ≡ (fail ebadf, world [])
unfolding synth_open start reopen identify take_fd close_fd drop_one
no_inode = refl
