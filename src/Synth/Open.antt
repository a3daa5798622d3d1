-- ===== src/Synth/Open.antt =====
-- synth.c, wslcompat_synth_open and synth_install_probe: how a synthetic descriptor is made. The
-- entry goes into the table of Synth/Table. The banner that is written into the backing file is
-- left out.
pub mod Settle
pub mod Swept
pub mod Cleanup
mod Tests
use wslcompat.Prelude.{
  ℕ, zero, suc, ◌+◌, ◌-◌, ◌*◌, ◌/◌, ◌%◌, ◌^◌, ◌≤◌, ◌<◌, ◌≡◌, refl, sym, ap, ◌∙◌, ◌≢◌, ◌↔◌, ◌⊎◌, inl,
  inr, Bool, true, false, not, ◌&&◌, ◌||◌, Option, none, some, List, [], ◌∷◌, ◌++◌, map, arith, ltb,
  leb, ◌==◌, if◌then◌else◌, ltb→lt, lt→ltb, leb→le, ==_iff, ==_self, Bool-cases, Option-cases,
  length, get_elem?, get_or, set, take, take_all, drop, replicate, length-append, length-set,
  get_elem?-set_self, get_elem?-set_ne, length-replicate, length-map, length-snoc, append-cons,
  is_some, Res, ret, fail, eperm, enoent, eintr, e2big, enoexec, ebadf, ewouldblock, enomem, efault,
  eexist, enodev, einval, enfile, enosys, enoprotoopt, eopnotsupp,
}
use wslcompat.Prelude.Int.{
  drop_one, drop_one_head, ℤ, pos, negsuc, minus_one, int_eq, is_neg, int_eq_iff, int_eq_self,
}
use wslcompat.Synth.Table.{Event, release_run, closed, Table, Env, Registration, register}

-- The results of the calls, in their order: open of the temporary file through the shim, its
-- opening as O_PATH, fstat (st_dev and st_ino), flock, and the probe's open.
pub record Results : Type 0 where
  pub open_tmp : Res ℤ
  pub open_path : Res ℤ
  pub fstat : Res (ℕ × ℕ)
  pub flock : Res ℕ
  pub open_probe : Res ℤ

-- `held` are the descriptors of the process that came from here, `locked` those whose open file has
-- the shared lock.
pub record World : Type 0 where
  pub table : Table
  pub held : List ℤ
  pub locked : List ℤ

unfoldable pub take_fd : ℤ → World → World
take_fd fd w = record w { held = fd ∷ w.held }

-- The last close of an open file gives its lock up.
unfoldable pub close_fd : ℤ → World → World
close_fd fd w = record w { held = drop_one fd w.held; locked = drop_one fd w.locked }

-- synth_install_probe past its flock
unfoldable pub probe_opened : (caller_fd : ℤ) → Res ℤ → World → ℤ × World
probe_opened caller_fd (fail e) w = (minus_one, record w { locked = drop_one caller_fd w.locked })
probe_opened caller_fd (ret probe) w = (probe, take_fd probe w)

-- synth_install_probe
unfoldable pub install_probe : (caller_fd : ℤ) → Results → Res ℕ → World → ℤ × World
install_probe caller_fd R (fail e) w = (minus_one, w)
install_probe caller_fd R (ret n) w =
    probe_opened caller_fd R.open_probe (record w { locked = caller_fd ∷ w.locked })

-- The part of the label `fail` that is about the probe.
unfoldable pub close_probe : ℤ → World → World
close_probe probe w = if int_eq probe minus_one then w else close_fd probe w

-- What the caller asks to register; the inode and the probe come from the steps before.
pub record Wanted : Type 0 where
  pub has_release : Bool
  pub userptr : ℕ
  pub flags : ℕ

unfoldable pub registration : Wanted → ℕ × ℕ → (probe : ℤ) → Registration
registration r (dev, ino) probe = record {
  dev = dev;
  ino = ino;
  has_release = r.has_release;
  userptr = r.userptr;
  flags = r.flags;
  probe_fd = probe;
}

-- The probes that the calls close, taken off a list of descriptors.
unfoldable pub drop_closed : List Event → List ℤ → List ℤ
drop_closed [] fds = fds
drop_closed (release_run u ∷ es) fds = drop_closed es fds
drop_closed (closed p ∷ es) fds = drop_closed es (drop_one p fds)

-- The closes of the sweep in synth_register. What a handler's release closes is the handler's own.
unfoldable pub close_swept : List Event → World → World
close_swept es w = record w { held = drop_closed es w.held; locked = drop_closed es w.locked }

-- From the registration's result to the end.
unfoldable pub finish : (back path probe : ℤ) → Table × Option ℕ → World → Res ℤ × World
finish back path probe (t, none) w =
    (fail enfile, close_fd back (close_fd path (close_probe probe (record w { table = t }))))
finish back path probe (t, some i) w = (ret path, close_fd back (record w { table = t }))

unfoldable pub publish : Env → Wanted → (back path : ℤ) → ℕ × ℕ → ℤ × World → Res ℤ × World
publish env r back path st (probe, w) =
    let x = register 2 env (registration r st probe) w.table in
    let added = drop (length w.table.log) x.0.log in finish back path probe x (close_swept added w)

unfoldable pub identify :
    Env → Wanted → Results → (back path : ℤ) → Res (ℕ × ℕ) → World → Res ℤ × World
identify env r R back path (fail e) w = (fail e, close_fd back (close_fd path w))
identify env r R back path (ret st) w = publish env r back path st (install_probe path R R.flock w)

unfoldable pub reopen : Env → Wanted → Results → (back : ℤ) → Res ℤ → World → Res ℤ × World
reopen env r R back (fail e) w = (fail e, close_fd back w)
reopen env r R back (ret path) w = identify env r R back path R.fstat (take_fd path w)

unfoldable pub start : Env → Wanted → Results → Res ℤ → World → Res ℤ × World
start env r R (fail e) w = (fail e, w)
start env r R (ret back) w = reopen env r R back R.open_path (take_fd back w)

-- wslcompat_synth_open
unfoldable pub synth_open : Env → Wanted → Results → World → Res ℤ × World
synth_open env r R w = start env r R R.open_tmp w
