-- ===== src/Synth/Open/Swept.antt =====
-- The probes that the sweep closes are none of the new descriptors.
use wslcompat.Prelude.{◌≡◌, refl, inl, inr, Bool-cases, List, [], ◌∷◌}
use wslcompat.Prelude.Int.{drop_one, ℤ, int_eq}
use wslcompat.Synth.Table.{Event, release_run, closed}
use wslcompat.Synth.Table.Sweep.{Clear}
use wslcompat.Synth.Open.{World, drop_closed}
use wslcompat.Synth.Open.Settle.{Fresh, NewFds, drop_one_past}

-- The world without the probes that the calls close.
abbrev pub without : List Event → World → World
without es w = record w { held = drop_closed es w.held; locked = drop_closed es w.locked }

pub drop_closed-past :
    (fd : ℤ) (es : List Event) (xs : List ℤ)
    → Clear fd es
    → drop_closed es (fd ∷ xs) ≡ fd ∷ drop_closed es xs
unfolding drop_closed
drop_closed-past fd [] xs h = refl
drop_closed-past fd (release_run u ∷ es) xs h = drop_closed-past fd es xs h
drop_closed-past fd (closed p ∷ es) xs h =
    rw (drop_one_past p fd xs h.0) (drop_closed-past fd es (drop_one p xs) h.1)

drop_one-keeps-Fresh : (fd p : ℤ) (xs : List ℤ) → Fresh fd xs → Fresh fd (drop_one p xs)
unfolding drop_one
drop_one-keeps-Fresh fd p [] h = tt
drop_one-keeps-Fresh fd p (x ∷ xs) h = elim (Bool-cases (int_eq x p)) [
  | inl y ↦ rw (y, drop_one) h.1
  | inr n ↦ rw (n, drop_one) (h.0, drop_one-keeps-Fresh fd p xs h.1)
]

drop_closed-Fresh :
    (fd : ℤ) (es : List Event) (xs : List ℤ) → Fresh fd xs → Fresh fd (drop_closed es xs)
unfolding drop_closed
drop_closed-Fresh fd [] xs h = h
drop_closed-Fresh fd (release_run u ∷ es) xs h = drop_closed-Fresh fd es xs h
drop_closed-Fresh fd (closed p ∷ es) xs h =
    drop_closed-Fresh fd es (drop_one p xs) (drop_one-keeps-Fresh fd p xs h)

pub without-NewFds :
    (back path probe : ℤ) (es : List Event) (w : World)
    → NewFds back path probe w
    → NewFds back path probe (without es w)
without-NewFds back path probe es w new = record {
  back_free = drop_closed-Fresh back es w.locked new.back_free;
  path_free = drop_closed-Fresh path es w.locked new.path_free;
  probe_free = drop_closed-Fresh probe es w.locked new.probe_free;
  path_ne_back = new.path_ne_back;
  probe_ne_back = new.probe_ne_back;
  path_ne_probe = new.path_ne_probe;
  real_probe = new.real_probe;
  real_path = new.real_path;
  real_back = new.real_back;
  probe_apart = new.probe_apart;
  path_apart = new.path_apart;
  back_apart = new.back_apart;
}
