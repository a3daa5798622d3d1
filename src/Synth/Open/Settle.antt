-- ===== src/Synth/Open/Settle.antt =====
-- From the registration's result to the end of wslcompat_synth_open.
use wslcompat.Prelude.{
  ℕ, ◌≡◌, refl, ap, ◌∙◌, false, Option, none, some, List, [], ◌∷◌, if◌then◌else◌, get_elem?, Res,
  ret, fail,
}
use wslcompat.Prelude.Int.{drop_one, drop_one_head, ℤ, pos, minus_one, int_eq}
use wslcompat.Synth.Table.{Entry, Table, Env}
use wslcompat.Synth.Table.Register.{IsConsistent, Placed}
use wslcompat.Synth.Table.Sweep.{NoProbe}
use wslcompat.Synth.Open.{Results, World, close_fd, close_probe, Wanted, registration, finish}

-- No descriptor of the list.
abbrev pub Fresh : ℤ → List ℤ → Type 0
Fresh fd [] = Unit {0}
Fresh fd (x ∷ xs) = (int_eq x fd ≡ false) × Fresh fd xs

pub drop_one-Fresh : (fd : ℤ) (xs : List ℤ) → Fresh fd xs → drop_one fd xs ≡ xs
unfolding drop_one
drop_one-Fresh fd [] h = refl
drop_one-Fresh fd (x ∷ xs) h = rw (h.0) (ap (λ r. x ∷ r) (drop_one-Fresh fd xs h.1))

pub drop_one_past :
    (fd x : ℤ) (xs : List ℤ) → int_eq x fd ≡ false → drop_one fd (x ∷ xs) ≡ x ∷ drop_one fd xs
unfolding drop_one
drop_one_past fd x xs h = rw h refl

-- The kernel's new descriptors: no open file has a lock yet, they differ from each other and from
-- the open probes of the table, and none is -1.
pub record NewFds (back path probe : ℤ) (w : World) : Type 0 where
  pub back_free : Fresh back w.locked
  pub path_free : Fresh path w.locked
  pub probe_free : Fresh probe w.locked
  pub path_ne_back : int_eq path back ≡ false
  pub probe_ne_back : int_eq probe back ≡ false
  pub path_ne_probe : int_eq path probe ≡ false
  pub real_probe : int_eq probe minus_one ≡ false
  pub real_path : int_eq path minus_one ≡ false
  pub real_back : int_eq back minus_one ≡ false
  pub probe_apart : NoProbe probe w.table.entries
  pub path_apart : NoProbe path w.table.entries
  pub back_apart : NoProbe back w.table.entries

abbrev pub with_probe : (probe : ℤ) → List ℤ → List ℤ
with_probe probe xs = if int_eq probe minus_one then xs else probe ∷ xs

-- One reference, the inode of the descriptor, the handler's data and the probe.
abbrev pub opened_entry : Env → Wanted → ℕ × ℕ → (probe : ℤ) → Entry
opened_entry env r st probe = record {
  refcount = pos 1;
  probe_fd = probe;
  dev = st.0;
  ino = st.1;
  has_release = r.has_release;
  userptr = r.userptr;
  flags = r.flags;
  position = 0;
  install = env.self;
}

-- After a failure the same descriptors are held and locked as before. After a success there are
-- two more, the caller's and the probe, if there is one; the caller's is locked if the probe is
-- there; and the entry in the table has one reference and names the inode and the probe.
abbrev pub Settled : Env → Wanted → Results → World → Res ℤ × World → Type 0
Settled env r R w (fail e, v) = (v.held ≡ w.held) × (v.locked ≡ w.locked) × IsConsistent v.table
Settled env r R w (ret fd, v) =
    (st : ℕ × ℕ) × (probe : ℤ) × (i : ℕ) × (R.fstat ≡ ret st)
    × (get_elem? v.table.entries i ≡ some (opened_entry env r st probe))
    × (v.held ≡ with_probe probe (fd ∷ w.held))
    × (v.locked ≡ (if int_eq probe minus_one then w.locked else fd ∷ w.locked))
    × IsConsistent v.table

module _ (env : Env) (r : Wanted) (R : Results) (w : World) (back path probe : ℤ)
    (new : NewFds back path probe w) (st : ℕ × ℕ) (e : R.fstat ≡ ret st) where
  -- Before the registration, with a probe and without one.
  abbrev probed : World
  probed = record w { held = probe ∷ path ∷ back ∷ w.held; locked = path ∷ w.locked }

  abbrev unprobed : World
  unprobed = record w { held = path ∷ back ∷ w.held }

  locks_dropped : drop_one back (drop_one path (drop_one probe (path ∷ w.locked))) ≡ w.locked
  locks_dropped =
      ap (λ xs. drop_one back (drop_one path xs))
        (drop_one_past probe path w.locked new.path_ne_probe
          ∙ ap (λ r. path ∷ r) (drop_one-Fresh probe w.locked new.probe_free))
      ∙ ap (drop_one back) (drop_one_head path w.locked)
      ∙ drop_one-Fresh back w.locked new.back_free

  held_dropped :
      drop_one back (drop_one path (drop_one probe (probe ∷ path ∷ back ∷ w.held))) ≡ w.held
  held_dropped =
      ap (λ xs. drop_one back (drop_one path xs)) (drop_one_head probe (path ∷ back ∷ w.held))
      ∙ ap (drop_one back) (drop_one_head path (back ∷ w.held))
      ∙ drop_one_head back w.held

  path_kept : drop_one back (path ∷ back ∷ w.held) ≡ path ∷ w.held
  path_kept =
      drop_one_past back path (back ∷ w.held) new.path_ne_back
      ∙ ap (λ r. path ∷ r) (drop_one_head back w.held)

  pub finish-probed :
      (x : Table × Option ℕ)
      → IsConsistent x.0
      → Placed env.self (registration r st probe) x
      → Settled env r R w (finish back path probe x probed)
  unfolding finish close_probe close_fd registration
  finish-probed (t, none) c p = rw (new.real_probe, close_probe) (held_dropped, locks_dropped, c)
  finish-probed (t, some i) c p = (
    st,
    probe,
    i,
    e,
    p,
    drop_one_past back probe (path ∷ back ∷ w.held) new.probe_ne_back
        ∙ ap (λ r. probe ∷ r) path_kept
        ∙ rw new.real_probe refl,
    drop_one_past back path w.locked new.path_ne_back
        ∙ ap (λ r. path ∷ r) (drop_one-Fresh back w.locked new.back_free)
        ∙ rw new.real_probe refl,
    c,
  )

  pub finish-unprobed :
      (x : Table × Option ℕ)
      → IsConsistent x.0
      → Placed env.self (registration r st minus_one) x
      → Settled env r R w (finish back path minus_one x unprobed)
  unfolding finish close_probe close_fd registration
  finish-unprobed (t, none) c p = (
    ap (drop_one back) (drop_one_head path (back ∷ w.held)) ∙ drop_one_head back w.held,
    ap (drop_one back) (drop_one-Fresh path w.locked new.path_free)
        ∙ drop_one-Fresh back w.locked new.back_free,
    c,
  )
  finish-unprobed (t, some i) c p =
      (st, minus_one, i, e, p, path_kept, drop_one-Fresh back w.locked new.back_free, c)
