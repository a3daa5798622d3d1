-- ===== src/Synth/Table/Close.antt =====
-- What closing a descriptor does to its entry.
use wslcompat.Prelude.{
  ◌≡◌, refl, ap, ◌∙◌, ◌≢◌, ◌↔◌, ◌⊎◌, inl, inr, true, false, ◌&&◌, some, List, [], ◌∷◌, ◌++◌, arith,
  if◌then◌else◌, Option-cases,
}
use wslcompat.Prelude.Int.{ℤ, pos, minus_one, int_eq, int_eq_iff}
use wslcompat.Synth.Override.{Process}
use wslcompat.Synth.Table.{
  Entry, Env, release_run, closed, clean_up, unpin, found_other, should_release, installed_by,
  unpin_twice, post_close,
}
use wslcompat.Synth.Table.Entries.{is_live, pinned, unpin-pinned}

found_other-pinned :
    (env : Env) (e : Entry) (probe : ℤ) (fds : List ℤ)
    → found_other env (pinned e) probe fds ≡ found_other env e probe fds
unfolding found_other
found_other-pinned env e probe [] = refl
found_other-pinned env e probe (fd ∷ fds) = elim (Option-cases (env.fstat fd)) [
  | inl n ↦ ground (arith, found_other-pinned env e probe fds)
  | inr (k, s) ↦ ground (arith, found_other-pinned env e probe fds)
]

should_release-pinned :
    (env : Env) (e : Entry) → should_release env (pinned e) ≡ should_release env e
unfolding should_release
should_release-pinned env e = ground (arith, found_other-pinned env e e.probe_fd env.open_fds)

installed_by-pinned : (p : Process) (e : Entry) → installed_by p (pinned e) ≡ installed_by p e
unfolding installed_by
installed_by-pinned p e = refl

unpin_twice-pinned : (e : Entry) → is_live e ≡ true → unpin_twice (pinned e) ≡ unpin e
unfolding unpin_twice
unpin_twice-pinned e h = ground (arith, unpin-pinned e h)

-- Closing a descriptor of a live entry (a pin, the close, and post_close) drops one reference, the
-- producer's, exactly when the process installed the entry and is done with it; otherwise the entry
-- is as before.
pub post_close_lem :
    (env : Env) (e : Entry)
    → is_live e ≡ true
    → post_close env (pinned e) ≡ (
        if installed_by env.self e && should_release env e
        then unpin e
        else record { entry = e; events = []; freed = 0 })
unfolding post_close
post_close_lem env e h = ground (
  arith,
  should_release-pinned env e,
  installed_by-pinned env.self e,
  unpin_twice-pinned e h,
  unpin-pinned e h,
)

unpin-last : (e : Entry) → e.refcount ≡ pos 1 → unpin e ≡ clean_up e
unfolding unpin
unpin-last e h = ground arith

-- On an entry with only the producer's reference besides the closing call's own pin: post_close by
-- the installer, when synth_should_release agrees, runs the handler's release (if it has one),
-- closes the probe (if there is one), and frees the slot; by another process, or while the wrap is
-- still in use, it only drops the pin.
pub close_last_reference :
    (env : Env) (e : Entry)
    → e.refcount ≡ pos 1
    → post_close env (pinned e) ≡ (
        if installed_by env.self e && should_release env e
        then record {
          entry = record e { refcount = pos 0; probe_fd = minus_one };
          events =
              (if e.has_release then release_run e.userptr ∷ [] else [])
              ++ (if int_eq e.probe_fd minus_one then [] else closed e.probe_fd ∷ []);
          freed = 1;
        }
        else record { entry = e; events = []; freed = 0 })
unfolding clean_up
close_last_reference env e h =
    post_close_lem env e (rw h refl)
    ∙ ap
        (λ u.
          if installed_by env.self e && should_release env e
          then u
          else record { entry = e; events = []; freed = 0 })
        (unpin-last e h)

-- Every other descriptor of the process names another file.
abbrev pub NoOther : Env → Entry → List ℤ → Type 0
NoOther env e [] = Unit {0}
NoOther env e (fd ∷ fds) =
    ((fd ≡ e.probe_fd) ⊎ (env.fstat fd ≢ some (e.dev, e.ino))) × NoOther env e fds

found_other_iff :
    (env : Env) (e : Entry) (fds : List ℤ)
    → (found_other env e e.probe_fd fds ≡ false) ↔ NoOther env e fds
unfolding found_other
found_other_iff env e [] = (λ _. tt, λ _. refl)
found_other_iff env e (fd ∷ fds) =
    let ih = found_other_iff env e fds in
    let probe = int_eq_iff fd e.probe_fd in
    elim (Option-cases (env.fstat fd)) [
      | inl n ↦ ground (arith, ih.0, ih.1, probe.0, probe.1)
      | inr ((dev, ino), s) ↦ ground (arith, ih.0, ih.1, probe.0, probe.1)
    ]

-- The process is done with a wrap exactly when the probe's exclusive lock is granted, or no
-- descriptor of the process other than the probe has the wrap's device and inode.
pub should_release_iff :
    (env : Env) (e : Entry)
    → (should_release env e ≡ true) ↔ (
        ((int_eq e.probe_fd minus_one ≡ false) × (env.lock_exclusive e.probe_fd ≡ true))
        ⊎ NoOther env e env.open_fds)
unfolding should_release
should_release_iff env e =
    let other = found_other_iff env e env.open_fds in ground (arith, other.0, other.1)
