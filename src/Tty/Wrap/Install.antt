-- ===== src/Tty/Wrap/Install.antt =====
-- wslcompat_tty_install: what a failed installation leaves, and what a successful one sets up.
use wslcompat.Prelude.{
  ℕ, zero, suc, ◌≡◌, refl, sym, ap, ◌∙◌, inl, inr, Bool, true, false, some, List, [], ◌∷◌, map,
  arith, Option-cases, get_elem?, Res, ret, fail,
}
use wslcompat.Prelude.Int.{drop_one, drop_one_head, ℤ, minus_one}
use mathlib.Core.Path.{subst}
use wslcompat.Tty.Wrap.{
  Termios, Slot, Ttys, tty_alloc, at_slot, claim, unclaim, tty_release, Results, Outcome, failed,
  wrapped, abandon, put_over, open_synth, primed, read_flags, dup_real, tty_install,
}
use wslcompat.Tty.Wrap.Caches.{Coherent}

-- Which slots are in use.
abbrev pub claims : List Slot → List Bool
claims = map (λ s. s.claimed)

claims-at_slot :
    (f : Slot → Slot) (ss : List Slot) (i : ℕ)
    → ((s : Slot) → (f s).claimed ≡ false)
    → tty_alloc ss ≡ some i
    → claims (at_slot i f ss) ≡ claims ss
unfolding tty_alloc at_slot
claims-at_slot f [] i free e = cc
claims-at_slot f (s ∷ ss) zero free e = ground (arith, free s)
claims-at_slot f (s ∷ ss) (suc i) free e = ground (arith, claims-at_slot f ss i free)

at_slot-at_slot :
    (g f : Slot → Slot) (i : ℕ) (ss : List Slot)
    → at_slot i g (at_slot i f ss) ≡ at_slot i (λ s. g (f s)) ss
unfolding at_slot
at_slot-at_slot g f i [] = refl
at_slot-at_slot g f zero (s ∷ ss) = refl
at_slot-at_slot g f (suc i) (s ∷ ss) = ap (λ r. s ∷ r) (at_slot-at_slot g f i ss)

module _ (t : Termios) (w : Ttys) (i : ℕ) (free : tty_alloc w.slots ≡ some i) where
  -- The slots and descriptors are as before the call.
  abbrev Unchanged : Ttys → Type 0
  Unchanged v = (claims v.slots ≡ claims w.slots) × (v.held ≡ w.held)

  unclaimed : claims (unclaim i (claim i w.slots)) ≡ claims w.slots
  unfolding claim unclaim
  unclaimed =
      ap claims (at_slot-at_slot _ _ i w.slots) ∙ claims-at_slot _ w.slots i (λ s. refl) free

  unclaimed_primed :
      (real : ℤ) (nonblock : Bool)
      → claims (unclaim i (at_slot i (primed real t nonblock) (claim i w.slots))) ≡ claims w.slots
  unfolding claim unclaim primed
  unclaimed_primed real nonblock =
      ap (λ ss. claims (at_slot i (λ s. record s { claimed = false }) ss))
        (at_slot-at_slot _ _ i w.slots)
      ∙ ap claims (at_slot-at_slot _ _ i w.slots)
      ∙ claims-at_slot _ w.slots i (λ s. refl) free

  released :
      (real : ℤ) (nonblock : Bool)
      → claims (
          at_slot i
            (λ s. record s { real_fd = minus_one; claimed = false })
            (at_slot i (primed real t nonblock) (claim i w.slots)))
        ≡ claims w.slots
  unfolding claim primed
  released real nonblock =
      ap (λ ss. claims (at_slot i (λ s. record s { real_fd = minus_one; claimed = false }) ss))
        (at_slot-at_slot _ _ i w.slots)
      ∙ ap claims (at_slot-at_slot _ _ i w.slots)
      ∙ claims-at_slot _ w.slots i (λ s. refl) free

  dup_real_fails :
      (dupfd : Res ℤ) (getfl getfd : Res Bool) (synth dup3 : Res ℤ)
      → (let r =
            dup_real
              (record {
                dupfd = dupfd;
                getfl = getfl;
                getfd = getfd;
                synth_open = synth;
                dup3 = dup3;
              })
              t
              i
              dupfd
              (record w { slots = claim i w.slots }) in
          r.0 ≡ failed → Unchanged r.1)
  unfolding dup_real read_flags open_synth put_over abandon tty_release
  dup_real_fails (fail e) getfl getfd synth dup3 h = (unclaimed, refl)
  dup_real_fails (ret real) (fail e) getfd synth dup3 h = (unclaimed, drop_one_head real w.held)
  dup_real_fails (ret real) (ret b) (fail e) synth dup3 h = (unclaimed, drop_one_head real w.held)
  dup_real_fails (ret real) (ret b) (ret c) (fail e) dup3 h =
      (unclaimed_primed real b, drop_one_head real w.held)
  dup_real_fails (ret real) (ret b) (ret c) (ret synth) (fail e) h = (
    released real b,
    ap (drop_one real) (drop_one_head synth (real ∷ w.held)) ∙ drop_one_head real w.held,
  )
  dup_real_fails (ret real) (ret b) (ret c) (ret synth) (ret fd) h = cc

-- A failed installation, whichever call fails, leaves the same slots in use as before, and the same
-- descriptors: none leaks.
pub tty_install_fails :
    (R : Results) (t : Termios) (w : Ttys)
    → (tty_install R t w).0 ≡ failed
    → (claims (tty_install R t w).1.slots ≡ claims w.slots) × ((tty_install R t w).1.held ≡ w.held)
unfolding tty_install
tty_install_fails R t w h = elim (Option-cases (tty_alloc w.slots)) [
  | inl e ↦ rw (e, tty_install) (refl, refl)
  | inr (i, e) ↦
      rw (e, tty_install)
        (dup_real_fails t w i e R.dupfd R.getfl R.getfd R.synth_open R.dup3
          (rw (e, tty_install) at h))
]

get_elem?-at_slot :
    (f : Slot → Slot) (i : ℕ) (ss : List Slot)
    → tty_alloc ss ≡ some i
    → (s : Slot) × (get_elem? (at_slot i f ss) i ≡ some (f s))
unfolding tty_alloc at_slot
get_elem?-at_slot f i [] e = cc
get_elem?-at_slot f zero (s ∷ ss) e = (s, refl)
get_elem?-at_slot f (suc i) (s ∷ ss) e = get_elem?-at_slot f i ss (ground arith)

-- What a wrap has after its installation.
abbrev pub Installed : Results → Termios → Ttys → Outcome × Ttys → Type 0
Installed R t w r =
    (i : ℕ) × (real : ℤ) × (nonblock : Bool) × (s : Slot) × (R.dupfd ≡ ret real)
    × (R.getfl ≡ ret nonblock)
    × (tty_alloc w.slots ≡ some i)
    × (get_elem? r.1.slots i ≡ some s)
    × (s.claimed ≡ true)
    × (s.real_fd ≡ real)
    × (r.1.held ≡ real ∷ w.held)
    × Coherent (s.caches, record { termios = t; nonblock = nonblock })

dup_real_installs :
    (t : Termios) (w : Ttys) (i : ℕ) (dupfd : Res ℤ) (getfl getfd : Res Bool) (synth dup3 : Res ℤ)
    (c : Bool)
    → tty_alloc w.slots ≡ some i
    → (let R : Results = record {
      dupfd = dupfd;
      getfl = getfl;
      getfd = getfd;
      synth_open = synth;
      dup3 = dup3;
    } in
        let r = dup_real R t i dupfd (record w { slots = claim i w.slots }) in
        r.0 ≡ wrapped c → Installed R t w r)
unfolding dup_real read_flags open_synth put_over abandon tty_release claim primed
dup_real_installs t w i (fail e) getfl getfd synth dup3 c a h = cc
dup_real_installs t w i (ret real) (fail e) getfd synth dup3 c a h = cc
dup_real_installs t w i (ret real) (ret b) (fail e) synth dup3 c a h = cc
dup_real_installs t w i (ret real) (ret b) (ret c') (fail e) dup3 c a h = cc
dup_real_installs t w i (ret real) (ret b) (ret c') (ret synth) (fail e) c a h = cc
dup_real_installs t w i (ret real) (ret b) (ret c') (ret synth) (ret fd) c a h =
    let (s, got) =
      get_elem?-at_slot (λ s. primed real t b (record s { claimed = true })) i w.slots a in
    (
      i,
      real,
      b,
      primed real t b (record s { claimed = true }),
      refl,
      refl,
      a,
      ap (λ ss. get_elem? ss i) (at_slot-at_slot _ _ i w.slots) ∙ got,
      refl,
      refl,
      drop_one_head synth (real ∷ w.held),
      record { canon = refl; vmin = refl; vtime = refl; nonblock = refl },
    )

-- A successful installation claims the first free slot, holds the duplicate of the terminal's
-- descriptor in it and no other new descriptor, and starts with caches that agree with the
-- terminal, whose settings are those that the caller has set and whose O_NONBLOCK is that of
-- F_GETFL.
pub tty_install-Installed :
    (R : Results) (t : Termios) (w : Ttys) (c : Bool)
    → (tty_install R t w).0 ≡ wrapped c
    → Installed R t w (tty_install R t w)
unfolding tty_install
tty_install-Installed R t w c h = elim (Option-cases (tty_alloc w.slots)) [
  | inl e ↦ absurd (cc (rw (e, tty_install) at h))
  | inr (i, e) ↦
      let step : tty_install R t w ≡ dup_real R t i R.dupfd (record w { slots = claim i w.slots }) =
        rw (e, tty_install) refl in
      subst (Installed R t w) (sym step) (
        dup_real_installs t w i R.dupfd R.getfl R.getfd R.synth_open R.dup3 c e
          (rw (e, tty_install) at h))
]
