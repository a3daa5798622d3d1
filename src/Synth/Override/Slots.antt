-- ===== src/Synth/Override/Slots.antt =====
-- What garbage collection, claiming and storing do to the slots of one process and of the others.
use wslcompat.Prelude.{
  ℕ, ◌<◌, ◌≡◌, refl, sym, ap, ◌∙◌, ◌≢◌, ◌⊎◌, inl, inr, true, false, Option, none, some, List, [],
  ◌∷◌, arith, ◌==◌, Bool-cases, Option-cases, is_some,
}
use wslcompat.Prelude.Int.{ℤ, pos, int_eq, int_eq_iff}
use wslcompat.Synth.Override.{Process, Slot, free_pid, is_of, gc_slot, gc, get_slot, claim, put_fd}

-- A process that runs now: it has a pid, and /proc shows its start time.
pub record IsLive (starttime_of : ℤ → ℕ) (p : Process) : Type 0 where
  pub has_pid : 0 < p.pid
  pub start : starttime_of (pos p.pid) ≡ p.starttime

-- The descriptor in a slot, if there is one.
abbrev pub slot_fd : Option Slot → Option ℤ
slot_fd none = none
slot_fd (some s) = some s.fd

module _ (starttime_of : ℤ → ℕ) (self p : Process) (lp : IsLive starttime_of p)
    (ls : IsLive starttime_of self) where
  is_of-start : (s : Slot) → is_of p s ≡ true → starttime_of s.pid ≡ s.starttime
  unfolding is_of
  is_of-start s h =
      let same : s.pid ≡ pos p.pid = (int_eq_iff s.pid (pos p.pid)).0 (ground arith) in
      rw same (ground arith)

  same-starttime : p.pid ≡ self.pid → p.starttime ≡ self.starttime
  same-starttime e = sym lp.start ∙ ap (λ n. starttime_of (pos n)) e ∙ ls.start

  gc_slot-own :
      (fd : ℤ)
      → gc_slot starttime_of self (record { pid = pos p.pid; starttime = p.starttime; fd = fd })
        ≡ record { pid = pos p.pid; starttime = p.starttime; fd = fd }
  unfolding gc_slot
  gc_slot-own fd = elim (Bool-cases (p.pid == self.pid)) [
    | inl y ↦ ground (arith, same-starttime (ground arith), lp.has_pid)
    | inr n ↦ ground (arith, lp.start, lp.has_pid)
  ]

  is_of-eq :
      (s : Slot)
      → is_of p s ≡ true
      → s ≡ record { pid = pos p.pid; starttime = p.starttime; fd = s.fd }
  unfolding is_of
  is_of-eq s h =
      let same : s.pid ≡ pos p.pid = (int_eq_iff s.pid (pos p.pid)).0 (ground arith) in ground arith

  -- A slot of the live process `p` survives, and a slot that is freed was not its.
  gc_slot-live :
      (s : Slot)
      → (gc_slot starttime_of self s ≡ s)
        ⊎ ((gc_slot starttime_of self s ≡ record s { pid = free_pid }) × (is_of p s ≡ false))
  unfolding gc_slot
  gc_slot-live s = elim (Bool-cases (is_of p s)) [
    | inl y ↦ inl (rw (is_of-eq s y) (gc_slot-own s.fd))
    | inr n ↦ ground arith
  ]

  free-not-of : (s : Slot) → is_of p (record s { pid = free_pid }) ≡ false
  unfolding is_of
  free-not-of s = ground (arith, lp.has_pid)

  pub get_slot-gc : (ss : List Slot) → get_slot p (gc starttime_of self ss) ≡ get_slot p ss
  unfolding gc get_slot
  get_slot-gc [] = refl
  get_slot-gc (s ∷ ss) = elim (gc_slot-live s) [
    | inl same ↦ rw (same, get_slot-gc ss)
    | inr (freed, n) ↦ rw (freed, free-not-of s, n, get_slot-gc ss)
  ]

-- The slot that `p` gets when it claims or stores.
abbrev pub slot_of : Process → ℤ → Slot
slot_of p fd = record { pid = pos p.pid; starttime = p.starttime; fd = fd }

is_of-slot_of : (p : Process) (fd : ℤ) → is_of p (slot_of p fd) ≡ true
unfolding is_of
is_of-slot_of p fd = ground arith

module _ (self : Process) (fd : ℤ) where
  pub get_slot-put_self :
      (ss : List Slot)
      → is_some (get_slot self ss) ≡ true
      → slot_fd (get_slot self (put_fd self fd ss)) ≡ some fd
  unfolding get_slot put_fd is_of
  get_slot-put_self [] h = cc
  get_slot-put_self (s ∷ ss) h = ground (arith, get_slot-put_self ss)

  put_fd-none : (ss : List Slot) → get_slot self ss ≡ none → put_fd self fd ss ≡ ss
  unfolding get_slot put_fd
  put_fd-none [] h = refl
  put_fd-none (s ∷ ss) h = ground (arith, put_fd-none ss)

  pub get_slot-claim_self :
      (ss ss' : List Slot)
      → get_slot self ss ≡ none
      → claim self fd ss ≡ some ss'
      → get_slot self ss' ≡ some (slot_of self fd)
  unfolding get_slot claim
  get_slot-claim_self [] ss' g c = cc
  get_slot-claim_self (s ∷ ss) ss' g c = elim (Option-cases (claim self fd ss)) [
    | inl e ↦ ground (arith, is_of-slot_of self fd)
    | inr (rest, e) ↦ ground (arith, is_of-slot_of self fd, get_slot-claim_self ss rest)
  ]

  module _ (p : Process) (has_pid : 0 < p.pid) (other : p.pid ≢ self.pid) where
    is_of-other : (s : Slot) → is_of self s ≡ true → is_of p s ≡ false
    unfolding is_of
    is_of-other s h =
        let same = (int_eq_iff s.pid (pos self.pid)).0 in
        let same' = (int_eq_iff s.pid (pos p.pid)).0 in ground (arith, same, same')

    is_of-free : (s : Slot) → int_eq s.pid free_pid ≡ true → is_of p s ≡ false
    unfolding is_of
    is_of-free s h =
        let same = (int_eq_iff s.pid free_pid).0 in
        let same' = (int_eq_iff s.pid (pos p.pid)).0 in ground (arith, same, same')

    is_of-put : (s : Slot) (f : ℤ) → is_of p (record s { fd = f }) ≡ is_of p s
    unfolding is_of
    is_of-put s f = refl

    pub get_slot-put_other : (ss : List Slot) → get_slot p (put_fd self fd ss) ≡ get_slot p ss
    unfolding get_slot put_fd
    get_slot-put_other [] = refl
    get_slot-put_other (s ∷ ss) =
        ground (arith, get_slot-put_other ss, is_of-other s, is_of-put s fd)

    is_of-claimed : is_of p (slot_of self fd) ≡ false
    is_of-claimed = is_of-other (slot_of self fd) (is_of-slot_of self fd)

    pub get_slot-claim_other :
        (ss ss' : List Slot) → claim self fd ss ≡ some ss' → get_slot p ss' ≡ get_slot p ss
    unfolding get_slot claim
    get_slot-claim_other [] ss' c = cc
    get_slot-claim_other (s ∷ ss) ss' c = elim (Option-cases (claim self fd ss)) [
      | inl e ↦ ground (arith, is_of-claimed, is_of-free s)
      | inr (rest, e) ↦ ground (arith, is_of-claimed, is_of-free s, get_slot-claim_other ss rest)
    ]
