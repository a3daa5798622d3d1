-- ===== src/Synth/Table/Register.antt =====
-- Registration, the sweep of a full table, and the count of live entries.
use wslcompat.Prelude.{
  ℕ, zero, suc, ◌+◌, ◌-◌, ◌≡◌, refl, inl, inr, true, false, ◌||◌, Option, none, some, List, [], ◌∷◌,
  ◌++◌, arith, if◌then◌else◌, Bool-cases, Option-cases, get_elem?, is_some,
}
use wslcompat.Prelude.Int.{ℤ, pos, int_eq, is_neg, int_eq_iff}
use mathlib.Core.List.{append-nil}
use wslcompat.Synth.Override.{Process}
use wslcompat.Synth.Table.{
  Entry, Env, Table, Registration, pin, clean_up, unpin, post_close, sweep_past, table_gc,
  fresh_entry, claim_slot, register, pin_fd,
}
use wslcompat.Synth.Table.Entries.{
  is_live, pinned, pin-live, pin-dead, find_live, pin_at, pin_lookup_lem,
}
use wslcompat.Synth.Table.Close.{post_close_lem}

abbrev pub live_one : Entry → ℕ
live_one e = if is_live e then 1 else 0

abbrev pub live_count : List Entry → ℕ
live_count [] = 0
live_count (e ∷ es) = live_one e + live_count es

-- No entry is in transition.
abbrev pub AllRest : List Entry → Type 0
AllRest [] = Unit {0}
AllRest (e ∷ es) = (is_neg e.refcount ≡ false) × AllRest es

-- Between calls: no entry is in transition, and the counter of live entries is right.
pub record IsConsistent (t : Table) : Type 0 where
  pub rest : AllRest t.entries
  pub counted : t.live_entries ≡ live_count t.entries

unpin-live :
    (e : Entry)
    → is_live e ≡ true
    → (live_one (unpin e).entry + (unpin e).freed ≡ 1) × (is_neg (unpin e).entry.refcount ≡ false)
unfolding unpin clean_up
unpin-live e h = ground arith

closed-live :
    (env : Env) (e : Entry)
    → is_live e ≡ true
    → (live_one (post_close env (pinned e)).entry + (post_close env (pinned e)).freed ≡ 1)
      × (is_neg (post_close env (pinned e)).entry.refcount ≡ false)
closed-live env e h = rw (post_close_lem env e h) (ground (arith, unpin-live e h))

table_gc-counts :
    (env : Env) (es : List Entry)
    → AllRest es
    → (live_count (table_gc env es).entries + (table_gc env es).freed ≡ live_count es)
      × AllRest (table_gc env es).entries
unfolding table_gc sweep_past
table_gc-counts env [] h = (refl, tt)
table_gc-counts env (e ∷ es) h = elim (Bool-cases (is_live e)) [
  | inr dead ↦ ground (arith, pin-dead e dead, table_gc-counts env es h.1)
  | inl alive ↦
      ground (arith, pin-live e alive, closed-live env e alive, table_gc-counts env es h.1)
]

-- After a sweep that found something there is a free slot.
table_gc-found :
    (env : Env) (p : Process) (r : Registration) (es : List Entry)
    → (table_gc env es).found ≡ true
    → is_some (claim_slot p r (table_gc env es).entries) ≡ true
unfolding table_gc sweep_past claim_slot
table_gc-found env p r [] h = cc
table_gc-found env p r (e ∷ es) h = elim (Option-cases (pin e)) [
  | inl n ↦ ground (arith, table_gc-found env p r es)
  | inr (q, s) ↦ ground (arith, table_gc-found env p r es)
]

-- An entry with one reference, the producer's, for the inode, handler data and probe of the
-- registration, installed by the process, and nothing read yet.
abbrev pub with_one_reference : Process → Registration → Entry
with_one_reference p r = record {
  refcount = pos 1;
  probe_fd = r.probe_fd;
  dev = r.dev;
  ino = r.ino;
  has_release = r.has_release;
  userptr = r.userptr;
  flags = r.flags;
  position = 0;
  install = p;
}

-- What claiming a slot does to the entries.
claim_slot-counts :
    (p : Process) (r : Registration) (es es' : List Entry) (i : ℕ)
    → claim_slot p r es ≡ some (es', i)
    → AllRest es
    → (live_count es' ≡ live_count es + 1)
      × AllRest es'
      × (get_elem? es' i ≡ some (with_one_reference p r))
unfolding claim_slot fresh_entry
claim_slot-counts p r [] es' i e h = cc
claim_slot-counts p r (x ∷ es) es' i e h = elim (Bool-cases (int_eq x.refcount (pos 0))) [
  | inl y ↦ ground (arith, (int_eq_iff x.refcount (pos 0)).0)
  | inr n ↦ elim (Option-cases (claim_slot p r es)) [
    | inl none_free ↦ ground arith
    | inr ((rest, j), s) ↦ ground (arith, claim_slot-counts p r es rest j s h.1)
  ]
]

-- The table after the sweep of a full one.
abbrev pub swept : Env → Table → Table
swept env t = record {
  entries = (table_gc env t.entries).entries;
  live_entries = t.live_entries - (table_gc env t.entries).freed;
  log = t.log ++ (table_gc env t.entries).events;
}

swept-IsConsistent : (env : Env) (t : Table) → IsConsistent t → IsConsistent (swept env t)
swept-IsConsistent env t c =
    let (n, r) = table_gc-counts env t.entries c.rest in
    record { rest = r; counted = omega (arith, n, c.counted) }

pub register-claim :
    (f : ℕ) (env : Env) (r : Registration) (t : Table) (es : List Entry) (i : ℕ)
    → claim_slot env.self r t.entries ≡ some (es, i)
    → register (suc f) env r t
      ≡ (record t { entries = es; live_entries = t.live_entries + 1 }, some i)
unfolding register
register-claim f env r t es i e = rw (e, register)

pub register-swept :
    (f : ℕ) (env : Env) (r : Registration) (t : Table)
    → claim_slot env.self r t.entries ≡ none
    → register (suc f) env r t ≡ (elim (table_gc env t.entries).found [
      | true ↦ register f env r (swept env t)
      | false ↦ (swept env t, none)
    ])
unfolding register
register-swept f env r t e = rw (e, register)

abbrev pub Placed : Process → Registration → Table × Option ℕ → Type 0
Placed p r (t, none) = Unit {0}
Placed p r (t, some i) = get_elem? t.entries i ≡ some (with_one_reference p r)

-- A registration keeps the table consistent, and one that succeeds has put in the slot that it
-- names an entry with one reference, the registration's inode, handler data, flags and probe, the
-- position 0 and the calling process as its installer.
pub register-IsConsistent :
    (f : ℕ) (env : Env) (r : Registration) (t : Table)
    → IsConsistent t
    → IsConsistent (register f env r t).0 × Placed env.self r (register f env r t)
register-IsConsistent zero env r t c = unfold register in (c, tt)
register-IsConsistent (suc f) env r t c = elim (Option-cases (claim_slot env.self r t.entries)) [
  | inr ((es, i), e) ↦
      let (n, rest, got) = claim_slot-counts env.self r t.entries es i e c.rest in
      rw (register-claim f env r t es i e)
        (record { rest = rest; counted = omega (arith, n, c.counted) }, got)
  | inl e ↦ rw (register-swept f env r t e) (elim (Bool-cases (table_gc env t.entries).found) [
    | inr z ↦ rw z (swept-IsConsistent env t c, tt)
    | inl y ↦ rw y (register-IsConsistent f env r (swept env t) (swept-IsConsistent env t c))
  ])
]

register-claimed :
    (f : ℕ) (env : Env) (r : Registration) (t : Table)
    → is_some (claim_slot env.self r t.entries) ≡ true
    → is_some (register (suc f) env r t).1 ≡ true
unfolding register
register-claimed f env r t h = ground arith

-- One retry is enough: with fuel 2 or more, registration fails only if every slot is taken and the
-- sweep frees none.
pub register_fails_only_when_full :
    (f : ℕ) (env : Env) (r : Registration) (t : Table)
    → is_some (register (suc (suc f)) env r t).1
      ≡ (is_some (claim_slot env.self r t.entries) || (table_gc env t.entries).found)
register_fails_only_when_full f env r t =
    let free = table_gc-found env env.self r t.entries in
    elim (Option-cases (claim_slot env.self r t.entries)) [
      | inr ((es, i), e) ↦ ground (arith, register-claim (suc f) env r t es i e)
      | inl e ↦
          ground
            (arith, register-swept (suc f) env r t e, free, register-claimed f env r (swept env t))
    ]

find_live-counts :
    (dev ino : ℕ) (es : List Entry)
    → AllRest es
    → (live_count (pin_at (find_live dev ino es) es) ≡ live_count es)
      × AllRest (pin_at (find_live dev ino es) es)
unfolding find_live pin_at
find_live-counts dev ino [] h = (refl, tt)
find_live-counts dev ino (e ∷ es) h = ground (arith, find_live-counts dev ino es h.1)

-- Pinning the entry of a descriptor keeps the table consistent, runs no handler and closes nothing.
pub pin_fd-IsConsistent :
    (env : Env) (fd : ℤ) (t : Table)
    → IsConsistent t
    → IsConsistent (pin_fd env fd t).0 × ((pin_fd env fd t).0.log ≡ t.log)
unfolding pin_fd
pin_fd-IsConsistent env fd t c = elim (Option-cases (env.fstat fd)) [
  | inl n ↦ rw (n, pin_fd) (c, refl)
  | inr ((dev, ino), s) ↦
      let (n, r) = find_live-counts dev ino t.entries c.rest in
      rw (s, pin_fd, pin_lookup_lem dev ino t.entries)
        (record { rest = r; counted = omega (arith, n, c.counted) }, append-nil t.log)
]
