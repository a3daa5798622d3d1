-- ===== src/Synth/Table.antt =====
-- synth.c: the table of synthetic descriptors, as one thread of the process sees it between its
-- own calls (Refcount has the interleavings, Override the views of a vfork child: `probe_fd` is
-- here the value that this process loads). What the kernel says during a call is the parameter
-- `Env`.
pub mod Entries
pub mod Register
pub mod Close
pub mod Sweep
mod Tests
use wslcompat.Prelude.{
  ℕ, zero, suc, ◌+◌, ◌-◌, ◌*◌, ◌/◌, ◌%◌, ◌^◌, ◌≤◌, ◌<◌, ◌≡◌, refl, sym, ap, ◌∙◌, ◌≢◌, ◌↔◌, ◌⊎◌, inl,
  inr, Bool, true, false, not, ◌&&◌, ◌||◌, Option, none, some, List, [], ◌∷◌, ◌++◌, map, arith, ltb,
  leb, ◌==◌, if◌then◌else◌, ltb→lt, lt→ltb, leb→le, ==_iff, ==_self, Bool-cases, Option-cases,
  length, get_elem?, get_or, set, take, drop, replicate, length-append, length-set,
  get_elem?-set_self, get_elem?-set_ne, length-replicate, length-map, length-snoc, append-cons,
  is_some, Res, ret, fail, eperm, enoent, eintr, e2big, enoexec, ebadf, ewouldblock, enomem, efault,
  eexist, enodev, einval, enfile, enosys, enoprotoopt, eopnotsupp,
}
use wslcompat.Prelude.Int.{ℤ, pos, negsuc, minus_one, int_eq, is_neg, int_eq_iff, int_eq_self}
use wslcompat.Synth.Override.{Process}

-- struct synth_entry. `userptr` stands for the handler's state; `has_release` says whether the
-- handler's `release` callback is set.
pub record Entry : Type 0 where
  pub refcount : ℤ
  pub probe_fd : ℤ
  pub dev : ℕ
  pub ino : ℕ
  pub has_release : Bool
  pub userptr : ℕ
  pub flags : ℕ
  pub position : ℕ
  pub install : Process

-- Calls that the table makes: a handler's release, and close on a probe descriptor.
pub data Event : Type 0 where
  release_run : (userptr : ℕ) → Event
  closed : ℤ → Event

-- `live_entries` is synth_live_entries.
pub record Table : Type 0 where
  pub entries : List Entry
  pub live_entries : ℕ
  pub log : List Event

pub record Env : Type 0 where
  pub self : Process
  pub lock_exclusive : ℤ → Bool  -- flock(fd, LOCK_EX | LOCK_NB) == 0
  pub open_fds : List ℤ  -- /proc/self/fd
  pub fstat : ℤ → Option (ℕ × ℕ)  -- st_dev and st_ino

-- synth_pin
pub pin : Entry → Option Entry
pin e = elim e.refcount [
  | negsuc n ↦ none
  | pos n ↦ if n == 0 then none else some (record e { refcount = pos (n + 1) })
]

-- What an unpin does to an entry: the entry, the calls, and how many entries became free.
pub record Unpinned : Type 0 where
  pub entry : Entry
  pub events : List Event
  pub freed : ℕ

-- The unique cleaner's part of wslcompat_synth_unpin.
pub clean_up : Entry → Unpinned
clean_up e = record {
  entry = record e { refcount = pos 0; probe_fd = minus_one };
  events =
      (if e.has_release then release_run e.userptr ∷ [] else [])
      ++ (if int_eq e.probe_fd minus_one then [] else closed e.probe_fd ∷ []);
  freed = 1;
}

pub unpin : Entry → Unpinned
unpin e = elim e.refcount [
  | negsuc n ↦ record { entry = e; events = []; freed = 0 }
  | pos n ↦
      if n == 0
      then record { entry = e; events = []; freed = 0 }
      else if n == 1
      then clean_up e
      else record { entry = record e { refcount = pos (n - 1) }; events = []; freed = 0 }
]

pub matches : (dev ino : ℕ) → Entry → Bool
matches dev ino e = (e.dev == dev) && (e.ino == ino)

-- synth_pin_lookup over the entries: each is pinned, and unpinned again if it is not the one.
pub record Lookup : Type 0 where
  pub entries : List Entry
  pub index : Option ℕ
  pub events : List Event
  pub freed : ℕ

-- The result when an entry is passed over, from the result for the entries behind it.
pub look_past : Entry → List Event → ℕ → Lookup → Lookup
look_past e evs k rest = record {
  entries = e ∷ rest.entries;
  index = elim rest.index [ none ↦ none | some i ↦ some (suc i) ];
  events = evs ++ rest.events;
  freed = k + rest.freed;
}

pub pin_lookup : (dev ino : ℕ) → List Entry → Lookup
pin_lookup dev ino [] = record { entries = []; index = none; events = []; freed = 0 }
pin_lookup dev ino (e ∷ es) =
    let rest = pin_lookup dev ino es in
    elim (pin e) [
      | none ↦ look_past e [] 0 rest
      | some e' ↦
          if matches dev ino e'
          then record { entries = e' ∷ es; index = some 0; events = []; freed = 0 }
          else let u = unpin e' in look_past u.entry u.events u.freed rest
    ]

-- post_close_visit over /proc/self/fd: another descriptor of this process has the entry's inode.
pub found_other : Env → Entry → ℤ → List ℤ → Bool
found_other env e probe_fd [] = false
found_other env e probe_fd (fd ∷ fds) =
    let rest = found_other env e probe_fd fds in
    if int_eq fd probe_fd then rest else elim (env.fstat fd) [
      | none ↦ rest
      | some (dev, ino) ↦ if (dev == e.dev) && (ino == e.ino) then true else rest
    ]

-- synth_should_release
pub should_release : Env → Entry → Bool
should_release env e =
    if not (int_eq e.probe_fd minus_one) && env.lock_exclusive e.probe_fd
    then true
    else not (found_other env e e.probe_fd env.open_fds)

pub installed_by : Process → Entry → Bool
installed_by self e = (e.install.pid == self.pid) && (e.install.starttime == self.starttime)

-- Two unpins in a row.
pub unpin_twice : Entry → Unpinned
unpin_twice e =
    let u = unpin e in
    let v = unpin u.entry in
    record { entry = v.entry; events = u.events ++ v.events; freed = u.freed + v.freed }

-- wslcompat_synth_post_close on a pinned entry.
pub post_close : Env → Entry → Unpinned
post_close env e =
    if not (installed_by env.self e)
    then unpin e
    else if should_release env e
    then unpin_twice e
    else unpin e

-- synth_table_gc: close each live entry until one has become free.
pub record Swept : Type 0 where
  pub entries : List Entry
  pub events : List Event
  pub freed : ℕ
  pub found : Bool

pub sweep_past : Entry → List Event → ℕ → Swept → Swept
sweep_past e evs k rest = record {
  entries = e ∷ rest.entries;
  events = evs ++ rest.events;
  freed = k + rest.freed;
  found = rest.found;
}

pub table_gc : Env → List Entry → Swept
table_gc env [] = record { entries = []; events = []; freed = 0; found = false }
table_gc env (e ∷ es) =
    let rest = table_gc env es in
    elim (pin e) [
      | none ↦ sweep_past e [] 0 rest
      | some p ↦
          let u = post_close env p in
          if int_eq u.entry.refcount (pos 0)
          then record { entries = u.entry ∷ es; events = u.events; freed = u.freed; found = true }
          else sweep_past u.entry u.events u.freed rest
    ]

-- What synth_register writes into a slot.
pub record Registration : Type 0 where
  pub dev : ℕ
  pub ino : ℕ
  pub has_release : Bool
  pub userptr : ℕ
  pub flags : ℕ
  pub probe_fd : ℤ

pub fresh_entry : Process → Registration → Entry
fresh_entry self r = record {
  refcount = pos 1;
  probe_fd = r.probe_fd;
  dev = r.dev;
  ino = r.ino;
  has_release = r.has_release;
  userptr = r.userptr;
  flags = r.flags;
  position = 0;
  install = self;
}

-- The loop of synth_register: the first free slot is taken.
pub claim_slot : Process → Registration → List Entry → Option (List Entry × ℕ)
claim_slot self r [] = none
claim_slot self r (e ∷ es) =
    if int_eq e.refcount (pos 0)
    then some (fresh_entry self r ∷ es, 0)
    else elim (claim_slot self r es) [ none ↦ none | some (es', i) ↦ some (e ∷ es', suc i) ]

-- synth_register; it calls itself again when the sweep has freed a slot.
pub register : (fuel : ℕ) → Env → Registration → Table → Table × Option ℕ
register zero env r t = (t, none)
register (suc f) env r t = elim (claim_slot env.self r t.entries) [
  | some (es, i) ↦ (record t { entries = es; live_entries = t.live_entries + 1 }, some i)
  | none ↦
      let s = table_gc env t.entries in
      let t' : Table = record {
        entries = s.entries;
        live_entries = t.live_entries - s.freed;
        log = t.log ++ s.events;
      } in
      elim s.found [ true ↦ register f env r t' | false ↦ (t', none) ]
]

-- wslcompat_synth_pin_fd (and wslcompat_synth_pre_close)
pub pin_fd : Env → ℤ → Table → Table × Option ℕ
pin_fd env fd t = elim (env.fstat fd) [
  | none ↦ (t, none)
  | some (dev, ino) ↦
      let l = pin_lookup dev ino t.entries in
      (
        record {
          entries = l.entries;
          live_entries = t.live_entries - l.freed;
          log = t.log ++ l.events;
        },
        l.index,
      )
]
