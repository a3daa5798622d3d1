-- ===== src/Memory.antt =====
-- mmap.c: the emulation of MAP_FIXED_NOREPLACE and MAP_LOCKED, and maps of synthetic descriptors. A
-- run is the trace of its calls with their results; the kernel is an oracle for the number of the
-- call. A mapping is known by its address, since all those of one run have the same length.
pub mod Owned
mod Tests
use wslcompat.Prelude.{
  ℕ, zero, suc, ◌+◌, ◌-◌, ◌*◌, ◌/◌, ◌%◌, ◌^◌, ◌≤◌, ◌<◌, ◌≡◌, refl, sym, ap, ◌∙◌, ◌≢◌, ◌↔◌, ◌⊎◌, inl,
  inr, Bool, true, false, not, ◌&&◌, ◌||◌, Option, none, some, List, [], ◌∷◌, ◌++◌, map, arith, ltb,
  leb, ◌==◌, if◌then◌else◌, ltb→lt, lt→ltb, leb→le, ==_iff, ==_self, Bool-cases, Option-cases,
  length, get_elem?, get_or, set, take, drop, replicate, length-append, length-set,
  get_elem?-set_self, get_elem?-set_ne, length-replicate, length-map, length-snoc, append-cons,
  is_some, Res, ret, fail, eperm, enoent, eintr, e2big, enoexec, ebadf, ewouldblock, enomem, efault,
  eexist, enodev, einval, enfile, enosys, enoprotoopt, eopnotsupp,
}
use wslcompat.Prelude.Int.{ℤ, pos, negsuc, minus_one, int_eq, is_neg, int_eq_iff, int_eq_self}

-- MAP_FIXED, MAP_FIXED_NOREPLACE, MAP_LOCKED, and the other bits of `flags`.
pub record Flags : Type 0 where
  pub fixed : Bool
  pub noreplace : Bool
  pub locked : Bool
  pub others : ℕ

pub record Request : Type 0 where
  pub addr : ℕ
  pub length : ℕ
  pub prot : ℕ
  pub flags : Flags
  pub fd : ℤ
  pub offset : ℕ

-- The operations of the entry behind a synthetic descriptor, as far as the map uses them: `mmap`,
-- with its result, and `passthru`, with the descriptor that it gives.
pub record SynthOps : Type 0 where
  pub map_op : Option (Res ℕ)
  pub passthru_op : Option ℤ

pub record Kernel : Type 0 where
  pub mmap_call : (k : ℕ) → Request → Res ℕ
  pub mlock : ℕ → Bool  -- mlock(result, length) == 0
  pub synth : ℤ → Option SynthOps
  pub passthru : Bool

pub data Event : Type 0 where
  mapped : Request → ℕ → Event
  refused : Request → Event
  unmapped : ℕ → Event

abbrev pub Trace : Type 0
Trace = List Event × Res ℕ

infixr 60 ◌then◌
abbrev pub ◌then◌ : Event → Trace → Trace
e then (es, r) = (e ∷ es, r)

-- One call: its event, and what follows a success or a failure.
unfoldable pub call : Kernel → (k : ℕ) → Request → (done : ℕ → Trace) → (failed : ℕ → Trace) → Trace
call K k r done failed = elim (K.mmap_call k r) [
  | ret a ↦ mapped r a then done a
  | fail e ↦ refused r then failed e
]

-- mlock on the new mapping, if the caller wants it.
unfoldable pub lock : Kernel → Request → ℕ → Trace
lock K r a =
    if r.flags.locked && not (K.mlock a) then (unmapped a ∷ [], fail enomem) else ([], ret a)

-- The last call, with the flags that the kernel knows. `reserved` says that the range was reserved
-- at `r.addr`: then MAP_FIXED is added, and on failure the reservation is undone.
unfoldable pub map_again : Kernel → Request → (reserved : Bool) → Trace
map_again K r reserved =
    call K 3
      (record r {
        flags = record (r.flags) {
          fixed = r.flags.fixed || reserved;
          noreplace = false;
          locked = false;
        };
      })
      (λ a. lock K r a) (λ e. (if reserved then unmapped (r.addr) ∷ [] else [], fail e))

-- PROT_NONE, MAP_PRIVATE | MAP_ANONYMOUS, and no descriptor.
unfoldable pub reservation : Request → Request
reservation r = record r {
  prot = 0;
  flags = record { fixed = false; noreplace = false; locked = false; others = 34 };
  fd = minus_one;
  offset = 0;
}

unfoldable pub reserve : Kernel → Request → Trace
reserve K r =
    if r.addr == 0
    then ([], fail eperm)
    else if not (r.addr % 4096 == 0)
    then ([], fail einval)
    else call K 2 (reservation r)
        (λ p. if p == r.addr then map_again K r true else (unmapped p ∷ [], fail eexist))
        (λ e. ([], fail e))

-- From the test of `errno` on.
unfoldable pub emulate : Kernel → Request → (errno : ℕ) → Trace
emulate K r e =
    if not (e == einval) && not (e == eopnotsupp)
    then ([], fail e)
    else if not (r.flags.noreplace || r.flags.locked)
    then ([], fail e)
    else if r.flags.noreplace
    then reserve K r
    else map_again K r false

-- mmap_synth_fallback, and what follows. It replaces the caller's `fd`, even on failure.
unfoldable pub through_passthru : Kernel → Request → Option ℤ → Trace
through_passthru K r none = emulate K r enodev
through_passthru K r (some real) =
    if is_neg real
    then emulate K (record r { fd = real }) enodev
    else call K 1 (record r { fd = real }) (λ a. ([], ret a))
        (λ e. emulate K (record r { fd = real }) e)

unfoldable pub through_ops : Kernel → Request → SynthOps → Trace
through_ops K r ops = elim ops.map_op [
  | none ↦ through_passthru K r ops.passthru_op
  | some (ret a) ↦ (mapped r a ∷ [], ret a)
  | some (fail e) ↦ refused r then emulate K r e
]

unfoldable pub synth_fallback : Kernel → Request → Trace
synth_fallback K r = elim (K.synth r.fd) [
  | none ↦ emulate K r ebadf
  | some ops ↦ through_ops K r ops
]

unfoldable pub mmap : Kernel → Request → Trace
mmap K r =
    call K 0 r (λ a. ([], ret a))
      (λ e.
        if K.passthru
        then ([], fail e)
        else if e == ebadf
        then synth_fallback K r
        else emulate K r e)
