-- ===== src/Synth/Refcount.antt =====
-- synth.c: the `refcount` of one table slot, under any interleaving of threads that pin it
-- (`synth_pin`), drop a reference (`wslcompat_synth_unpin`) and register it (`synth_register`).
-- Each atomic access is a step of its own. Ghost fields count the producer's reference, and how
-- often the slot was published and released.
pub mod Invariant
pub mod Safety
mod Tests
use wslcompat.Prelude.{
  ℕ, zero, suc, ◌+◌, ◌-◌, ◌*◌, ◌/◌, ◌%◌, ◌^◌, ◌≤◌, ◌<◌, ◌≡◌, refl, sym, ap, ◌∙◌, ◌≢◌, ◌↔◌, ◌⊎◌, inl,
  inr, Bool, true, false, not, ◌&&◌, ◌||◌, Option, none, some, List, [], ◌∷◌, ◌++◌, map, arith, ltb,
  leb, ◌==◌, if◌then◌else◌, ltb→lt, lt→ltb, leb→le, ==_iff, ==_self, Bool-cases, Option-cases,
  length, get_elem?, get_or, set, take, drop, replicate, length-append, length-set,
  get_elem?-set_self, get_elem?-set_ne, length-replicate, length-map, is_some, Res, ret, fail,
  eperm, enoent, eintr, e2big, enoexec, ebadf, ewouldblock, enomem, efault, eexist, enodev, einval,
  enfile, enosys, enoprotoopt, eopnotsupp,
}
use wslcompat.Prelude.Int.{ℤ, pos, negsuc, minus_one, int_eq, is_neg, int_eq_iff, int_eq_self}

-- 0: free, -1: being claimed or cleaned up, else the number of references.
pub record Shared : Type 0 where
  pub refcount : ℤ
  pub producer : ℕ
  pub published : ℕ
  pub released : ℕ

-- Where a thread stands, with the local `cur`.
pub data Pc : Type 0 where
  ready : Pc
  pinning : ℤ → Pc  -- in the loop of synth_pin
  unpinning : ℤ → Pc  -- in the loop of wslcompat_synth_unpin
  cleaning : Pc  -- the unique cleaner, before it stores 0
  claimed : Pc  -- in synth_register, between the claim and the publication

pub record Thread : Type 0 where
  pub pc : Pc
  pub refs : ℕ  -- the references that the thread must still drop

pub data Action : Type 0 where
  pin_load pin_exchange pin_spurious unpin_load unpin_exchange unpin_spurious : Action
  clean claim publish drop_producer : Action

-- cur > 0
abbrev pub positive : ℤ → Bool
positive (pos n) = not (n == 0)
positive (negsuc _) = false

-- cur + 1 of a positive count
abbrev pub succ_count : ℤ → ℤ
succ_count (pos n) = pos (n + 1)
succ_count (negsuc n) = negsuc n

-- (cur == 1) ? -1 : (cur - 1)
abbrev pub next_count : ℤ → ℤ
next_count (pos n) = if n == 1 then minus_one else pos (n - 1)
next_count (negsuc n) = negsuc n

abbrev pub at_pc : Pc → Shared → Thread → Option (Shared × Thread)
at_pc pc s t = some (s, record t { pc = pc })

-- An exchange in the loop of synth_pin: leave the loop, gain a reference, or go round again.
pub pin_exchange_at : ℤ → Shared → Thread → Option (Shared × Thread)
pin_exchange_at cur s t =
    if not (positive cur)
    then at_pc ready s t
    else if int_eq s.refcount cur
    then some (record s { refcount = succ_count cur }, record t { pc = ready; refs = t.refs + 1 })
    else at_pc (pinning s.refcount) s t

-- The same in wslcompat_synth_unpin. The loop may also end because there is nothing to drop.
pub unpin_exchange_at : ℤ → Shared → Thread → Option (Shared × Thread)
unpin_exchange_at cur s t =
    if not (positive cur)
    then some (s, record t { pc = ready; refs = t.refs - 1 })
    else if int_eq s.refcount cur
    then some (
      record s { refcount = next_count cur },
      record t { pc = (if int_eq cur (pos 1) then cleaning else ready); refs = t.refs - 1 },
    )
    else at_pc (unpinning s.refcount) s t

-- An action of a thread, `none` where it stands elsewhere. With `discipline`, a thread takes over
-- the producer's reference only while that is there; the code itself has no such test.
pub act : (discipline : Bool) → Action → Shared → Pc → Thread → Option (Shared × Thread)
act d pin_load s ready t = at_pc (pinning s.refcount) s t
act d pin_exchange s (pinning cur) t = pin_exchange_at cur s t
act d pin_spurious s (pinning cur) t = if positive cur then at_pc (pinning s.refcount) s t else none
act d unpin_load s ready t = if t.refs == 0 then none else at_pc (unpinning s.refcount) s t
act d unpin_exchange s (unpinning cur) t = unpin_exchange_at cur s t
act d unpin_spurious s (unpinning cur) t =
    if positive cur then at_pc (unpinning s.refcount) s t else none
act d clean s cleaning t = at_pc ready (record s { refcount = pos 0; released = s.released + 1 }) t
act d claim s ready t =
    if int_eq s.refcount (pos 0)
    then at_pc claimed (record s { refcount = minus_one }) t
    else at_pc ready s t
act d publish s claimed t =
    at_pc ready
      (record s { refcount = pos 1; producer = s.producer + 1; published = s.published + 1 }) t
act d drop_producer s ready t =
    if (t.refs == 0) || (d && (s.producer == 0))
    then none
    else some (record s { producer = s.producer - 1 }, record t { pc = ready; refs = t.refs + 1 })
act d _ s _ t = none

pub record System : Type 0 where
  pub shared : Shared
  pub threads : List Thread

-- One of the threads, the one behind `before`, acts.
pub data Step (d : Bool) (s : System) : System → Type 0 where
  step :
      (a : Action) (before after : List Thread) (t : Thread) {s' : Shared} {t' : Thread}
      → s.threads ≡ before ++ t ∷ after
      → act d a s.shared t.pc t ≡ some (s', t')
      → Step d s (record { shared = s'; threads = before ++ t' ∷ after })

abbrev pub idle : Thread
idle = record { pc = ready; refs = 0 }

-- A free slot, and `n` threads that have not begun.
abbrev pub init : ℕ → System
init n = record {
  shared = record { refcount = pos 0; producer = 0; published = 0; released = 0 };
  threads = replicate n idle;
}

pub data Reach (d : Bool) (n : ℕ) : System → Type 0 where
  start : Reach d n (init n)
  later : {s t : System} → Reach d n s → Step d s t → Reach d n t
