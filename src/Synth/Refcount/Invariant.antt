-- ===== src/Synth/Refcount/Invariant.antt =====
-- The invariant of the reference count, kept by every action under the discipline.
use wslcompat.Prelude.{
  ℕ, zero, suc, ◌+◌, ◌-◌, ◌<◌, ◌≡◌, refl, sym, true, some, List, [], ◌∷◌, ◌++◌, arith,
  if◌then◌else◌, replicate,
}
use wslcompat.Prelude.Int.{ℤ, pos, negsuc, minus_one, int_eq_iff}
use mathlib.Core.Path.{transport}
use wslcompat.Synth.Refcount.{
  Shared, Pc, ready, pinning, unpinning, cleaning, claimed, Thread, Action, pin_exchange,
  unpin_load, unpin_exchange, clean, claim, publish, drop_producer, positive, pin_exchange_at,
  unpin_exchange_at, act, System, Step, step, idle, Reach, start, later,
}

-- Is the thread the cleaner; is it registering?
abbrev pub cleaner : Pc → ℕ
cleaner cleaning = 1
cleaner _ = 0

abbrev pub claimer : Pc → ℕ
claimer claimed = 1
claimer _ = 0

abbrev pub total : (Thread → ℕ) → List Thread → ℕ
total w [] = 0
total w (t ∷ ts) = w t + total w ts

abbrev pub refs_of : Thread → ℕ
refs_of t = t.refs

abbrev pub cleaner_of : Thread → ℕ
cleaner_of t = cleaner t.pc

abbrev pub claimer_of : Thread → ℕ
claimer_of t = claimer t.pc

-- A thread about to drop a reference has one, and has seen a positive count.
abbrev pub IsLocal : Pc → ℕ → Type 0
IsLocal (unpinning cur) refs = (positive cur ≡ true) × (0 < refs)
IsLocal _ refs = Unit {0}

abbrev pub Counts : ℤ → (references busy : ℕ) → Type 0
Counts (pos n) references busy = (n ≡ references) × (busy ≡ 0)
Counts (negsuc zero) references busy = (references ≡ 0) × (busy ≡ 1)
Counts (negsuc (suc n)) references busy = ⊥

-- 1 while the slot is live.
abbrev pub live : ℤ → ℕ
live c = if positive c then 1 else 0

-- The invariant, from the sums over all threads.
pub record Balanced (s : Shared) (refs cleaners claimers : ℕ) : Type 0 where
  pub counts : Counts s.refcount (refs + s.producer) (cleaners + claimers)
  pub once : s.published ≡ s.released + cleaners + live s.refcount

pub Counts-busy : (c : ℤ) (r b : ℕ) → Counts c r b → 0 < b → (c ≡ minus_one) × (r ≡ 0) × (b ≡ 1)
Counts-busy (pos n) r b h lt = absurd (omega arith)
Counts-busy (negsuc zero) r b h lt = (refl, h.0, h.1)
Counts-busy (negsuc (suc n)) r b h lt = absurd h

pub Counts-held : (c : ℤ) (r b : ℕ) → Counts c r b → 0 < r → (positive c ≡ true) × (b ≡ 0)
Counts-held (pos n) r b h lt = ground arith
Counts-held (negsuc zero) r b h lt = absurd (omega arith)
Counts-held (negsuc (suc n)) r b h lt = absurd h

Counts-eq : (c : ℤ) (r r' b : ℕ) → Counts c r b → r ≡ r' → Counts c r' b
Counts-eq c r r' b h e = rw e at h

module _ (s : Shared) (refs cleaners claimers : ℕ) where
  -- The thread in view, and the sums over the others.
  abbrev At : Shared → Pc → ℕ → Type 0
  At s' pc own =
      Balanced s' (own + refs) (cleaner pc + cleaners) (claimer pc + claimers) × IsLocal pc own

  act-At :
      (a : Action) (pc : Pc) (t : Thread) {s' : Shared} {t' : Thread}
      → act true a s pc t ≡ some (s', t')
      → Balanced s (t.refs + refs) (cleaner pc + cleaners) (claimer pc + claimers)
      → IsLocal pc t.refs
      → Balanced s' (t'.refs + refs) (cleaner t'.pc + cleaners) (claimer t'.pc + claimers)
        × IsLocal t'.pc t'.refs
  unfolding act pin_exchange_at unpin_exchange_at
  act-At pin_exchange (pinning cur) t e b l = ground (arith, (int_eq_iff s.refcount cur).0)
  act-At unpin_exchange (unpinning cur) t e b l =
      ground (arith, (int_eq_iff s.refcount cur).0, (int_eq_iff cur (pos 1)).0)
  act-At claim ready t e b l = ground (arith, (int_eq_iff s.refcount (pos 0)).0)
  act-At publish claimed t e b l = ground (arith, Counts-busy s.refcount _ _ b.counts (omega arith))
  act-At clean cleaning t e b l = ground (arith, Counts-busy s.refcount _ _ b.counts (omega arith))
  act-At drop_producer ready t e b l =
      ground (arith, Counts-eq s.refcount _ (t.refs + 1 + refs + (s.producer - 1)) _ b.counts)
  act-At unpin_load ready t e b l = ground (arith, Counts-held s.refcount _ _ b.counts)
  act-At a pc t e b l = ground arith

abbrev pub AllLocal : List Thread → Type 0
AllLocal [] = Unit {0}
AllLocal (t ∷ ts) = IsLocal t.pc t.refs × AllLocal ts

-- The invariant of the whole system.
pub record Inv (s : System) : Type 0 where
  pub balanced :
      Balanced s.shared
        (total refs_of s.threads)
        (total cleaner_of s.threads)
        (total claimer_of s.threads)
  pub locals : AllLocal s.threads

total-middle :
    (w : Thread → ℕ) (xs ys : List Thread) (t : Thread)
    → total w (xs ++ t ∷ ys) ≡ w t + (total w xs + total w ys)
total-middle w [] ys t = omega arith
total-middle w (x ∷ xs) ys t = omega (arith, total-middle w xs ys t)

AllLocal-at : (xs ys : List Thread) (t : Thread) → AllLocal (xs ++ t ∷ ys) → IsLocal t.pc t.refs
AllLocal-at [] ys t h = h.0
AllLocal-at (x ∷ xs) ys t h = AllLocal-at xs ys t h.1

AllLocal-update :
    (xs ys : List Thread) (t t' : Thread)
    → AllLocal (xs ++ t ∷ ys)
    → IsLocal t'.pc t'.refs
    → AllLocal (xs ++ t' ∷ ys)
AllLocal-update [] ys t t' h l = (l, h.1)
AllLocal-update (x ∷ xs) ys t t' h l = (h.0, AllLocal-update xs ys t t' h.1 l)

Balanced-middle :
    (s : Shared) (xs ys : List Thread) (t : Thread)
    → Balanced s
        (total refs_of (xs ++ t ∷ ys))
        (total cleaner_of (xs ++ t ∷ ys))
        (total claimer_of (xs ++ t ∷ ys))
      ≡ Balanced s
          (t.refs + (total refs_of xs + total refs_of ys))
          (cleaner t.pc + (total cleaner_of xs + total cleaner_of ys))
          (claimer t.pc + (total claimer_of xs + total claimer_of ys))
Balanced-middle s xs ys t =
    simp (
      total-middle refs_of xs ys t,
      total-middle cleaner_of xs ys t,
      total-middle claimer_of xs ys t,
    )

-- Every step under the discipline keeps the invariant.
pub Step-Inv : {s s' : System} → Step true s s' → Inv s → Inv s'
Step-Inv {s} (step a xs ys t {s'} {t'} e act_eq) inv =
    let locals : AllLocal (xs ++ t ∷ ys) = rw e at inv.locals in
    let b = transport (Balanced-middle s.shared xs ys t) (rw e at inv.balanced) in
    let (b', l') = act-At s.shared _ _ _ a t.pc t act_eq b (AllLocal-at xs ys t locals) in
    record {
      balanced = transport (sym (Balanced-middle s' xs ys t')) b';
      locals = AllLocal-update xs ys t t' locals l';
    }

total-idle : (w : Thread → ℕ) (n : ℕ) → w idle ≡ 0 → total w (replicate n idle) ≡ 0
total-idle w zero h = refl
total-idle w (suc n) h = omega (arith, total-idle w n h)

AllLocal-idle : (n : ℕ) → AllLocal (replicate n idle)
AllLocal-idle zero = tt
AllLocal-idle (suc n) = (tt, AllLocal-idle n)

pub Reach-Inv : {n : ℕ} {s : System} → Reach true n s → Inv s
Reach-Inv {n} start =
    let r = total-idle refs_of n refl in
    let c = total-idle cleaner_of n refl in
    let k = total-idle claimer_of n refl in
    record {
      balanced = record { counts = omega (arith, r, c, k); once = omega (arith, c) };
      locals = AllLocal-idle n;
    }
Reach-Inv (later r st) = Step-Inv st (Reach-Inv r)
