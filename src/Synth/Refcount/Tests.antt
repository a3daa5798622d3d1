-- ===== src/Synth/Refcount/Tests.antt =====
-- Runs of the reference count, and the theorems of Safety at reachable states.
use wslcompat.Prelude.{
  ℕ, zero, suc, ◌+◌, ◌≡◌, refl, ap, Bool, true, false, Option, none, some, List, [], ◌∷◌, ◌++◌,
  arith,
}
use wslcompat.Prelude.Int.{minus_one}
use Prim.Native.Nat.{ℕ}
use wslcompat.Synth.Refcount.{
  Shared, ready, Thread, Action, pin_load, pin_exchange, unpin_load, unpin_exchange, clean, claim,
  publish, drop_producer, positive, pin_exchange_at, unpin_exchange_at, act, System, step, init,
  Reach, start, later,
}
use wslcompat.Synth.Refcount.Invariant.{total, refs_of, cleaner_of, claimer_of, live}
use wslcompat.Synth.Refcount.Safety.{
  reference_keeps_slot, one_owner_of_transient, released_once, refcount_counts,
}

-- One thread of a list, with the others before and behind it.
record Focus (ts : List Thread) : Type 0 where
  before : List Thread
  thread : Thread
  after : List Thread
  parts : ts ≡ before ++ thread ∷ after

focus : ℕ → (ts : List Thread) → Option (Focus ts)
focus i [] = none
focus zero (t ∷ ts) = some (record { before = []; thread = t; after = ts; parts = refl })
focus (suc i) (t ∷ ts) = elim (focus i ts) [
  | none ↦ none
  | some f ↦ some (record {
    before = t ∷ f.before;
    thread = f.thread;
    after = f.after;
    parts = ap (λ l. t ∷ l) f.parts;
  })
]

record Run (d : Bool) (n : ℕ) : Type 0 where
  last : System
  reach : Reach d n last

acted :
    {d : Bool} {n : ℕ} (r : Run d n) (a : Action) (f : Focus r.last.threads)
    (o : Option (Shared × Thread))
    → act d a r.last.shared f.thread.pc f.thread ≡ o
    → Run d n
acted r a f none e = r
acted r a f (some (s', t')) e = record {
  last = _;
  reach = later r.reach (step a f.before f.after f.thread f.parts e);
}

-- The thread at an index acts; an action that is not possible is passed over.
turn : {d : Bool} {n : ℕ} → Run d n → ℕ × Action → Run d n
unfolding acted
turn r (i, a) = elim (focus i r.last.threads) [ none ↦ r | some f ↦ acted r a f _ refl ]

run : (d : Bool) (n : ℕ) → List (ℕ × Action) → Run d n
unfolding focus turn act pin_exchange_at unpin_exchange_at
run d n = go (record { last = init n; reach = start })
  where
    go : Run d n → List (ℕ × Action) → Run d n
    go r [] = r
    go r (x ∷ xs) = go (turn r x) xs

pin : ℕ → List (ℕ × Action)
pin i = (i, pin_load) ∷ (i, pin_exchange) ∷ []

unpin : ℕ → List (ℕ × Action)
unpin i = (i, unpin_load) ∷ (i, unpin_exchange) ∷ []

register : ℕ → List (ℕ × Action)
register i = (i, claim) ∷ (i, publish) ∷ []

-- Thread 0 registers the slot, thread 1 pins it and takes over the producer's reference.
closing : Run true 2
unfolding run register pin
closing = run true 2 (register 0 ++ pin 1 ++ (1, drop_producer) ∷ [])

-- Thread 1 has dropped both references and is cleaning up.
cleaned : Run true 2
unfolding run register pin unpin
cleaned = run true 2 (register 0 ++ pin 1 ++ (1, drop_producer) ∷ [] ++ unpin 1 ++ unpin 1)

reference_keeps_slot_example :
    (positive closing.last.shared.refcount ≡ true)
    × (total cleaner_of closing.last.threads ≡ 0)
    × (total claimer_of closing.last.threads ≡ 0)
unfolding closing
reference_keeps_slot_example =
    reference_keeps_slot closing.reach (record { pc = ready; refs = 0 } ∷ []) []
      (record { pc = ready; refs = 2 }) refl (omega arith)

one_owner_of_transient_example :
    (total cleaner_of cleaned.last.threads + total claimer_of cleaned.last.threads ≡ 1)
    × (cleaned.last.shared.refcount ≡ minus_one)
    × (total refs_of cleaned.last.threads + cleaned.last.shared.producer ≡ 0)
unfolding cleaned
one_owner_of_transient_example = one_owner_of_transient cleaned.reach (omega arith)

released_once_example :
    cleaned.last.shared.published
    ≡ cleaned.last.shared.released
      + total cleaner_of cleaned.last.threads
      + live cleaned.last.shared.refcount
released_once_example = released_once cleaned.reach

refcount_counts_example :
    ◌≡◌ {A = ℕ} 2 (total refs_of closing.last.threads + closing.last.shared.producer)
unfolding closing
refcount_counts_example = refcount_counts closing.reach 2 refl

-- Without the discipline two closers may both drop the producer's reference. The second drop hits
-- the entry that thread 2 has registered in the meantime: it is cleaned up while its producer's
-- reference is still there.
double_drop : Run false 3
unfolding run register pin unpin
double_drop = run false 3 (
    register 2
    ++ pin 0
    ++ pin 1
    ++ (0, drop_producer) ∷ (1, drop_producer) ∷ []
    ++ unpin 0
    ++ unpin 0
    ++ unpin 1
    ++ (1, clean) ∷ []
    ++ register 2
    ++ unpin 1)

double_drop_destroys :
    (double_drop.last.shared.producer ≡ 1)
    × (double_drop.last.shared.published ≡ 2)
    × (double_drop.last.shared.refcount ≡ minus_one)
    × (total cleaner_of double_drop.last.threads ≡ 1)
unfolding double_drop
double_drop_destroys = (refl, refl, refl, refl)
