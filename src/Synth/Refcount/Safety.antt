-- ===== src/Synth/Refcount/Safety.antt =====
-- What holds in every reachable state under the discipline.
use wslcompat.Prelude.{ℕ, ◌+◌, ◌≤◌, ◌<◌, ◌≡◌, true, List, [], ◌∷◌, ◌++◌, arith}
use wslcompat.Prelude.Int.{pos, minus_one}
use wslcompat.Synth.Refcount.{Thread, positive, System, Reach}
use wslcompat.Synth.Refcount.Invariant.{
  Counts, Counts-busy, Counts-held, Reach-Inv, live, total, refs_of, cleaner_of, claimer_of,
}

total-mem : (w : Thread → ℕ) (xs ys : List Thread) (t : Thread) → w t ≤ total w (xs ++ t ∷ ys)
total-mem w [] ys t = omega arith
total-mem w (x ∷ xs) ys t = omega (arith, total-mem w xs ys t)

module _ {n : ℕ} {s : System} (r : Reach true n s) where
  open (Reach-Inv r).balanced use {counts, once}

  -- In every state of a run whose threads drop the producer's reference only while it is there:
  -- while some thread holds a reference, the slot is live, with a positive count, and no thread
  -- cleans it up or registers it anew.
  pub reference_keeps_slot :
      (before after : List Thread) (t : Thread)
      → s.threads ≡ before ++ t ∷ after
      → 0 < t.refs
      → (positive s.shared.refcount ≡ true)
        × (total cleaner_of s.threads ≡ 0)
        × (total claimer_of s.threads ≡ 0)
  reference_keeps_slot before after t e h =
      let mem : t.refs ≤ total refs_of s.threads = rw e (total-mem refs_of before after t) in
      let (p, b) = Counts-held s.shared.refcount _ _ counts (omega (arith, mem)) in
      (p, omega (arith, b), omega (arith, b))

  -- In every state of a run that drops the producer's reference only while it is there: while some
  -- thread is cleaning up or registering the slot, it is the only one, the count is -1, no thread
  -- holds a reference and the producer's reference is gone.
  pub one_owner_of_transient :
      0 < total cleaner_of s.threads + total claimer_of s.threads
      → (total cleaner_of s.threads + total claimer_of s.threads ≡ 1)
        × (s.shared.refcount ≡ minus_one)
        × (total refs_of s.threads + s.shared.producer ≡ 0)
  one_owner_of_transient h = let (c, z, o) = Counts-busy s.shared.refcount _ _ counts h in (o, c, z)

  -- In every state of a run that drops the producer's reference only while it is there: a slot is
  -- released exactly once for each publication. The two counts differ by one while the slot is
  -- live or being cleaned up, and agree otherwise.
  pub released_once :
      s.shared.published ≡ s.shared.released + total cleaner_of s.threads + live s.shared.refcount
  released_once = once

  -- In every state of a run that drops the producer's reference only while it is there: the count
  -- of a slot that is not in transition is the number of references, the producer's included.
  pub refcount_counts :
      (c : ℕ) → s.shared.refcount ≡ pos c → c ≡ total refs_of s.threads + s.shared.producer
  refcount_counts c e = let at_pos : Counts (pos c) _ _ = rw e at counts in at_pos.0
