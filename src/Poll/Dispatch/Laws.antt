-- ===== src/Poll/Dispatch/Laws.antt =====
-- What the caller of poll sees.
use wslcompat.Prelude.{
  ℕ, ◌≡◌, refl, ap, ◌∙◌, ◌⊎◌, Bool, true, false, List, [], ◌∷◌, map, arith, ret, fail,
}
use wslcompat.Prelude.Int.{ℤ, is_neg}
use wslcompat.Poll.Swap.{PollFd, poll_swap_in}
use wslcompat.Poll.Swap.Laws.{overlay, Same, poll_swap_roundtrip, translated, Same-overlay}
use wslcompat.Poll.Dispatch.{
  Kernel, Outcome, kernel_call, poll_canary_fired, swapped_call, canary_retry, after_wait,
  after_probe, poll_dispatch,
}

Same-refl : (ps : List PollFd) → Same ps ps
Same-refl [] = tt
Same-refl (p ∷ ps) = (refl, refl, Same-refl ps)

Same-trans : (ps qs rs : List PollFd) → Same ps qs → Same qs rs → Same ps rs
Same-trans [] [] [] h k = tt
Same-trans [] [] (r ∷ rs) h k = absurd k
Same-trans [] (q ∷ qs) rs h k = absurd h
Same-trans (p ∷ ps) [] rs h k = absurd h
Same-trans (p ∷ ps) (q ∷ qs) [] h k = absurd k
Same-trans (p ∷ ps) (q ∷ qs) (r ∷ rs) h k = (h.0 ∙ k.0, h.1 ∙ k.1, Same-trans ps qs rs h.2 k.2)

module _ (backing : ℤ → ℤ) (kernel : Kernel) where
  -- A call with the synthetic descriptors swapped, with nothing left of the swap.
  swapped_call-overlay :
      (k : ℕ) (ps : List PollFd)
      → swapped_call backing kernel k ps ≡ (
        (kernel k true (poll_swap_in backing 0 0 ps).0).0,
        overlay (kernel k true (poll_swap_in backing 0 0 ps).0).1 ps,
      )
  unfolding swapped_call kernel_call
  swapped_call-overlay k ps =
      ap (λ l. ((kernel k true (poll_swap_in backing 0 0 ps).0).0, l))
        (poll_swap_roundtrip backing (kernel k true (poll_swap_in backing 0 0 ps).0).1 ps)

  swapped_call-Same : (k : ℕ) (ps : List PollFd) → Same (swapped_call backing kernel k ps).1 ps
  swapped_call-Same k ps =
      rw (swapped_call-overlay k ps)
        (Same-overlay backing (kernel k true (poll_swap_in backing 0 0 ps).0).1 ps)

  kernel_call-Same :
      (k : ℕ) (w : Bool) (ps : List PollFd) → Same (kernel_call backing kernel k w ps).1 ps
  unfolding kernel_call
  kernel_call-Same k w ps = Same-overlay backing (kernel k w ps).1 ps

  canary_retry-Same : (ps : List PollFd) (n : ℕ) → Same (canary_retry backing kernel ps n).1 ps
  unfolding canary_retry
  canary_retry-Same ps n = ground (arith, Same-refl ps, swapped_call-Same 2 ps)

  after_wait-Same : (o : Outcome) → Same (after_wait backing kernel o).1 o.1
  unfolding after_wait
  after_wait-Same (fail e, ps) = Same-refl ps
  after_wait-Same (ret n, ps) = ground (arith, Same-refl ps, canary_retry-Same ps n)

  after_probe-Same : (o : Outcome) → Same (after_probe backing kernel o).1 o.1
  unfolding after_probe
  after_probe-Same (fail e, ps) = Same-refl ps
  after_probe-Same (ret n, ps) =
      let again = kernel_call backing kernel 1 true ps in
      let more = Same-trans _ _ _ (after_wait-Same again) (kernel_call-Same 1 true ps) in
      ground (arith, swapped_call-Same 1 ps, more, after_wait-Same (ret n, ps))

  -- On every branch poll hands the caller's array back with the descriptors and events that the
  -- caller put there: no real descriptor is left in it.
  pub poll_dispatch_restores :
      (passthru active : Bool) (ps : List PollFd)
      → Same (poll_dispatch backing kernel passthru active ps).1 ps
  unfolding poll_dispatch
  poll_dispatch_restores passthru active ps =
      let probe = kernel_call backing kernel 0 false ps in
      let more = Same-trans _ _ _ (after_probe-Same probe) (kernel_call-Same 0 false ps) in
      ground (arith, kernel_call-Same 0 true ps, more)

  -- The outcome is the kernel's for the entries of `ps` with every synthetic descriptor translated.
  abbrev pub Translated : List PollFd → Outcome → Type 0
  Translated ps out =
      (k : ℕ) × (ps' : List PollFd) × Same ps' ps
      × (out ≡ (
        (kernel k true (map (translated backing) ps')).0,
        overlay (kernel k true (map (translated backing) ps')).1 ps',
      ))

  -- Each entry that is reported has a descriptor that is not a synthetic one with a backing
  -- descriptor: there is none, or it is the descriptor itself.
  abbrev pub NoneReported : List PollFd → Type 0
  NoneReported [] = Unit {0}
  NoneReported (p ∷ ps) =
      ((p.revents ≡ 0) ⊎ (is_neg (backing p.fd) ≡ true) ⊎ (backing p.fd ≡ p.fd)) × NoneReported ps

  -- No backed synthetic descriptor is reported, or the report is about its translation.
  abbrev pub IsAnswer : List PollFd → Outcome → Type 0
  IsAnswer ps out = NoneReported out.1 ⊎ Translated ps out

  -- The same by the test of the code.
  abbrev Answered : List PollFd → Outcome → Type 0
  Answered ps out = (poll_canary_fired backing kernel out.1 ≡ false) ⊎ Translated ps out

  -- An outcome that reports nothing: an error, or no entries.
  abbrev IsQuiet : Outcome → Type 0
  IsQuiet (fail e, ps) = Unit {0}
  IsQuiet (ret n, ps) = n ≡ 0
