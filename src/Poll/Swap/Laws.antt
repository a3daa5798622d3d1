-- ===== src/Poll/Swap/Laws.antt =====
-- Swapping in translates, and swapping out restores, whatever the kernel reports in between.
use wslcompat.Prelude.{
  ℕ, suc, ◌+◌, ◌≤◌, ◌≡◌, refl, sym, ap, ◌∙◌, inl, inr, Bool, true, false, not, ◌&&◌, List, [], ◌∷◌,
  ◌++◌, map, arith, leb, if◌then◌else◌, Bool-cases, length, length-snoc, append-cons,
}
use wslcompat.Prelude.Int.{ℤ, is_neg}
use wslcompat.Poll.Swap.{PollFd, max_swaps, translate, poll_swap_in, set_fd, poll_swap_out}

-- What the kernel may change: the `revents` of each entry, in order.
unfoldable pub overlay : List ℕ → List PollFd → List PollFd
overlay [] ps = ps
overlay (r ∷ rs) [] = []
overlay (r ∷ rs) (p ∷ ps) = record p { revents = r } ∷ overlay rs ps

set_fd-middle :
    (pre ps : List PollFd) (p : PollFd) (fd : ℤ)
    → set_fd (pre ++ p ∷ ps) (length pre) fd ≡ pre ++ record p { fd = fd } ∷ ps
unfolding set_fd
set_fd-middle [] ps p fd = refl
set_fd-middle (x ∷ pre) ps p fd = ap (λ l. x ∷ l) (set_fd-middle pre ps p fd)

-- Two entries that differ at most in `revents`, pairwise.
abbrev pub Same : List PollFd → List PollFd → Type 0
Same [] [] = Unit {0}
Same [] (q ∷ qs) = ⊥
Same (p ∷ ps) [] = ⊥
Same (p ∷ ps) (q ∷ qs) = (p.fd ≡ q.fd) × (p.events ≡ q.events) × Same ps qs

-- The entries `qs` with the descriptors of `ps`.
pub restored : List PollFd → List PollFd → List PollFd
restored [] qs = []
restored (p ∷ ps) [] = []
restored (p ∷ ps) (q ∷ qs) = record q { fd = p.fd } ∷ restored ps qs

module _ (backing : ℤ → ℤ) where
  abbrev swaps : ℕ → PollFd → Bool
  swaps n p = not (is_neg (translate backing p.fd)) && not (leb max_swaps n)

  swap_in-swapped :
      (i n : ℕ) (p : PollFd) (ps : List PollFd)
      → swaps n p ≡ true
      → poll_swap_in backing i n (p ∷ ps) ≡ (
        record p { fd = translate backing p.fd } ∷ (poll_swap_in backing (i + 1) (n + 1) ps).0,
        record { idx = i; synth_fd = p.fd } ∷ (poll_swap_in backing (i + 1) (n + 1) ps).1,
      )
  unfolding poll_swap_in
  swap_in-swapped i n p ps e = simp e

  swap_in-kept :
      (i n : ℕ) (p : PollFd) (ps : List PollFd)
      → swaps n p ≡ false
      → poll_swap_in backing i n (p ∷ ps)
        ≡ (p ∷ (poll_swap_in backing (i + 1) n ps).0, (poll_swap_in backing (i + 1) n ps).1)
  unfolding poll_swap_in
  swap_in-kept i n p ps e = simp e

  swap_out-swap_in_at :
      (pre : List PollFd) (i n : ℕ) (ps qs : List PollFd)
      → i ≡ length pre
      → Same qs (poll_swap_in backing i n ps).0
      → poll_swap_out (poll_swap_in backing i n ps).1 (pre ++ qs) ≡ pre ++ restored ps qs
  unfolding poll_swap_out restored
  swap_out-swap_in_at pre i n [] [] e same = unfold poll_swap_in in refl
  swap_out-swap_in_at pre i n [] (q ∷ qs) e same = absurd (unfold poll_swap_in in same)
  swap_out-swap_in_at pre i n (p ∷ ps) [] e same = elim (Bool-cases (swaps n p)) [
    | inl y ↦ absurd (rw (swap_in-swapped i n p ps y) at same)
    | inr z ↦ absurd (rw (swap_in-kept i n p ps z) at same)
  ]
  swap_out-swap_in_at pre i n (p ∷ ps) (q ∷ qs) e same = elim (Bool-cases (swaps n p)) [
    | inl y ↦
        let same' : Same (q ∷ qs) (
            record p { fd = translate backing p.fd }
            ∷ (poll_swap_in backing (i + 1) (n + 1) ps).0) =
          rw (swap_in-swapped i n p ps y) at same in
        let q' = record q { fd = p.fd } in
        let ih =
          swap_out-swap_in_at (pre ++ q' ∷ []) (i + 1) (n + 1) ps qs
            (omega (arith, length-snoc pre q')) same'.2 in
        rw (swap_in-swapped i n p ps y) (
          ap (poll_swap_out (poll_swap_in backing (i + 1) (n + 1) ps).1) (
            ap (λ k. set_fd (pre ++ q ∷ qs) k p.fd) e
            ∙ set_fd-middle pre qs q p.fd
            ∙ sym (append-cons pre q' qs))
          ∙ ih
          ∙ append-cons pre q' (restored ps qs))
    | inr z ↦
        let same' : Same (q ∷ qs) (p ∷ (poll_swap_in backing (i + 1) n ps).0) =
          rw (swap_in-kept i n p ps z) at same in
        let q' = record q { fd = p.fd } in
        let eq : q ≡ q' = ap (λ f. record q { fd = f }) same'.0 in
        let ih =
          swap_out-swap_in_at (pre ++ q' ∷ []) (i + 1) n ps qs (omega (arith, length-snoc pre q'))
            same'.2 in
        rw (swap_in-kept i n p ps z) (
          ap (λ l. poll_swap_out (poll_swap_in backing (i + 1) n ps).1 l)
            (ap (λ x. pre ++ x ∷ qs) eq ∙ sym (append-cons pre q' qs))
          ∙ ih
          ∙ append-cons pre q' (restored ps qs))
  ]

  pub Same-overlay : (rs : List ℕ) (ps : List PollFd) → Same (overlay rs ps) ps
  unfolding overlay
  Same-overlay [] [] = tt
  Same-overlay [] (p ∷ ps) = (refl, refl, Same-overlay [] ps)
  Same-overlay (r ∷ rs) [] = tt
  Same-overlay (r ∷ rs) (p ∷ ps) = (refl, refl, Same-overlay rs ps)

  restored-overlay :
      (rs : List ℕ) (i n : ℕ) (ps : List PollFd)
      → restored ps (overlay rs (poll_swap_in backing i n ps).0) ≡ overlay rs ps
  unfolding restored overlay poll_swap_in
  restored-overlay [] i n [] = refl
  restored-overlay (r ∷ rs) i n [] = refl
  restored-overlay [] i n (p ∷ ps) =
      ground (arith, restored-overlay [] (i + 1) n ps, restored-overlay [] (i + 1) (n + 1) ps)
  restored-overlay (r ∷ rs) i n (p ∷ ps) =
      ground (arith, restored-overlay rs (i + 1) n ps, restored-overlay rs (i + 1) (n + 1) ps)

  -- Swapping in, letting the kernel write any `revents`, and swapping out gives back the caller's
  -- descriptors and events in every entry, with the `revents` that the kernel wrote. It holds for
  -- any number of entries, those beyond the capacity of the swap table included.
  pub poll_swap_roundtrip :
      (rs : List ℕ) (ps : List PollFd)
      → poll_swap_out (poll_swap_in backing 0 0 ps).1 (overlay rs (poll_swap_in backing 0 0 ps).0)
        ≡ overlay rs ps
  poll_swap_roundtrip rs ps =
      swap_out-swap_in_at [] 0 0 ps _ refl (Same-overlay rs (poll_swap_in backing 0 0 ps).0)
      ∙ restored-overlay rs 0 0 ps

  -- The entry that the kernel is to see.
  unfoldable pub translated : PollFd → PollFd
  translated p =
      if is_neg (translate backing p.fd) then p else record p { fd = translate backing p.fd }

  unfoldable pub synth_count : List PollFd → ℕ
  synth_count [] = 0
  synth_count (p ∷ ps) =
      if is_neg (translate backing p.fd) then synth_count ps else suc (synth_count ps)

  -- With room in the swap table for all synthetic descriptors, each of them is translated, and no
  -- other entry is touched.
  pub poll_swap_in-translated :
      (i n : ℕ) (ps : List PollFd)
      → n + synth_count ps ≤ max_swaps
      → (poll_swap_in backing i n ps).0 ≡ map translated ps
  unfolding poll_swap_in translated synth_count
  poll_swap_in-translated i n [] h = refl
  poll_swap_in-translated i n (p ∷ ps) h =
      ground
        (arith, poll_swap_in-translated (i + 1) n ps, poll_swap_in-translated (i + 1) (n + 1) ps)

  -- Is there a swap to do at all?
  pub poll_swap_in-none :
      (i : ℕ) (p : PollFd) (ps : List PollFd)
      → (poll_swap_in backing i 0 (p ∷ ps)).1 ≡ []
      → (is_neg (translate backing p.fd) ≡ true) × ((poll_swap_in backing (i + 1) 0 ps).1 ≡ [])
  unfolding poll_swap_in
  poll_swap_in-none i p ps h = ground arith
