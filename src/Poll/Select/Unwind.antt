-- ===== src/Poll/Select/Unwind.antt =====
-- Swapping and unwinding gives back the caller's sets.
use wslcompat.Prelude.{
  ℕ, zero, suc, ◌+◌, ◌≡◌, refl, sym, ap, ◌∙◌, inl, inr, Bool, true, false, not, ◌&&◌, ◌||◌, some,
  List, [], ◌∷◌, arith, ◌==◌, if◌then◌else◌, Bool-cases, Option-cases,
}
use wslcompat.Prelude.Int.{ℤ, pos, negsuc, minus_one}
use wslcompat.Poll.Swap.{translate}
use wslcompat.Poll.Select.{
  Sets, SelSwap, substitute, real_for, Swapped, swap_loop, scanned, sel_swap_in, mirror_one, mirror,
  clear_one, clear, sel_unwind,
}

-- The descriptor is the real one of some swap.
abbrev pub is_real : ℕ → List SelSwap → Bool
is_real x [] = false
is_real x (s ∷ ss) = (x == s.real_fd) || is_real x ss

-- No descriptor that is swapped out is the real one of a later swap.
abbrev pub Apart : List SelSwap → Type 0
Apart [] = Unit {0}
Apart (s ∷ ss) = (is_real s.synth_fd ss ≡ false) × Apart ss

-- Some swap of that synthetic descriptor has its real one in the answer.
abbrev pub mirrored : List SelSwap → Sets → Sets
mirrored [] out d x = false
mirrored (s ∷ ss) out d x =
    (s.s_in d && (x == s.synth_fd) && out d s.real_fd) || mirrored ss out d x

abbrev pub cleared : List SelSwap → Sets
cleared [] d x = false
cleared (s ∷ ss) d x = (s.s_in d && not (s.r_in d) && (x == s.real_fd)) || cleared ss d x

-- What mirroring one swap adds is no real descriptor of a later one.
mirrored-other :
    (ss : List SelSwap) (out : Sets) (s : SelSwap) (d x : ℕ)
    → is_real s.synth_fd ss ≡ false
    → mirrored ss (mirror_one s out) d x ≡ mirrored ss out d x
unfolding mirror_one
mirrored-other [] out s d x h = refl
mirrored-other (t ∷ ss) out s d x h =
    let differ : (t.real_fd == s.synth_fd) ≡ false = ground arith in
    ground (arith, differ, mirrored-other ss out s d x (ground arith))

mirror-mirrored :
    (ss : List SelSwap) (out : Sets) (d x : ℕ)
    → Apart ss
    → mirror ss out d x ≡ (out d x || mirrored ss out d x)
unfolding mirror mirror_one
mirror-mirrored [] out d x h = ground arith
mirror-mirrored (s ∷ ss) out d x h =
    mirror-mirrored ss (mirror_one s out) d x h.1
    ∙ ap (λ b. mirror_one s out d x || b) (mirrored-other ss out s d x h.0)
    ∙ ground arith

clear-cleared :
    (ss : List SelSwap) (out : Sets) (d x : ℕ)
    → clear ss out d x ≡ (not (cleared ss d x) && out d x)
unfolding clear clear_one
clear-cleared [] out d x = refl
clear-cleared (s ∷ ss) out d x = clear-cleared ss (clear_one s out) d x ∙ ground arith

-- What the two passes leave, when no descriptor swapped out is the real one of a later swap.
pub unwind-parts :
    (ss : List SelSwap) (out : Sets) (d x : ℕ)
    → Apart ss
    → sel_unwind ss out d x ≡ (not (cleared ss d x) && (out d x || mirrored ss out d x))
unfolding sel_unwind
unwind-parts ss out d x h =
    clear-cleared ss (mirror ss out) d x
    ∙ ap (λ b. not (cleared ss d x) && b) (mirror-mirrored ss out d x h)

pub cleared-is_real : (ss : List SelSwap) (d x : ℕ) → is_real x ss ≡ false → cleared ss d x ≡ false
cleared-is_real [] d x h = refl
cleared-is_real (s ∷ ss) d x h =
    let rest : is_real x ss ≡ false = ground arith in
    let differ : (x == s.real_fd) ≡ false = ground arith in
    ground (arith, cleared-is_real ss d x rest)

-- One swap more, at one descriptor: `sf`, `sr`, `sx` say whether the synthetic, the real and this
-- descriptor are members, `xf`, `xr` whether this is the synthetic or the real one.
round :
    (sf sr sx xf xr c f m fr : Bool)
    → (not c && (f || m)) ≡ (if sf then xr || (not xf && sx) else sx)
    → (sf ≡ true → fr ≡ true)
    → (xf ≡ true → (c ≡ false) × (sf ≡ sx) × (xr ≡ false))
    → (xr ≡ true → sr ≡ sx)
    → (not ((sf && not sr && xr) || c) && (f || ((sf && xf && fr) || m))) ≡ sx
round sf sr sx xf xr c f m fr ih k h s = ground arith

-- The descriptor behind a synthetic one is not itself synthetic.
abbrev pub RealBacking : (ℤ → ℤ) → Type 0
RealBacking backing =
    (x r : ℕ) → translate backing (pos x) ≡ pos r → translate backing (pos r) ≡ minus_one

module _ (backing : ℤ → ℤ) (rb : RealBacking backing) where
  -- What a round that substitutes says of the descriptor.
  pub real_for-translate :
      (sets : Sets) (fd n real : ℕ) (t : ℤ)
      → translate backing (pos fd) ≡ t
      → real_for backing sets fd n ≡ some real
      → translate backing (pos fd) ≡ pos real
  unfolding real_for
  real_for-translate sets fd n real (negsuc k) t e = let e' = rw (t, real_for) at e in cc
  real_for-translate sets fd n real (pos k) t e = let e' = rw (t, real_for) at e in ground arith

  -- A synthetic descriptor is not one that is real.
  pub apart :
      (x real y : ℕ)
      → translate backing (pos x) ≡ pos y
      → translate backing (pos real) ≡ minus_one
      → (x == real) ≡ false
  apart x real y t b = elim (Bool-cases (x == real)) [
    | inl same ↦
        let same' : x ≡ real = ground arith in
        let t' : translate backing (pos real) ≡ pos y = rw same' at t in cc
    | inr n ↦ n
  ]

  -- A synthetic descriptor is not the real one of any swap.
  pub is_real-loop :
      (r fd n m : ℕ) (sets : Sets) (x y : ℕ)
      → translate backing (pos x) ≡ pos y
      → is_real x (swap_loop backing r fd n m sets).swaps ≡ false
  unfolding swap_loop
  is_real-loop zero fd n m sets x y t = refl
  is_real-loop (suc r) fd n m sets x y t = elim (Option-cases (real_for backing sets fd n)) [
    | inl e ↦ rw (e, swap_loop) (is_real-loop r (fd + 1) n m sets x y t)
    | inr (real, e) ↦
        let b = rb fd real (real_for-translate sets fd n real _ refl e) in
        let differ : (x == real) ≡ false = apart x real y t b in
        rw (e, swap_loop) (rw differ (is_real-loop r (fd + 1) (n + 1) _ _ x y t))
  ]

  pub Apart-loop : (r fd n m : ℕ) (sets : Sets) → Apart (swap_loop backing r fd n m sets).swaps
  unfolding swap_loop
  Apart-loop zero fd n m sets = tt
  Apart-loop (suc r) fd n m sets = elim (Option-cases (real_for backing sets fd n)) [
    | inl e ↦ rw (e, swap_loop) (Apart-loop r (fd + 1) n m sets)
    | inr (real, e) ↦
        let t = real_for-translate sets fd n real _ refl e in
        rw (e, swap_loop)
          (is_real-loop r (fd + 1) (n + 1) _ _ fd real t, Apart-loop r (fd + 1) (n + 1) _ _)
  ]

  -- A member that is real stays one.
  kept :
      (r fd n m : ℕ) (sets : Sets) (d x : ℕ)
      → translate backing (pos x) ≡ minus_one
      → sets d x ≡ true
      → (swap_loop backing r fd n m sets).sets d x ≡ true
  unfolding swap_loop substitute
  kept zero fd n m sets d x b h = h
  kept (suc r) fd n m sets d x b h = elim (Option-cases (real_for backing sets fd n)) [
    | inl e ↦ rw (e, swap_loop) (kept r (fd + 1) n m sets d x b h)
    | inr (real, e) ↦
        let differ = apart fd x real (real_for-translate sets fd n real _ refl e) b in
        let still : substitute sets fd real d x ≡ true = ground (arith, differ) in
        rw (e, swap_loop) (kept r (fd + 1) (n + 1) _ _ d x b still)
  ]

  -- What the swaps recorded by the loop take back from sets that the kernel has not changed.
  abbrev taken_back : Swapped → Sets
  taken_back s d x = not (cleared s.swaps d x) && (s.sets d x || mirrored s.swaps s.sets d x)

  taken_back-loop :
      (r fd n m : ℕ) (sets : Sets) (d x : ℕ)
      → taken_back (swap_loop backing r fd n m sets) d x ≡ sets d x
  unfolding swap_loop substitute
  taken_back-loop zero fd n m sets d x = ground arith
  taken_back-loop (suc r) fd n m sets d x = elim (Option-cases (real_for backing sets fd n)) [
    | inl e ↦ rw (e, swap_loop) (taken_back-loop r (fd + 1) n m sets d x)
    | inr (real, e) ↦
        let t = real_for-translate sets fd n real _ refl e in
        let b = rb fd real t in
        let rest = taken_back-loop r (fd + 1) (n + 1) _ (substitute sets fd real) d x in
        rw (e, swap_loop)
          (round (sets d fd) (sets d real) (sets d x) (x == fd) (x == real) _ _ _ _ rest
            (λ sf. kept r (fd + 1) (n + 1) _ _ d real b (ground arith))
            (λ xf.
              let same : x ≡ fd = ground arith in
              rw same (
                cleared-is_real _ d fd (is_real-loop r (fd + 1) (n + 1) _ _ fd real t),
                refl,
                apart fd real real t b,
              ))
            (λ xr. let same : x ≡ real = ground arith in ap (sets d) (sym same)))
  ]

  -- When the descriptors behind synthetic ones are not synthetic: unwinding the sets just as
  -- sel_swap_in has left them, as after a retry that fails, gives every bit of the caller's three
  -- sets back, also when several descriptors share a real one or the caller watches that one
  -- itself.
  pub select_roundtrip :
      (nfds : ℕ) (sets : Sets) (d x : ℕ)
      → sel_unwind (sel_swap_in backing nfds sets).swaps (sel_swap_in backing nfds sets).sets d x
        ≡ sets d x
  unfolding sel_swap_in
  select_roundtrip nfds sets d x =
      unwind-parts _ _ d x (Apart-loop (scanned nfds) 0 0 nfds sets)
      ∙ taken_back-loop (scanned nfds) 0 0 nfds sets d x
