-- ===== src/Poll/Select/Answers.antt =====
-- What select tells the caller of each descriptor.
use wslcompat.Prelude.{
  ℕ, zero, suc, ◌+◌, ◌<◌, ◌≡◌, refl, sym, ap, ◌∙◌, inl, inr, Bool, true, false, not, ◌&&◌, ◌||◌,
  List, [], ◌∷◌, arith, ltb, ◌==◌, if◌then◌else◌, Option-cases,
}
use wslcompat.Prelude.Int.{ℤ, pos}
use wslcompat.Poll.Swap.{translate}
use wslcompat.Poll.Select.{
  Sets, SelSwap, substitute, real_for, swap_loop, scanned, sel_swap_in, sel_unwind,
}
use wslcompat.Poll.Select.Unwind.{
  mirrored, cleared, cleared-is_real, unwind-parts, RealBacking, real_for-translate, apart,
  is_real-loop, Apart-loop,
}

-- The descriptor whose readiness is the answer for `x`: the real one of its swap, or itself.
abbrev pub stand_in : List SelSwap → (d x : ℕ) → ℕ
stand_in [] d x = x
stand_in (s ∷ ss) d x = if s.s_in d && (x == s.synth_fd) then s.real_fd else stand_in ss d x

-- One swap more, as in Unwind; `fx` and `fr` are the kernel's answers for this descriptor and for
-- the real one, `rest` is that for the descriptor that the later swaps let stand in.
round :
    (sf sr sx xf xr c fx fr m rest : Bool)
    → (not c && (fx || m)) ≡ ((if sf then xr || (not xf && sx) else sx) && rest)
    → (xf ≡ true → (c ≡ false) × (sf ≡ sx) × (xr ≡ false) × (m ≡ false))
    → (sf ≡ true → xf ≡ true → fx ≡ false)
    → (xr ≡ true → sr ≡ sx)
    → (not ((sf && not sr && xr) || c) && (fx || ((sf && xf && fr) || m)))
      ≡ (sx && (if sf && xf then fr else rest))
round sf sr sx xf xr c fx fr m rest ih h g s = ground arith

out-if : (f : ℕ → Bool) (b : Bool) (p q : ℕ) → f (if b then p else q) ≡ (if b then f p else f q)
out-if f true p q = refl
out-if f false p q = refl

module _ (backing : ℤ → ℤ) (rb : RealBacking backing) (out : Sets) where
  -- Later swaps are of later descriptors.
  mirrored-later :
      (r fd n m : ℕ) (sets : Sets) (d x : ℕ)
      → x < fd
      → mirrored (swap_loop backing r fd n m sets).swaps out d x ≡ false
  unfolding swap_loop
  mirrored-later zero fd n m sets d x h = refl
  mirrored-later (suc r) fd n m sets d x h = elim (Option-cases (real_for backing sets fd n)) [
    | inl e ↦ rw (e, swap_loop) (mirrored-later r (fd + 1) n m sets d x (omega arith))
    | inr (real, e) ↦
        let differ : (x == fd) ≡ false = ground arith in
        let rest =
          mirrored-later r (fd + 1) (n + 1) (if ltb m (real + 1) then real + 1 else m)
            (substitute sets fd real) d x (omega arith) in
        rw (e, swap_loop) (ground (arith, rest, differ))
  ]

  -- A synthetic descriptor that is no member does not become one.
  gone :
      (r fd n m : ℕ) (sets : Sets) (d x y : ℕ)
      → translate backing (pos x) ≡ pos y
      → sets d x ≡ false
      → (swap_loop backing r fd n m sets).sets d x ≡ false
  unfolding swap_loop substitute
  gone zero fd n m sets d x y t h = h
  gone (suc r) fd n m sets d x y t h = elim (Option-cases (real_for backing sets fd n)) [
    | inl e ↦ rw (e, swap_loop) (gone r (fd + 1) n m sets d x y t h)
    | inr (real, e) ↦
        let b = rb fd real (real_for-translate backing rb sets fd n real _ refl e) in
        let differ = apart backing rb x real y t b in
        let still : substitute sets fd real d x ≡ false = ground (arith, differ) in
        rw (e, swap_loop) (gone r (fd + 1) (n + 1) _ _ d x y t still)
  ]

  answer-loop :
      (r fd n m : ℕ) (sets : Sets) (d x : ℕ)
      → ((x' : ℕ) → (swap_loop backing r fd n m sets).sets d x' ≡ false → out d x' ≡ false)
      → (not (cleared (swap_loop backing r fd n m sets).swaps d x)
          && (out d x || mirrored (swap_loop backing r fd n m sets).swaps out d x))
        ≡ (sets d x && out d (stand_in (swap_loop backing r fd n m sets).swaps d x))
  unfolding swap_loop substitute
  answer-loop zero fd n m sets d x k = ground (arith, k x)
  answer-loop (suc r) fd n m sets d x k = elim (Option-cases (real_for backing sets fd n)) [
    | inl e ↦
        let k' = rw (e, swap_loop) at k in
        rw (e, swap_loop) (answer-loop r (fd + 1) n m sets d x k')
    | inr (real, e) ↦
        let t = real_for-translate backing rb sets fd n real _ refl e in
        let b = rb fd real t in
        let m' = if ltb m (real + 1) then real + 1 else m in
        let k' = rw (e, swap_loop) at k in
        let rest = answer-loop r (fd + 1) (n + 1) m' (substitute sets fd real) d x k' in
        rw (e, swap_loop)
          (round (sets d fd) (sets d real) (sets d x) (x == fd) (x == real) _ _ (out d real) _ _
              rest
              (λ xf.
                let same : x ≡ fd = ground arith in
                rw same (
                  cleared-is_real _ d fd
                      (is_real-loop backing rb r (fd + 1) (n + 1) m' _ fd real t),
                  refl,
                  apart backing rb fd real real t b,
                  mirrored-later r (fd + 1) (n + 1) m' _ d fd (omega arith),
                ))
              (λ sf xf.
                let same : x ≡ fd = ground arith in
                let differ : (fd == real) ≡ false = apart backing rb fd real real t b in
                let off : substitute sets fd real d fd ≡ false = ground (arith, differ) in
                rw same (k' fd (gone r (fd + 1) (n + 1) m' _ d fd real t off)))
              (λ xr. let same : x ≡ real = ground arith in ap (sets d) (sym same))
            ∙ ap (λ v. sets d x && v) (sym (out-if (out d) (sets d fd && (x == fd)) real _)))
  ]

  -- When the descriptors behind synthetic ones are not synthetic, and the kernel only takes
  -- members away from the sets that it is passed: after the unwinding, a descriptor is in a set
  -- exactly if the caller put it there and the kernel left there the real descriptor that was
  -- swapped in for it, or the descriptor itself if none was. This holds too when several share a
  -- real descriptor.
  pub sel_unwind-answer :
      (nfds : ℕ) (sets : Sets) (d x : ℕ)
      → ((x' : ℕ) → (sel_swap_in backing nfds sets).sets d x' ≡ false → out d x' ≡ false)
      → sel_unwind (sel_swap_in backing nfds sets).swaps out d x
        ≡ (sets d x && out d (stand_in (sel_swap_in backing nfds sets).swaps d x))
  unfolding sel_swap_in
  sel_unwind-answer nfds sets d x k =
      unwind-parts _ out d x (Apart-loop backing rb (scanned nfds) 0 0 nfds sets)
      ∙ answer-loop (scanned nfds) 0 0 nfds sets d x k
