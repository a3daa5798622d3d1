-- ===== src/Dispatch/Session.antt =====
-- A sequence of read.c's calls on a wrap.
use wslcompat.Prelude.{
  ℕ, ◌≡◌, refl, Bool, true, false, ◌&&◌, ◌∙◌, ap, none, some, List, [], ◌∷◌, arith, Res, fail,
  ebadf, eperm, einval, eopnotsupp,
}
use wslcompat.Prelude.Int.{ℤ, is_neg}
use wslcompat.Dispatch.{
  readv, writev, preadv, pwritev, ftruncate, fallocate, Op, Kind, Reply, Handler, Host, World,
  canary, run, pinned, unpinned, or_else, sys, forward, handle, dispatch, after_kernel, shim, op_io,
  fcntl, ioctl, fstat, ttyname,
}

-- What the kernel's calls on an O_PATH descriptor fail with: EPERM for the vectors, EINVAL for
-- ftruncate, EOPNOTSUPP for fallocate, and EBADF for the others.
abbrev pub path_errno : Op → ℕ
path_errno readv = eperm
path_errno writev = eperm
path_errno preadv = eperm
path_errno pwritev = eperm
path_errno ftruncate = einval
path_errno fallocate = eopnotsupp
path_errno _ = ebadf

canary_lem : (op : Op) → canary op ≡ path_errno op
unfolding canary
canary_lem readv = refl
canary_lem op = refl

module _ {S : Type 0} (H : Host S) where
  -- The calls of read.c.
  abbrev pub in_read_c : Op → Bool
  in_read_c ioctl = false
  in_read_c fcntl = false
  in_read_c fstat = false
  in_read_c ttyname = false
  in_read_c _ = true

  abbrev pub all_in_read_c : List (Op × List ℕ) → Bool
  all_in_read_c [] = true
  all_in_read_c ((op, args) ∷ cs) = in_read_c op && all_in_read_c cs

  -- A sequence of calls: their results, and the world behind them.
  abbrev pub run_calls :
      (Op → List ℕ → World S → Res Reply × World S)
      → List (Op × List ℕ)
      → World S
      → List (Res Reply) × World S
  run_calls f [] w = ([], w)
  run_calls f ((op, args) ∷ cs) w =
      let (r, w') = f op args w in let (rs, w'') = run_calls f cs w' in (r ∷ rs, w'')

  -- The descriptor is an O_PATH one, on which the kernel's calls fail without effect; its entry has
  -- the handler `h`, with a backing descriptor; and the tunables disable no call of read.c.
  pub record IsWrap (fd : ℤ) (h : Handler S) (backing : Kind → S → ℤ) : Type 0 where
    pub enabled : (op : Op) → in_read_c op ≡ true → H.disabled op ≡ false
    pub refuses :
        (op : Op) (args : List ℕ) (s : S)
        → in_read_c op ≡ true
        → H.kernel op fd args s ≡ (fail (path_errno op), s)
    pub found : (s : S) → H.entry fd s ≡ some h
    pub pass : h.passthru ≡ some backing
    pub real : (s : S) → is_neg (backing op_io s) ≡ false

  -- The handler's own function for a call, or the kernel's call on the backing descriptor.
  abbrev pub direct : Handler S → (Kind → S → ℤ) → Op → List ℕ → World S → Res Reply × World S
  direct h backing op args w = elim (h.calls op) [
    | some f ↦ run f args w
    | none ↦ sys H op (backing op_io w.state) args w
  ]

  shim-direct :
      (op : Op) (fd : ℤ) (args : List ℕ) (w : World S) (h : Handler S) (backing : Kind → S → ℤ)
      → IsWrap fd h backing
      → in_read_c op ≡ true
      → shim H op fd args w ≡ direct h backing op args w
  unfolding shim sys run after_kernel or_else dispatch handle forward pinned unpinned
  shim-direct op fd args w h backing wrap there = ground (
    arith,
    canary_lem op,
    wrap.enabled op there,
    wrap.refuses op args w.state there,
    wrap.found w.state,
    wrap.pass,
    wrap.real w.state,
  )

  -- Any sequence of the calls of read.c on a wrap has the results and the effect of the same
  -- sequence made past the shims: each call by the handler's own function, if there is one, and
  -- else by the kernel on the backing descriptor. The kernel's calls on the wrap fail as on an
  -- O_PATH descriptor and without effect, its entry and handler stay, its backing descriptor is
  -- not negative, and the tunables disable none of the calls.
  pub session_backed :
      (fd : ℤ) (h : Handler S) (backing : Kind → S → ℤ) (cs : List (Op × List ℕ)) (w : World S)
      → IsWrap fd h backing
      → all_in_read_c cs ≡ true
      → run_calls (λ op args w'. shim H op fd args w') cs w ≡ run_calls (direct h backing) cs w
  session_backed fd h backing [] w wrap there = refl
  session_backed fd h backing ((op, args) ∷ cs) w wrap there =
      let first = shim-direct op fd args w h backing wrap (ground arith) in
      let rest =
        session_backed fd h backing cs (direct h backing op args w).1 wrap (ground arith) in
      ap
        (λ (x : Res Reply × World S).
          let (rs, w'') = run_calls (λ op' args' w'. shim H op' fd args' w') cs x.1 in
          (x.0 ∷ rs, w''))
        first
      ∙ ap (λ (x : List (Res Reply) × World S). ((direct h backing op args w).0 ∷ x.0, x.1)) rest
