-- ===== src/Dispatch/Forward.antt =====
-- What a shim does with the kernel's failure on a synthetic descriptor.
use wslcompat.Prelude.{
  ℕ, ◌≡◌, refl, ◌⊎◌, inl, inr, Bool, false, not, ◌||◌, Option, none, some, List, [], ◌∷◌, arith,
  ◌==◌, if◌then◌else◌, Bool-cases, Option-cases, is_some, Res, ret, fail, ebadf,
}
use wslcompat.Prelude.Int.{ℤ, int_eq, is_neg}
use wslcompat.Dispatch.{
  Op, Reply, Handler, Host, World, run, pinned, unpinned, or_else, sys, forward, handle, dispatch,
  after_kernel, shim, exclusive, fcntl_rest, or_rest, fcntl_shim, ioctl_entry, ioctl_after,
  ioctl_shim, backing_of, f_getfl, f_setfl, op_io, fcntl, ioctl,
}

module _ {S : Type 0} (H : Host S) where
  forward-pins :
      (h : Handler S) (op : Op) (args : List ℕ) (w : World S)
      → (forward H h op args w).1.pins ≡ w.pins
  unfolding forward sys run
  forward-pins h op args w = ground arith

  handle-pins :
      (h : Handler S) (op : Op) (args : List ℕ) (w : World S)
      → (handle H h op args w).1.pins ≡ w.pins
  unfolding handle run
  handle-pins h op args w = ground (arith, forward-pins h op args w)

  pub dispatch-pins :
      (op : Op) (fd : ℤ) (args : List ℕ) (w : World S) → (dispatch H op fd args w).1.pins ≡ w.pins
  unfolding dispatch pinned unpinned
  dispatch-pins op fd args w = elim (Option-cases (H.entry fd w.state)) [
    | inl e ↦ rw (e, dispatch) refl
    | inr (h, e) ↦ rw (e, dispatch) (omega (arith, handle-pins h op args (pinned w)))
  ]

  or_else-pins :
      (r : Res Reply) (x : Option (Res Reply) × World S) → (or_else r x).1.pins ≡ x.1.pins
  unfolding or_else
  or_else-pins r (none, w) = refl
  or_else-pins r (some r', w) = refl

  after_kernel-pins :
      (op : Op) (fd : ℤ) (args : List ℕ) (x : Res Reply × World S)
      → (after_kernel H op fd args x).1.pins ≡ x.1.pins
  unfolding after_kernel
  after_kernel-pins op fd args (ret n, w) = refl
  after_kernel-pins op fd args (fail e, w) =
      ground (arith, or_else-pins (fail e) (dispatch H op fd args w), dispatch-pins op fd args w)

  shim-pins :
      (op : Op) (fd : ℤ) (args : List ℕ) (w : World S) → (shim H op fd args w).1.pins ≡ w.pins
  unfolding shim sys run
  shim-pins op fd args w = after_kernel-pins op fd args (sys H op fd args w)

  exclusive-pins :
      (fd : ℤ) (x : Option (Res Reply) × World S) → (exclusive H fd x).1.pins ≡ x.1.pins
  unfolding exclusive pinned unpinned
  exclusive-pins fd (some r, w) = refl
  exclusive-pins fd (none, w) = elim (Option-cases (H.entry fd w.state)) [
    | inl e ↦ rw (e, exclusive) refl
    | inr (h, e) ↦ rw (e, exclusive) (omega arith)
  ]

  or_rest-pins :
      (fd : ℤ) (args : List ℕ) (x : Option (Res Reply) × World S)
      → (or_rest H fd args x).1.pins ≡ x.1.pins
  unfolding or_rest fcntl_rest sys run
  or_rest-pins fd args (some r, w) = refl
  or_rest-pins fd args (none, w) = after_kernel-pins fcntl fd args (sys H fcntl fd args w)

  fcntl_shim-pins :
      (fd : ℤ) (cmd arg : ℕ) (w : World S) → (fcntl_shim H fd cmd arg w).1.pins ≡ w.pins
  unfolding fcntl_shim fcntl_rest sys run
  fcntl_shim-pins fd cmd arg w =
      let args = cmd ∷ arg ∷ [] in
      let x = dispatch H fcntl fd args w in
      ground (
        arith,
        or_rest-pins fd args (exclusive H fd x),
        exclusive-pins fd x,
        dispatch-pins fcntl fd args w,
        after_kernel-pins fcntl fd args (sys H fcntl fd args w),
      )

  ioctl_entry-pins :
      (fd : ℤ) (op arg : ℕ) (w : World S) → (ioctl_entry H fd op arg w).1.pins ≡ w.pins
  unfolding ioctl_entry sys run
  ioctl_entry-pins fd op arg w =
      let x = dispatch H ioctl fd (op ∷ arg ∷ []) w in
      ground (arith, or_else-pins (fail ebadf) x, dispatch-pins ioctl fd (op ∷ arg ∷ []) w)

  ioctl_after-pins :
      (fd : ℤ) (op arg : ℕ) (x : Res Reply × World S)
      → (ioctl_after H fd op arg x).1.pins ≡ x.1.pins
  unfolding ioctl_after pinned unpinned
  ioctl_after-pins fd op arg (ret n, w) = ground arith
  ioctl_after-pins fd op arg (fail e, w) = elim (Bool-cases (e == ebadf)) [
    | inr n ↦ rw n refl
    | inl y ↦ elim (Option-cases (H.entry fd w.state)) [
      | inl p ↦ rw (y, p) refl
      | inr (h, p) ↦ rw (y, p) (omega (arith, ioctl_entry-pins fd op arg (pinned w)))
    ]
  ]

  -- On every branch of every shim, each reference that the shim takes on an entry is given back by
  -- its return: for each wrapped call of read.c, for fcntl on any command that is not about locks,
  -- and for ioctl.
  pub shims_return_pins :
      (op : Op) (fd : ℤ) (args : List ℕ) (cmd arg : ℕ) (w : World S)
      → ((shim H op fd args w).1.pins ≡ w.pins)
        × ((fcntl_shim H fd cmd arg w).1.pins ≡ w.pins)
        × ((ioctl_shim H fd cmd arg w).1.pins ≡ w.pins)
  unfolding ioctl_shim sys run
  shims_return_pins op fd args cmd arg w = (
    shim-pins op fd args w,
    fcntl_shim-pins fd cmd arg w,
    ground (arith, ioctl_after-pins fd cmd arg (sys H ioctl fd (cmd ∷ arg ∷ []) w)),
  )

  -- Does the entry take the call, by its own function or by a backing descriptor?
  abbrev pub serves : Option (Handler S) → Op → S → Bool
  serves none op s = false
  serves (some h) op s =
      is_some (h.calls op)
      || elim h.passthru [ none ↦ false | some backing ↦ not (is_neg (backing op_io s)) ]

  unserved :
      (op : Op) (fd : ℤ) (args : List ℕ) (w : World S)
      → serves (H.entry fd w.state) op w.state ≡ false
      → dispatch H op fd args w ≡ (none, w)
  unfolding dispatch handle forward pinned unpinned
  unserved op fd args w e = elim (Option-cases (H.entry fd w.state)) [
    | inl p ↦ rw (p, dispatch) refl
    | inr (h, p) ↦ ground arith
  ]

  -- Where no entry takes the call of the descriptor, by a function of its own or by a backing
  -- descriptor, a shim of read.c gives what the kernel gave, its errno included, and changes
  -- nothing else.
  pub shim_unserved :
      (op : Op) (fd : ℤ) (args : List ℕ) (w : World S)
      → (let s = (H.kernel op fd args w.state).1 in serves (H.entry fd s) op s ≡ false)
      → shim H op fd args w ≡ sys H op fd args w
  unfolding shim sys run after_kernel or_else
  shim_unserved op fd args w e = ground (arith, unserved op fd args (sys H op fd args w).1 e)

-- The same host, where the kernel does `K` on descriptor `fd`.
abbrev pub kernel_at : {S : Type 0} → Host S → ℤ → (List ℕ → S → Res Reply × S) → Host S
kernel_at H fd K = record H {
  kernel = λ op g args s. if int_eq g fd then K args s else H.kernel op g args s;
}

-- F_GETFL and F_SETFL of a synthetic descriptor do not reach the kernel with that descriptor:
-- whatever the kernel would do there, the result and the state are the same, if the backing
-- descriptor is another one and the tunables do not disable fcntl.
pub fcntl_keeps_path :
    {S : Type 0} (H : Host S) (K : List ℕ → S → Res Reply × S) (fd : ℤ) (cmd arg : ℕ) (w : World S)
    (h : Handler S)
    → H.disabled fcntl ≡ false
    → (cmd ≡ f_getfl) ⊎ (cmd ≡ f_setfl)
    → H.entry fd w.state ≡ some h
    → int_eq (backing_of H op_io fd w.state) fd ≡ false
    → fcntl_shim (kernel_at H fd K) fd cmd arg w ≡ fcntl_shim H fd cmd arg w
unfolding fcntl_shim or_rest exclusive dispatch handle forward pinned unpinned sys run backing_of
fcntl_keeps_path H K fd cmd arg w h free flags found other = ground arith
