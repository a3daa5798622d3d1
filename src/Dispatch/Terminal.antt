-- ===== src/Dispatch/Terminal.antt =====
-- The terminal's calls on a wrapped terminal.
use wslcompat.Prelude.{
  ℕ, ◌≡◌, refl, ap, Bool, false, Option, none, some, [], ◌∷◌, arith, ◌==◌, Res, fail, ebadf, einval,
}
use wslcompat.Prelude.Int.{ℤ, is_neg}
use wslcompat.Dispatch.{
  Kind, Reply, Handler, Host, World, run, pinned, unpinned, or_else, sys, forward, handle, dispatch,
  ioctl_entry, ioctl_after, ioctl_shim, fioclex, fionclex, op_io, ioctl, TcCall, request,
  set_request, tc_result, tc_ioctl, tc_call, tcsetattr,
}

-- No call of termios.h uses the two requests that change close-on-exec.
request-ne-cloex :
    (c : TcCall) (op arg : ℕ)
    → request c ≡ some (op, arg)
    → ((op == fioclex) ≡ false) × ((op == fionclex) ≡ false)
unfolding request set_request
request-ne-cloex (tcsetattr k t) op arg e = ground arith
request-ne-cloex c op arg e = ground arith

-- The kernel's answer to the wrapper's request on descriptor `real`.
abbrev pub ask : {S : Type 0} → Host S → ℤ → World S → TcCall → Option (ℕ × ℕ) → Res Reply × World S
ask H real w c none = (fail einval, w)
ask H real w c (some (op, arg)) =
    let (r, w') = sys H ioctl real (op ∷ arg ∷ []) w in (tc_result c r, w')

module _ {S : Type 0} (H : Host S) (libc : TcCall → ℤ → S → Res Reply × S) (fd : ℤ) (w : World S)
    (h : Handler S) (backing : Kind → S → ℤ) (free : H.disabled ioctl ≡ false)
    (wrap : (op arg : ℕ) → H.kernel ioctl fd (op ∷ arg ∷ []) w.state ≡ (fail ebadf, w.state))
    (found : H.entry fd w.state ≡ some h) (none_own : h.calls ioctl ≡ none)
    (pass : h.passthru ≡ some backing) (real : is_neg (backing op_io w.state) ≡ false) where
  ioctl_backed :
      (op arg : ℕ)
      → (op == fioclex) ≡ false
      → (op == fionclex) ≡ false
      → ioctl_shim H fd op arg w ≡ sys H ioctl (backing op_io w.state) (op ∷ arg ∷ []) w
  unfolding ioctl_shim ioctl_after ioctl_entry sys run or_else dispatch handle forward pinned
      unpinned
  ioctl_backed op arg x y = ground (arith, wrap op arg)

  tc_ioctl_backed :
      (c : TcCall) (r : Option (ℕ × ℕ))
      → request c ≡ r
      → tc_ioctl H libc c fd r w ≡ ask H (backing op_io w.state) w c r
  unfolding tc_ioctl
  tc_ioctl_backed c none e = refl
  tc_ioctl_backed c (some (op, arg)) e =
      let other = request-ne-cloex c op arg e in
      ap (λ (x : Res Reply × World S). (tc_result c x.0, x.1)) (ioctl_backed op arg other.0 other.1)

  -- A call of termios.h on a wrap whose descriptor gives EBADF without effect, and whose handler
  -- has a backing descriptor and no ioctl of its own, is answered by the kernel's ioctl on the
  -- backing descriptor, with the wrapper's request and result; a request that the wrapper refuses
  -- is EINVAL and has no effect. The tunables disable neither the call nor
  -- ioctl.
  pub tc_call_backed :
      (disabled : TcCall → Bool) (c : TcCall)
      → disabled c ≡ false
      → tc_call H libc disabled c fd w ≡ ask H (backing op_io w.state) w c (request c)
  unfolding tc_call
  tc_call_backed disabled c on = ground (arith, tc_ioctl_backed c (request c) refl)
