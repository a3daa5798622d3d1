-- ===== src/Poll/Dispatch.antt =====
-- poll.c, `poll_dispatch` and the functions that it calls.
pub mod Laws
use wslcompat.Prelude.{
  ℕ, zero, suc, ◌+◌, ◌-◌, ◌*◌, ◌/◌, ◌%◌, ◌^◌, ◌≤◌, ◌<◌, ◌≡◌, refl, sym, ap, ◌∙◌, ◌≢◌, ◌↔◌, ◌⊎◌, inl,
  inr, Bool, true, false, not, ◌&&◌, ◌||◌, Option, none, some, List, [], ◌∷◌, ◌++◌, map, arith, ltb,
  leb, ◌==◌, if◌then◌else◌, ltb→lt, lt→ltb, leb→le, ==_iff, ==_self, Bool-cases, Option-cases,
  length, get_elem?, get_or, set, take, drop, replicate, length-append, length-set,
  get_elem?-set_self, get_elem?-set_ne, length-replicate, length-map, length-snoc, append-cons,
  is_some, Res, ret, fail, eperm, enoent, eintr, e2big, enoexec, ebadf, ewouldblock, enomem, efault,
  eexist, enodev, einval, enfile, enosys, enoprotoopt, eopnotsupp,
}
use wslcompat.Prelude.Int.{ℤ, pos, negsuc, minus_one, int_eq, is_neg, int_eq_iff, int_eq_self}
use wslcompat.Poll.Swap.{PollFd, PollSwap, translate, poll_swap_in, poll_swap_out}
use wslcompat.Poll.Swap.Laws.{overlay}

-- The kernel's poll or ppoll, as an oracle: for the number of the call in this dispatch, whether it
-- waits (else the timeout is 0), and the entries, its result and the `revents` that it writes. The
-- variant, the timeout and the signal mask are the oracle's.
abbrev pub Kernel : Type 0
Kernel = ℕ → (wait : Bool) → List PollFd → Res ℕ × List ℕ

abbrev pub Outcome : Type 0
Outcome = Res ℕ × List PollFd

module _ (backing : ℤ → ℤ) (kernel : Kernel) where
  unfoldable pub kernel_call : ℕ → Bool → List PollFd → Outcome
  kernel_call k wait ps = let (r, rs) = kernel k wait ps in (r, overlay rs ps)

  -- Some entry with events reported is synthetic.
  unfoldable pub poll_canary_fired : List PollFd → Bool
  poll_canary_fired [] = false
  poll_canary_fired (p ∷ ps) =
      (not (p.revents == 0) && not (is_neg (translate backing p.fd))) || poll_canary_fired ps

  -- events & (POLLIN | POLLOUT | POLLRDNORM | POLLWRNORM)
  unfoldable pub standard_events : ℕ → Bool
  standard_events ev =
      not (ev % 2 == 0)
      || not (ev / 4 % 2 == 0)
      || not (ev / 64 % 2 == 0)
      || not (ev / 256 % 2 == 0)

  unfoldable pub needs_proactive_swap : List PollFd → Bool
  needs_proactive_swap [] = false
  needs_proactive_swap (p ∷ ps) =
      (not (is_neg p.fd) && not (standard_events p.events)) || needs_proactive_swap ps

  -- Swap in, call, swap out.
  unfoldable pub swapped_call : ℕ → List PollFd → Outcome
  swapped_call k ps =
      let (ps', swaps) = poll_swap_in backing 0 0 ps in
      let (r, ps'') = kernel_call k true ps' in (r, poll_swap_out swaps ps'')

  abbrev pub no_swaps : List PollSwap → Bool
  no_swaps [] = true
  no_swaps (_ ∷ _) = false

  unfoldable pub canary_retry : List PollFd → (fallback : ℕ) → Outcome
  canary_retry ps fallback =
      if no_swaps (poll_swap_in backing 0 0 ps).1 then (ret fallback, ps) else swapped_call 2 ps

  unfoldable pub after_wait : Outcome → Outcome
  after_wait (fail e, ps) = (fail e, ps)
  after_wait (ret n, ps) =
      if (n == 0) || not (poll_canary_fired ps) then (ret n, ps) else canary_retry ps n

  unfoldable pub after_probe : Outcome → Outcome
  after_probe (fail e, ps) = (fail e, ps)
  after_probe (ret n, ps) =
      if needs_proactive_swap ps
      then swapped_call 1 ps
      else after_wait (if n == 0 then kernel_call 1 true ps else (ret n, ps))

  unfoldable pub poll_dispatch : (passthru active : Bool) → List PollFd → Outcome
  poll_dispatch passthru active ps =
      if passthru || not active then kernel_call 0 true ps else after_probe (kernel_call 0 false ps)
