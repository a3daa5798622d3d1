-- ===== src/Poll/Swap.antt =====
-- poll.c, `poll_swap_in` and `poll_swap_out`: real descriptors in place of synthetic ones for the
-- time of a kernel call. `backing` is `wslcompat_synth_passthru(fd, SYNTH_OP_POLL)`.
pub mod Laws
use wslcompat.Prelude.{
  ℕ, zero, suc, ◌+◌, ◌-◌, ◌*◌, ◌/◌, ◌%◌, ◌^◌, ◌≤◌, ◌<◌, ◌≡◌, refl, sym, ap, ◌∙◌, ◌≢◌, ◌↔◌, ◌⊎◌, inl,
  inr, Bool, true, false, not, ◌&&◌, ◌||◌, Option, none, some, List, [], ◌∷◌, ◌++◌, map, arith, ltb,
  leb, ◌==◌, if◌then◌else◌, ltb→lt, lt→ltb, leb→le, ==_iff, ==_self, Bool-cases, Option-cases,
  length, get_elem?, get_or, set, take, drop, replicate, length-append, length-set,
  get_elem?-set_self, get_elem?-set_ne, length-replicate, length-map, length-snoc, append-cons,
  is_some, Res, ret, fail, eperm, enoent, eintr, e2big, enoexec, ebadf, ewouldblock, enomem, efault,
  eexist, enodev, einval, enfile, enosys, enoprotoopt, eopnotsupp,
}
use wslcompat.Prelude.Int.{ℤ, pos, negsuc, minus_one, int_eq, is_neg, int_eq_iff, int_eq_self}

pub record PollFd : Type 0 where
  pub fd : ℤ
  pub events : ℕ
  pub revents : ℕ

abbrev pub max_swaps : ℕ
max_swaps = 64

pub record PollSwap : Type 0 where
  pub idx : ℕ
  pub synth_fd : ℤ

-- translate_synth_fd: -1 when the descriptor is not to be replaced.
unfoldable pub translate : (backing : ℤ → ℤ) → ℤ → ℤ
translate backing fd =
    if is_neg (backing fd) || int_eq (backing fd) fd then minus_one else backing fd

-- The loop of poll_swap_in from index `i` on, with `n` swaps recorded so far: the descriptors it
-- leaves and the swaps it records from there on.
unfoldable pub poll_swap_in :
    (backing : ℤ → ℤ) → (i n : ℕ) → List PollFd → List PollFd × List PollSwap
poll_swap_in backing i n [] = ([], [])
poll_swap_in backing i n (p ∷ ps) =
    let swapped = not (is_neg (translate backing p.fd)) && not (leb max_swaps n) in
    let rest = poll_swap_in backing (i + 1) (if swapped then n + 1 else n) ps in
    if swapped
    then (
      record p { fd = translate backing p.fd } ∷ rest.0,
      record { idx = i; synth_fd = p.fd } ∷ rest.1,
    )
    else (p ∷ rest.0, rest.1)

-- fds[idx].fd = fd
pub set_fd : List PollFd → ℕ → ℤ → List PollFd
set_fd [] i fd = []
set_fd (p ∷ ps) zero fd = record p { fd = fd } ∷ ps
set_fd (p ∷ ps) (suc i) fd = p ∷ set_fd ps i fd

unfoldable pub poll_swap_out : List PollSwap → List PollFd → List PollFd
poll_swap_out [] ps = ps
poll_swap_out (s ∷ ss) ps = poll_swap_out ss (set_fd ps s.idx s.synth_fd)
