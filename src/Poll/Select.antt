-- ===== src/Poll/Select.antt =====
-- poll.c, from `sel_swap_in` to `sel_dispatch`: select and pselect on sets that hold synthetic
-- descriptors. A null set is one without members, which the code neither tests nor changes. The
-- count of swaps and the bound of the descriptors are the code's.
pub mod Unwind
pub mod Answers
mod Tests
use wslcompat.Prelude.{
  ℕ, zero, suc, ◌+◌, ◌-◌, ◌*◌, ◌/◌, ◌%◌, ◌^◌, ◌≤◌, ◌<◌, ◌≡◌, refl, sym, ap, ◌∙◌, ◌≢◌, ◌↔◌, ◌⊎◌, inl,
  inr, Bool, true, false, not, ◌&&◌, ◌||◌, Option, none, some, List, [], ◌∷◌, ◌++◌, map, arith, ltb,
  leb, ◌==◌, if◌then◌else◌, ltb→lt, lt→ltb, leb→le, ==_iff, ==_self, Bool-cases, Option-cases,
  length, get_elem?, get_or, set, take, drop, replicate, length-append, length-set,
  get_elem?-set_self, get_elem?-set_ne, length-replicate, length-map, length-snoc, append-cons,
  is_some, Res, ret, fail, eperm, enoent, eintr, e2big, enoexec, ebadf, ewouldblock, enomem, efault,
  eexist, enodev, einval, enfile, enosys, enoprotoopt, eopnotsupp,
}
use wslcompat.Prelude.Int.{ℤ, pos, negsuc, minus_one, int_eq, is_neg, int_eq_iff, int_eq_self}
use wslcompat.Poll.Swap.{translate, max_swaps}

-- The three sets: direction and descriptor to membership.
abbrev pub Sets : Type 0
Sets = ℕ → ℕ → Bool

abbrev pub fd_setsize : ℕ
fd_setsize = 1024

-- struct sel_swap
pub record SelSwap : Type 0 where
  pub synth_fd : ℕ
  pub real_fd : ℕ
  pub s_in : ℕ → Bool
  pub r_in : ℕ → Bool

abbrev pub watched : Sets → ℕ → Bool
watched sets fd = sets 0 fd || sets 1 fd || sets 2 fd

-- FD_CLR of the synthetic and FD_SET of the real descriptor, in the directions watched.
pub substitute : Sets → (fd real : ℕ) → Sets
substitute sets fd real d x =
    if sets d fd then (x == real) || (not (x == fd) && sets d x) else sets d x

-- The tests of one round with `n` swaps recorded: the descriptor to substitute, if any.
pub real_for : (backing : ℤ → ℤ) → Sets → (fd n : ℕ) → Option ℕ
real_for backing sets fd n = elim (translate backing (pos fd)) [
  | negsuc _ ↦ none
  | pos real ↦
      if not (watched sets fd) || leb fd_setsize real || leb max_swaps n then none else some real
]

pub record Swapped : Type 0 where
  pub sets : Sets
  pub swaps : List SelSwap
  pub new_nfds : ℕ

-- The loop of sel_swap_in, `rounds` descriptors from `fd` on.
pub swap_loop : (backing : ℤ → ℤ) → (rounds fd n new_nfds : ℕ) → Sets → Swapped
swap_loop backing zero fd n new_nfds sets = record { sets = sets; swaps = []; new_nfds = new_nfds }
swap_loop backing (suc r) fd n new_nfds sets = elim (real_for backing sets fd n) [
  | none ↦ swap_loop backing r (fd + 1) n new_nfds sets
  | some real ↦
      let rest =
        swap_loop backing r (fd + 1) (n + 1)
          (if ltb new_nfds (real + 1) then real + 1 else new_nfds) (substitute sets fd real) in
      record rest {
        swaps =
            record { synth_fd = fd; real_fd = real; s_in = λ d. sets d fd; r_in = λ d. sets d real }
            ∷ rest.swaps;
      }
]

abbrev pub scanned : ℕ → ℕ
scanned nfds = if ltb nfds fd_setsize then nfds else fd_setsize

pub sel_swap_in : (backing : ℤ → ℤ) → (nfds : ℕ) → Sets → Swapped
sel_swap_in backing nfds sets = swap_loop backing (scanned nfds) 0 0 nfds sets

-- One round of pass 1 of sel_unwind, and the pass.
pub mirror_one : SelSwap → Sets → Sets
mirror_one s out d x = out d x || (s.s_in d && (x == s.synth_fd) && out d s.real_fd)

pub mirror : List SelSwap → Sets → Sets
mirror [] out = out
mirror (s ∷ ss) out = mirror ss (mirror_one s out)

-- The same of pass 2.
pub clear_one : SelSwap → Sets → Sets
clear_one s out d x = not (s.s_in d && not (s.r_in d) && (x == s.real_fd)) && out d x

pub clear : List SelSwap → Sets → Sets
clear [] out = out
clear (s ∷ ss) out = clear ss (clear_one s out)

pub sel_unwind : List SelSwap → Sets → Sets
sel_unwind swaps out = clear swaps (mirror swaps out)

abbrev pub count_at : Sets → ℕ → ℕ
count_at sets fd =
    (if sets 0 fd then 1 else 0) + (if sets 1 fd then 1 else 0) + (if sets 2 fd then 1 else 0)

-- The loop of sel_recount below `n`.
pub recount : ℕ → Sets → ℕ
recount zero sets = 0
recount (suc n) sets = recount n sets + count_at sets n

-- The kernel's select or pselect by the number of the call: its result and the sets that it leaves.
abbrev pub Kernel : Type 0
Kernel = (k nfds : ℕ) → Sets → Res ℕ × Sets

-- After the retry. The kernel's count includes the low bits, so that the difference is not
-- negative.
pub after_retry : List SelSwap → (nfds eff_nfds : ℕ) → Res ℕ × Sets → Res ℕ × Sets
after_retry swaps nfds eff_nfds (fail e, out) = (fail e, sel_unwind swaps out)
after_retry swaps nfds eff_nfds (ret rv, out) =
    let sets = sel_unwind swaps out in
    if rv == 0
    then (ret 0, sets)
    else (ret (rv - recount (scanned eff_nfds) out + recount (scanned nfds) sets), sets)

pub retry : (backing : ℤ → ℤ) → Kernel → (nfds : ℕ) → Sets → Res ℕ × Sets
retry backing kernel nfds sets =
    let s = sel_swap_in backing nfds sets in
    elim s.swaps [
      | [] ↦ (fail eperm, sets)
      | _ ∷ _ ↦ after_retry s.swaps nfds s.new_nfds (kernel 1 s.new_nfds s.sets)
    ]

pub sel_dispatch : (backing : ℤ → ℤ) → Kernel → (passthru : Bool) → (nfds : ℕ) → Sets → Res ℕ × Sets
sel_dispatch backing kernel passthru nfds sets = elim ((kernel 0 nfds sets).0) [
  | ret rv ↦ kernel 0 nfds sets
  | fail e ↦
      if not (e == eperm) || passthru
      then kernel 0 nfds sets
      else retry backing kernel nfds (kernel 0 nfds sets).1
]
