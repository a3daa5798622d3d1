-- ===== src/Poll/Tests.antt =====
-- An array with a synthetic descriptor, and the theorems of this part at it.
use wslcompat.Prelude.{true, false, List, [], ◌∷◌, map, if◌then◌else◌, ret}
use wslcompat.Prelude.Int.{ℤ, pos, minus_one, int_eq}
use wslcompat.Poll.Swap.{PollFd}
use wslcompat.Poll.Swap.Laws.{Same}
use wslcompat.Poll.Dispatch.{Kernel, poll_dispatch}
use wslcompat.Poll.Dispatch.Laws.{poll_dispatch_restores}

abbrev entry : ℤ → PollFd
entry fd = record { fd = fd; events = 1; revents = 0 }

-- Descriptor 5 is synthetic, backed by 12.
abbrev backing : ℤ → ℤ
backing fd = if int_eq fd (pos 5) then pos 12 else minus_one

abbrev fds : List PollFd
fds = entry (pos 3) ∷ entry (pos 5) ∷ []

-- A placeholder is always reported readable; of the real ones 12 is.
abbrev kernel : Kernel
kernel k wait ps = (ret 1, map (λ (p : PollFd). if int_eq p.fd (pos 3) then 0 else 1) ps)

poll_dispatch_restores_example : Same (poll_dispatch backing kernel false true fds).1 fds
poll_dispatch_restores_example = poll_dispatch_restores backing kernel false true fds
