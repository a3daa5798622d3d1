-- ===== src/Clock/CpuClock.antt =====
-- clock.c, `encoded_cpuclock_who`: clock ids that encode a process or thread. An id is an `int` in
-- two's complement, so that `negsuc n` has the low bits of `~n` and `>> 3` takes it to
-- `negsuc (n / 8)`.
use wslcompat.Prelude.{
  ℕ, ◌+◌, ◌-◌, ◌*◌, ◌/◌, ◌%◌, ◌<◌, ◌≡◌, refl, ◌∙◌, Bool, true, false, not, ◌&&◌, ◌||◌, Option, none,
  some, arith, ◌==◌, if◌then◌else◌,
}
use wslcompat.Prelude.Int.{ℤ, pos, negsuc}

pub data Who : Type 0 where
  rusage_self rusage_thread : Who

-- `none` is -1.
pub encoded_cpuclock_who : (pid tid : ℕ) → (clockid : ℤ) → Option Who
encoded_cpuclock_who pid tid (pos n) = none
encoded_cpuclock_who pid tid (negsuc n) =
    let bits = 7 - n % 8 in
    let perthread = not (bits / 4 == 0) in
    let self = if perthread then tid else pid in
    if not (bits % 4 == 2)
    then none
    else if not (n / 8 == 0) && not (n / 8 == self)
    then none
    else if perthread
    then some rusage_thread
    else some rusage_self

-- The C library's encoding, `(~pid << 3) | bits`.
abbrev pub encode : (pid bits : ℕ) → ℤ
encode pid bits = negsuc (pid * 8 + (7 - bits))

module _ (p c : ℕ) (h : c < 8) where
  encode-bits : (p * 8 + (7 - c)) % 8 ≡ 7 - c
  encode-bits = omega arith

  encode-pid : (p * 8 + (7 - c)) / 8 ≡ p
  encode-pid = omega arith

-- The answer for an id encoded from a pid and bits.
decoded :
    (pid tid p c : ℕ)
    → c < 8
    → encoded_cpuclock_who pid tid (encode p c) ≡ (
        if not (c % 4 == 2)
        then none
        else if not (p == 0) && not (p == (if not (c / 4 == 0) then tid else pid))
        then none
        else if not (c / 4 == 0)
        then some rusage_thread
        else some rusage_self)
unfolding encoded_cpuclock_who
decoded pid tid p c h =
    let back : 7 - (7 - c) ≡ c = omega arith in rw (encode-bits p c h, encode-pid p c h, back) refl

-- An id encoded from a pid and three bits is answered from the process's own times exactly if the
-- low two bits are the scheduler clock's and the pid is 0 or the caller's own; with the third bit,
-- from the thread's, if the pid is 0 or the thread's own id.
pub encoded_cpuclock_who_lem :
    (pid tid p : ℕ) (kind : ℕ) (perthread : Bool)
    → kind < 4
    → encoded_cpuclock_who pid tid (encode p (if perthread then 4 + kind else kind)) ≡ (
        if (kind == 2) && ((p == 0) || (p == (if perthread then tid else pid)))
        then some (if perthread then rusage_thread else rusage_self)
        else none)
encoded_cpuclock_who_lem pid tid p kind true h =
    let low : (4 + kind) % 4 ≡ kind = omega arith in
    let high : (4 + kind) / 4 ≡ 1 = omega arith in
    decoded pid tid p (4 + kind) (omega arith) ∙ rw (low, high) (ground arith)
encoded_cpuclock_who_lem pid tid p kind false h =
    let low : kind % 4 ≡ kind = omega arith in
    let high : kind / 4 ≡ 0 = omega arith in
    decoded pid tid p kind (omega arith) ∙ rw (low, high) (ground arith)
