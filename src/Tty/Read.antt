-- ===== src/Tty/Read.antt =====
-- A read ends, stays within the buffer, and waits for VMIN bytes.
use wslcompat.Prelude.{
  ℕ, zero, suc, ◌+◌, ◌-◌, ◌≤◌, ◌<◌, ◌≡◌, refl, inl, inr, true, false, not, ◌&&◌, ◌||◌, Option, some,
  arith, ltb, leb, ◌==◌, Bool-cases, Option-cases, Res, ret, fail,
}
use wslcompat.Prelude.Int.{ℤ}
use wslcompat.Tty.{
  TtyState, Kernel, wait_timeout, byte_timeout, round_bytes, read_loop, after_first, raw_read,
  tty_read,
}

-- A read returns at most the bytes asked for.
abbrev pub ReadsWithin : Kernel → Type 0
ReadsWithin K = (k count n : ℕ) → K.read k count ≡ ret n → n ≤ count

abbrev pub bytes_of : Res ℕ → ℕ
bytes_of (ret n) = n
bytes_of (fail e) = 0

-- The loop ends with at least the bytes it had and at most the size of the buffer.
record LoopEnds (count total : ℕ) (o : Option ℕ) : Type 0 where
  result : ℕ
  ended : o ≡ some result
  grown : total ≤ result
  within : result ≤ count

stopped : (count total : ℕ) → total ≤ count → LoopEnds count total (some total)
stopped count total h = record { result = total; ended = refl; grown = omega arith; within = h }

round_bytes-within :
    (K : Kernel) (k : ℕ) (timeout : ℤ) (len : ℕ)
    → ReadsWithin K
    → (p r : Res ℕ) → K.poll k timeout ≡ p
    → K.read k len ≡ r
    → round_bytes K k timeout len ≤ len
unfolding round_bytes
round_bytes-within K k timeout len w (fail e) r pe re = rw (pe, round_bytes) (omega arith)
round_bytes-within K k timeout len w (ret ready) (fail e) pe re =
    rw (pe, re, round_bytes) (ground arith)
round_bytes-within K k timeout len w (ret ready) (ret n) pe re =
    rw (pe, re, round_bytes) (ground (arith, w k len n re))

read_loop-LoopEnds :
    (f : ℕ) (K : Kernel) (s : TtyState) (count k total : ℕ)
    → ReadsWithin K
    → total ≤ count
    → count < total + f
    → LoopEnds count total (read_loop f K s count k total)
unfolding read_loop
read_loop-LoopEnds zero K s count k total w h e = absurd (omega arith)
read_loop-LoopEnds (suc f) K s count k total w h e =
    let n = round_bytes K k (byte_timeout s.vtime) (count - total) in
    let small : n ≤ count - total = round_bytes-within K k _ (count - total) w _ _ refl refl in
    elim (Bool-cases (ltb total s.vmin && ltb total count && not (n == 0))) [
      | inr halt ↦ rw (halt, read_loop) (stopped count total h)
      | inl go_on ↦
          let some_bytes : 0 < n = ground arith in
          let rest =
            read_loop-LoopEnds f K s count (k + 1) (total + n) w (omega arith) (omega arith) in
          rw (go_on, read_loop)
            (record {
              result = rest.result;
              ended = rest.ended;
              grown = omega (arith, rest.grown);
              within = rest.within;
            })
    ]

-- There is always something to read.
pub record Supplied (K : Kernel) : Type 0 where
  pub wakes : (k : ℕ) (timeout : ℤ) → K.poll k timeout ≡ ret 1
  pub next : ℕ → ℕ → ℕ
  pub reads : (k count : ℕ) → K.read k count ≡ ret (next k count)
  pub gives : (k count : ℕ) → 0 < count → 0 < next k count

read_loop-filled :
    (f : ℕ) (K : Kernel) (s : TtyState) (count k total r : ℕ)
    → Supplied K
    → read_loop f K s count k total ≡ some r
    → leb s.vmin r || leb count r ≡ true
unfolding read_loop round_bytes
read_loop-filled zero K s count k total r a e = cc
read_loop-filled (suc f) K s count k total r a e =
    let n = round_bytes K k (byte_timeout s.vtime) (count - total) in
    let n_eq : n ≡ a.next k (count - total) =
      rw (a.wakes k (byte_timeout s.vtime), a.reads k (count - total), round_bytes) refl in
    elim (Bool-cases (ltb total s.vmin && ltb total count && not (n == 0))) [
      | inr halt ↦
          let same = rw (halt, read_loop) at e in ground (arith, a.gives k (count - total), n_eq)
      | inl go_on ↦
          let same = rw (go_on, read_loop) at e in
          read_loop-filled f K s count (k + 1) (total + n) r a same
    ]

-- A read that ended, with a result that fits the buffer.
pub record Ends (count : ℕ) (o : Option (Res ℕ)) : Type 0 where
  pub result : Res ℕ
  pub ended : o ≡ some result
  pub within : bytes_of result ≤ count

after_first-Ends :
    (K : Kernel) (s : TtyState) (count n : ℕ)
    → ReadsWithin K
    → n ≤ count
    → Ends count (after_first K s count n)
unfolding after_first
after_first-Ends K s count n w h =
    elim (Bool-cases ((n == 0) || (s.vmin == 0) || leb s.vmin n || leb count n)) [
      | inl go_on ↦ rw (go_on, after_first) (record { result = ret n; ended = refl; within = h })
      | inr halt ↦
          let loop = read_loop-LoopEnds count K s count 1 n w h (ground arith) in
          rw (halt, loop.ended, after_first)
            (record { result = ret loop.result; ended = refl; within = loop.within })
    ]

after_read-Ends :
    (K : Kernel) (s : TtyState) (count : ℕ) (r : Res ℕ)
    → ReadsWithin K
    → K.read 0 count ≡ r
    → Ends count
        (elim (K.read 0 count) [ fail e ↦ some (fail e) | ret n ↦ after_first K s count n ])
after_read-Ends K s count (fail e) w re =
    rw re (record { result = fail e; ended = refl; within = omega arith })
after_read-Ends K s count (ret n) w re = rw re (after_first-Ends K s count n w (w 0 count n re))

raw_read-Ends :
    (K : Kernel) (s : TtyState) (count : ℕ) (p r : Res ℕ)
    → ReadsWithin K
    → K.poll 0 (wait_timeout s.vmin s.vtime) ≡ p
    → K.read 0 count ≡ r
    → Ends count (raw_read K s count)
unfolding raw_read
raw_read-Ends K s count (fail e) r w pe re =
    rw (pe, raw_read) (record { result = fail e; ended = refl; within = omega arith })
raw_read-Ends K s count (ret ready) r w pe re = elim (Bool-cases (ready == 0)) [
  | inl z ↦ rw (pe, z, raw_read) (record { result = ret 0; ended = refl; within = omega arith })
  | inr nz ↦ rw (pe, nz, raw_read) (after_read-Ends K s count r w re)
]

first_within :
    (K : Kernel) (count : ℕ) (r : Res ℕ) → ReadsWithin K → K.read 0 count ≡ r → bytes_of r ≤ count
first_within K count (fail e) w re = omega arith
first_within K count (ret n) w re = w 0 count n re

-- When the kernel's read never returns more than it is asked for: a read of a wrapped terminal
-- ends, with the size of the buffer as fuel, and its result is at most that size, whatever poll
-- says.
pub tty_read-Ends :
    (K : Kernel) (s : TtyState) (count : ℕ) → ReadsWithin K → Ends count (tty_read K s count)
unfolding tty_read
tty_read-Ends K s count w = elim (Bool-cases (K.passthru || s.canon || s.nonblock)) [
  | inl y ↦
      rw (y, tty_read)
        (record { result = K.read 0 count; ended = refl; within = first_within K count _ w refl })
  | inr n ↦ elim (Bool-cases (count == 0)) [
    | inl z ↦ rw (n, z, tty_read) (record { result = ret 0; ended = refl; within = omega arith })
    | inr nz ↦ rw (n, nz, tty_read) (raw_read-Ends K s count _ _ w refl refl)
  ]
]

-- In raw mode with a buffer and a VMIN that are not zero, while there is always something to read:
-- a read that returns a number of bytes returns at least VMIN, or fills the buffer.
pub tty_read-waits :
    (K : Kernel) (s : TtyState) (count r : ℕ)
    → Supplied K
    → K.passthru || s.canon || s.nonblock ≡ false
    → 0 < count
    → 0 < s.vmin
    → tty_read K s count ≡ some (ret r)
    → leb s.vmin r || leb count r ≡ true
unfolding tty_read raw_read after_first
tty_read-waits K s count r a raw c v e =
    let nz : (count == 0) ≡ false = ground arith in
    let first : 0 < a.next 0 count = a.gives 0 count c in
    let e' =
      rw (raw, nz, a.wakes 0 (wait_timeout s.vmin s.vtime), a.reads 0 count, tty_read, raw_read) at
        e in
    elim (Bool-cases (
      (a.next 0 count == 0)
      || (s.vmin == 0)
      || leb s.vmin (a.next 0 count)
      || leb count (a.next 0 count))) [
        | inl go_on ↦ let e'' = rw (go_on, after_first) at e' in ground arith
        | inr halt ↦
            let e'' = rw (halt, after_first) at e' in
            elim (Option-cases (read_loop count K s count 1 (a.next 0 count))) [
              | inl x ↦ let bad = rw x at e'' in cc
              | inr (t, x) ↦
                  let same = rw x at e'' in
                  let filled = read_loop-filled count K s count 1 _ t a x in ground arith
            ]
      ]
