-- ===== src/Statx/Masks.antt =====
-- What statx reports to its caller.
use wslcompat.Prelude.{
  ℕ, ◌≡◌, refl, ap, ◌∙◌, ◌≢◌, inl, inr, Bool, true, false, not, ◌&&◌, ◌||◌, Option, none, some,
  arith, ltb, Option-cases, Res, ret,
}
use wslcompat.Prelude.Int.{ℤ, pos, negsuc}
use wslcompat.Statx.{
  Timestamp, Bit, Mask, Statx, Env, stx_mtime, stx_ctime, stx_btime, stx_mnt_id, forced,
  with_mnt_id, with_btime, stx_ts_min, lookup_mnt_id, fill_mnt_id, fill_mount_root, fill_btime,
  clear_forced, polyfill, statx,
}
use wslcompat.Statx.{Target, read_btime_xattr, btime_text, less}
use wslcompat.Statx.Btime.{IsTimestamp, read_btime_xattr-btime_text}
use wslcompat.Statx.MountInfo.{lookup_mnt_id-Ends}

-- The result once the mount's id is known.
abbrev filled : Env → Mask → ℕ → Statx → Statx
filled env wanted id s =
    clear_forced wanted
      (fill_btime wanted env.btime (fill_mount_root env (fill_mnt_id wanted id s)))

with_mnt_id-other : (m : Mask) (b : Bit) → b ≢ stx_mnt_id → with_mnt_id m b ≡ m b
unfolding with_mnt_id
with_mnt_id-other m stx_mnt_id p = absurd (p refl)
with_mnt_id-other m b p = refl

with_btime-other : (m : Mask) (b : Bit) → b ≢ stx_btime → with_btime m b ≡ m b
unfolding with_btime
with_btime-other m stx_btime p = absurd (p refl)
with_btime-other m b p = refl

fill_mnt_id-other :
    (wanted : Mask) (id : ℕ) (s : Statx) (b : Bit)
    → b ≢ stx_mnt_id
    → (fill_mnt_id wanted id s).mask b ≡ s.mask b
unfolding fill_mnt_id
fill_mnt_id-other wanted id s b p = ground (arith, with_mnt_id-other s.mask b p)

fill_mount_root_mask : (env : Env) (s : Statx) (b : Bit) → (fill_mount_root env s).mask b ≡ s.mask b
unfolding fill_mount_root
fill_mount_root_mask env s b = ground arith

fill_btime-other :
    (wanted : Mask) (o : Option Timestamp) (s : Statx) (b : Bit)
    → b ≢ stx_btime
    → (fill_btime wanted o s).mask b ≡ s.mask b
unfolding fill_btime
fill_btime-other wanted none s b p = ground (arith, with_btime-other s.mask b p)
fill_btime-other wanted (some t) s b p = ground (arith, with_btime-other s.mask b p)

filled_other :
    (env : Env) (wanted : Mask) (id : ℕ) (s : Statx) (b : Bit)
    → b ≢ stx_btime
    → b ≢ stx_mnt_id
    → (filled env wanted id s).mask b ≡ (s.mask b && not (forced b && not (wanted b)))
unfolding clear_forced
filled_other env wanted id s b p q =
    let t = fill_mnt_id wanted id s in
    let u = fill_mount_root env t in
    ap (λ x. x && not (forced b && not (wanted b)))
      (fill_btime-other wanted env.btime u b p
        ∙ fill_mount_root_mask env t b
        ∙ fill_mnt_id-other wanted id s b q)

fill_btime_lem :
    (wanted : Mask) (t : Timestamp) (s : Statx)
    → wanted stx_btime ≡ true
    → s.mask stx_btime ≡ false
    → ((fill_btime wanted (some t) s).btime ≡ t)
      × ((fill_btime wanted (some t) s).mask stx_btime ≡ true)
unfolding fill_btime with_btime
fill_btime_lem wanted t s w n = ground arith

fill_btime-guess :
    (wanted : Mask) (s : Statx)
    → wanted stx_btime ≡ true
    → s.mask stx_btime ≡ false
    → s.mask stx_mtime ≡ true
    → s.mask stx_ctime ≡ true
    → ((fill_btime wanted none s).btime ≡ stx_ts_min s.mtime s.ctime)
      × ((fill_btime wanted none s).mask stx_btime ≡ true)
unfolding fill_btime with_btime
fill_btime-guess wanted s w n m c = ground arith

earlier_times :
    (env : Env) (wanted : Mask) (id : ℕ) (s : Statx)
    → ((fill_mount_root env (fill_mnt_id wanted id s)).mtime ≡ s.mtime)
      × ((fill_mount_root env (fill_mnt_id wanted id s)).ctime ≡ s.ctime)
unfolding fill_mount_root fill_mnt_id
earlier_times env wanted id s = ground arith

stx_btime-ne-stx_mnt_id : stx_btime ≢ stx_mnt_id
stx_btime-ne-stx_mnt_id = λ e. cc

-- The mask before the birth time is filled in.
earlier_mask :
    (env : Env) (wanted : Mask) (id : ℕ) (s : Statx) (b : Bit)
    → b ≢ stx_mnt_id
    → (fill_mount_root env (fill_mnt_id wanted id s)).mask b ≡ s.mask b
earlier_mask env wanted id s b q =
    fill_mount_root_mask env (fill_mnt_id wanted id s) b ∙ fill_mnt_id-other wanted id s b q

-- The shim's result in terms of the kernel's.
statx_lem :
    (env : Env) (kernel : Mask → Res Statx) (wanted : Mask) (s : Statx)
    → kernel (λ b. wanted b || forced b) ≡ ret s
    → (id : ℕ) × (statx false env kernel wanted ≡ some (ret (filled env wanted id s)))
unfolding statx polyfill
statx_lem env kernel wanted s k =
    elim (Option-cases (lookup_mnt_id env.mountinfo s.dev_major s.dev_minor)) [
      | inl n ↦ absurd (lookup_mnt_id-Ends env.mountinfo s.dev_major s.dev_minor n)
      | inr (id, e) ↦ (id, rw (k, e) refl)
    ]

-- Where the kernel's statx succeeds, for the requested and the forced bits, the shim succeeds. Its
-- mask then has the kernel's bits less those that were forced and not requested, at every bit but
-- the two that the shim fills in.
pub statx_masks :
    (env : Env) (kernel : Mask → Res Statx) (wanted : Mask) (s : Statx) (b : Bit)
    → kernel (λ b. wanted b || forced b) ≡ ret s
    → b ≢ stx_btime
    → b ≢ stx_mnt_id
    → (s' : Statx) × (statx false env kernel wanted ≡ some (ret s'))
      × (s'.mask b ≡ (s.mask b && not (forced b && not (wanted b))))
statx_masks env kernel wanted s b k p q =
    let (id, e) = statx_lem env kernel wanted s k in
    (filled env wanted id s, e, filled_other env wanted id s b p q)

-- A caller that asks for the birth time of a file, on a kernel that has none, gets the time that
-- record_btime_now wrote for it, and the bit in the mask. The time has 64-bit seconds and less
-- than 10^9 nanoseconds.
pub statx_birth_time :
    (env : Env) (kernel : Mask → Res Statx) (wanted : Mask) (s : Statx) (ts : Timestamp)
    (target : Target)
    → kernel (λ b. wanted b || forced b) ≡ ret s
    → wanted stx_btime ≡ true
    → s.mask stx_btime ≡ false
    → IsTimestamp ts
    → env.btime ≡ read_btime_xattr (λ t. some (btime_text ts)) (some target)
    → (s' : Statx) × (statx false env kernel wanted ≡ some (ret s'))
      × (s'.btime ≡ ts)
      × (s'.mask stx_btime ≡ true)
unfolding clear_forced forced
statx_birth_time env kernel wanted s ts target k w n v x =
    let (id, e) = statx_lem env kernel wanted s k in
    let u = fill_mount_root env (fill_mnt_id wanted id s) in
    let read = x ∙ read_btime_xattr-btime_text ts target v in
    let missing = earlier_mask env wanted id s stx_btime stx_btime-ne-stx_mnt_id ∙ n in
    let both = fill_btime_lem wanted ts u w missing in
    (
      filled env wanted id s,
      e,
      ap (λ o. (fill_btime wanted o u).btime) read ∙ both.0,
      ap (λ o. (fill_btime wanted o u).mask stx_btime && true) read ∙ ap (λ x. x && true) both.1,
    )

-- The order of timestamps.
abbrev pub later : Timestamp → Timestamp → Bool
later a b = less b.tv_sec a.tv_sec || (not (less a.tv_sec b.tv_sec) && ltb b.tv_nsec a.tv_nsec)

less_self : (x : ℤ) → less x x ≡ false
unfolding less
less_self (pos n) = ground arith
less_self (negsuc n) = ground arith

less_asym : (x y : ℤ) → less x y ≡ true → less y x ≡ false
unfolding less
less_asym (pos a) (pos b) h = ground arith
less_asym (pos a) (negsuc b) h = cc
less_asym (negsuc a) (pos b) h = refl
less_asym (negsuc a) (negsuc b) h = ground arith

stx_ts_min-later :
    (a b : Timestamp) → (later (stx_ts_min a b) a ≡ false) × (later (stx_ts_min a b) b ≡ false)
unfolding stx_ts_min
stx_ts_min-later a b = ground (
  arith,
  less_self a.tv_sec,
  less_self b.tv_sec,
  less_asym a.tv_sec b.tv_sec,
  less_asym b.tv_sec a.tv_sec,
)

-- Without a recorded time, where the kernel reports both the times of modification and change, the
-- birth time is one of them and later than neither.
pub statx_guessed_birth :
    (env : Env) (kernel : Mask → Res Statx) (wanted : Mask) (s : Statx)
    → kernel (λ b. wanted b || forced b) ≡ ret s
    → wanted stx_btime ≡ true
    → s.mask stx_btime ≡ false
    → s.mask stx_mtime ≡ true
    → s.mask stx_ctime ≡ true
    → env.btime ≡ none
    → (s' : Statx) × (statx false env kernel wanted ≡ some (ret s'))
      × (s'.btime ≡ stx_ts_min s.mtime s.ctime)
      × (later s'.btime s.mtime ≡ false)
      × (later s'.btime s.ctime ≡ false)
unfolding clear_forced forced
statx_guessed_birth env kernel wanted s k w n m c x =
    let (id, e) = statx_lem env kernel wanted s k in
    let u = fill_mount_root env (fill_mnt_id wanted id s) in
    let at = λ (b : Bit) (q : b ≢ stx_mnt_id). earlier_mask env wanted id s b q in
    let guess =
      fill_btime-guess wanted u w (at stx_btime stx_btime-ne-stx_mnt_id ∙ n)
        (at stx_mtime (λ e. cc) ∙ m) (at stx_ctime (λ e. cc) ∙ c) in
    let times = earlier_times env wanted id s in
    let time : (filled env wanted id s).btime ≡ stx_ts_min s.mtime s.ctime =
      ap (λ o. (fill_btime wanted o u).btime) x
      ∙ guess.0
      ∙ ap (stx_ts_min u.mtime) times.1
      ∙ ap (λ a. stx_ts_min a s.ctime) times.0 in
    let order = stx_ts_min-later s.mtime s.ctime in
    (
      filled env wanted id s,
      e,
      time,
      ap (λ a. later a s.mtime) time ∙ order.0,
      ap (λ a. later a s.ctime) time ∙ order.1,
    )
