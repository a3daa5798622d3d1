-- ===== src/Statx.antt =====
-- statx.c: the polyfills of statx for what WSL1 does not report, and record_btime_now of open.c,
-- which writes what read_btime_xattr reads.
pub mod MountInfo
pub mod Btime
pub mod Masks
mod Tests
use wslcompat.Prelude.{
  ℕ, zero, suc, ◌+◌, ◌-◌, ◌*◌, ◌/◌, ◌%◌, ◌^◌, ◌≤◌, ◌<◌, ◌≡◌, refl, sym, ap, ◌∙◌, ◌≢◌, ◌↔◌, ◌⊎◌, inl,
  inr, Bool, true, false, not, ◌&&◌, ◌||◌, Option, none, some, List, [], ◌∷◌, ◌++◌, map, arith, ltb,
  leb, ◌==◌, if◌then◌else◌, ltb→lt, lt→ltb, leb→le, ==_iff, ==_self, Bool-cases, Option-cases,
  length, get_elem?, get_or, set, take, take_all, drop, replicate, length-append, length-set,
  get_elem?-set_self, get_elem?-set_ne, length-replicate, length-map, length-snoc, append-cons,
  is_some, Res, ret, fail, eperm, enoent, eintr, e2big, enoexec, ebadf, ewouldblock, enomem, efault,
  eexist, enodev, einval, enfile, enosys, enoprotoopt, eopnotsupp,
}
use wslcompat.Prelude.Int.{ℤ, pos, negsuc, minus_one, int_eq, is_neg, int_eq_iff, int_eq_self}
use wslcompat.Prelude.Decimal.{
  strtoull, skip_spaces, read_sign, read_digits, digit_first, decimal, signed,
}

-- What strchr finds: the text from the first `c` on.
unfoldable pub find_char : ℕ → List ℕ → Option (List ℕ)
find_char c [] = none
find_char c (x ∷ xs) = let rest = find_char c xs in if x == c then some (x ∷ xs) else rest

-- A line of mountinfo up to the device: the id and the device, and what follows, or none where ':'
-- is missing.
pub record Mount : Type 0 where
  pub id : ℕ
  pub major : ℕ
  pub minor : ℕ
  pub behind : List ℕ

unfoldable pub read_minor : (id major : ℕ) → List ℕ → Option Mount
read_minor id major [] = none
read_minor id major (c ∷ p) =
    let (minor, rest) = strtoull p in
    if c == b':'
    then some (record { id = id; major = major % 2 ^ 32; minor = minor % 2 ^ 32; behind = rest })
    else none

unfoldable pub read_mount : List ℕ → Option Mount
read_mount curr =
    let (id, p) = strtoull curr in
    let (parent, q) = strtoull p in let (major, r) = strtoull q in read_minor id major r

unfoldable pub is_device : (major minor : ℕ) → Mount → Bool
is_device major minor m = (m.major == major) && (m.minor == minor)

-- The loop of lookup_mnt_id on the text that is left; `none` when the fuel runs out.
unfoldable pub mount_loop : ℕ → (major minor : ℕ) → List ℕ → Option ℕ
mount_loop zero major minor curr = none
mount_loop (suc f) major minor [] = some 0
mount_loop (suc f) major minor (c ∷ cs) = elim (read_mount (c ∷ cs)) [
  | none ↦ some 0
  | some m ↦ elim (is_device major minor m) [
    | true ↦ some m.id
    | false ↦ elim (find_char 10 m.behind) [
      | none ↦ some 0
      | some line ↦ mount_loop f major minor (drop 1 line)
    ]
  ]
]

abbrev pub mount_buf : ℕ
mount_buf = 8192

-- lookup_mnt_id, from what pread gives; a failure is none, as is mountinfo that does not open.
unfoldable pub lookup_mnt_id : Option (List ℕ) → (major minor : ℕ) → Option ℕ
lookup_mnt_id none major minor = some 0
lookup_mnt_id (some text) major minor = mount_loop mount_buf major minor (take (mount_buf - 1) text)

-- The seconds and nanoseconds of a struct statx_timestamp.
pub record Timestamp : Type 0 where
  pub tv_sec : ℤ
  pub tv_nsec : ℕ

unfoldable pub less : ℤ → ℤ → Bool
less (pos a) (pos b) = ltb a b
less (pos a) (negsuc b) = false
less (negsuc a) (pos b) = true
less (negsuc a) (negsuc b) = ltb b a

-- stx_ts_min
unfoldable pub stx_ts_min : Timestamp → Timestamp → Timestamp
stx_ts_min a b =
    if less a.tv_sec b.tv_sec
    then a
    else if less b.tv_sec a.tv_sec
    then b
    else if ltb a.tv_nsec b.tv_nsec
    then a
    else b

-- printf's %09lu
unfoldable pub pad : (width n : ℕ) → List ℕ
pad zero n = []
pad (suc w) n = pad w (n / 10) ++ (48 + n % 10) ∷ []

-- %ld
unfoldable pub print_seconds : ℤ → List ℕ
print_seconds (pos s) = signed false s
print_seconds (negsuc s) = signed true (suc s)

-- What record_btime_now writes, with %ld.%09ld.
unfoldable pub btime_text : Timestamp → List ℕ
btime_text ts = print_seconds ts.tv_sec ++ b'.' ∷ pad 9 ts.tv_nsec

-- A long long from its sign and digits, saturated.
unfoldable pub to_ll : Bool → ℕ → ℤ
to_ll true zero = pos 0
to_ll true (suc n) = if ltb n (2 ^ 63) then negsuc n else negsuc (2 ^ 63 - 1)
to_ll false n = if ltb n (2 ^ 63) then pos n else pos (2 ^ 63 - 1)

-- The unsigned int behind the point, from the sign and the digits of %u.
unfoldable pub scan_nsec : ℤ → Bool × List ℕ → Option Timestamp
scan_nsec sec (neg, t) =
    if digit_first t
    then some (record {
      tv_sec = sec;
      tv_nsec = (let v = (read_digits 0 t).0 in if neg then (2 ^ 64 - v) % 2 ^ 32 else v % 2 ^ 32);
    })
    else none

-- `.%u`
unfoldable pub scan_fraction : ℤ → List ℕ → Option Timestamp
scan_fraction sec [] = none
scan_fraction sec (c ∷ cs) = if c == b'.' then scan_nsec sec (read_sign (skip_spaces cs)) else none

-- sscanf of %lld.%u, none where it reads fewer than two numbers.
unfoldable pub scan_btime : List ℕ → Option Timestamp
scan_btime s =
    let (neg, t) = read_sign (skip_spaces s) in
    if digit_first t
    then (let (v, rest) = read_digits 0 t in scan_fraction (to_ll neg v) rest)
    else none

-- How read_btime_xattr names the file: by a path, followed or not, below the descriptor's entry of
-- /proc/self/fd or not; by ".", or by the descriptor.
pub data Target : Type 0 where
  by_path : (follow : Bool) → (below : Option ℤ) → List ℕ → Target
  by_cwd : Target
  by_fd : ℤ → Target

abbrev pub at_fdcwd : ℤ
at_fdcwd = negsuc 99

unfoldable pub is_absolute : List ℕ → Bool
is_absolute [] = false
is_absolute (c ∷ cs) = c == b'/'

-- `pathname` is none for NULL.
unfoldable pub btime_target : (dirfd : ℤ) → Option (List ℕ) → (nofollow : Bool) → Option Target
btime_target dirfd none nofollow = none
btime_target dirfd (some []) nofollow = some (if int_eq dirfd at_fdcwd then by_cwd else by_fd dirfd)
btime_target dirfd (some (c ∷ cs)) nofollow = some (
    by_path (not nofollow)
      (if is_absolute (c ∷ cs) || int_eq dirfd at_fdcwd then none else some dirfd) (c ∷ cs))

-- The kernel's getxattr, lgetxattr and fgetxattr of user.wslcompat.btime, none on failure.
unfoldable pub read_btime_xattr : (Target → Option (List ℕ)) → Option Target → Option Timestamp
read_btime_xattr xattr none = none
read_btime_xattr xattr (some t) = elim (xattr t) [ none ↦ none | some text ↦ scan_btime text ]

-- The bits of a mask.
pub data Bit : Type 0 where
  stx_type stx_ino stx_mtime stx_ctime stx_btime stx_mnt_id : Bit
  other_bit : ℕ → Bit

abbrev pub Mask : Type 0
Mask = Bit → Bool

unfoldable pub forced : Mask
forced stx_type = true
forced stx_ino = true
forced stx_mtime = true
forced stx_ctime = true
forced _ = false

-- Set one bit.
unfoldable pub with_mnt_id : Mask → Mask
with_mnt_id m stx_mnt_id = true
with_mnt_id m b = m b

unfoldable pub with_btime : Mask → Mask
with_btime m stx_btime = true
with_btime m b = m b

-- struct statx. `mount_root` is STATX_ATTR_MOUNT_ROOT of stx_attributes, and `knows_mount_root` of
-- stx_attributes_mask.
pub record Statx : Type 0 where
  pub mask : Mask
  pub is_dir : Bool
  pub dev_major : ℕ
  pub dev_minor : ℕ
  pub ino : ℕ
  pub mnt_id : ℕ
  pub mount_root : Bool
  pub knows_mount_root : Bool
  pub btime : Timestamp
  pub mtime : Timestamp
  pub ctime : Timestamp

-- What statx asks elsewhere: fstatat of the parent, as its device and inode; mountinfo; the xattr.
pub record Env : Type 0 where
  pub parent : Option (ℕ × ℕ × ℕ)
  pub mountinfo : Option (List ℕ)
  pub btime : Option Timestamp

unfoldable pub is_mount_root : Option (ℕ × ℕ × ℕ) → Statx → Bool
is_mount_root none s = false
is_mount_root (some (major, minor, ino)) s =
    s.mask stx_type
    && s.is_dir
    && s.mask stx_ino
    && (not ((s.dev_major == major) && (s.dev_minor == minor)) || (s.ino == ino))

-- `id` is what lookup_mnt_id gives.
unfoldable pub fill_mnt_id : (wanted : Mask) → (id : ℕ) → Statx → Statx
fill_mnt_id wanted id s =
    if wanted stx_mnt_id && not (s.mask stx_mnt_id)
    then record s { mnt_id = id; mask = if id == 0 then s.mask else with_mnt_id s.mask }
    else s

unfoldable pub fill_mount_root : Env → Statx → Statx
fill_mount_root env s = if s.knows_mount_root then s else record s {
  mount_root = s.mount_root || is_mount_root env.parent s;
  knows_mount_root = true;
}

unfoldable pub fill_btime : (wanted : Mask) → Option Timestamp → Statx → Statx
fill_btime wanted (some t) s =
    if wanted stx_btime && not (s.mask stx_btime)
    then record s { btime = t; mask = with_btime s.mask }
    else s
fill_btime wanted none s =
    if wanted stx_btime && not (s.mask stx_btime) && s.mask stx_mtime && s.mask stx_ctime
    then record s { btime = stx_ts_min s.mtime s.ctime; mask = with_btime s.mask }
    else s

unfoldable pub clear_forced : (wanted : Mask) → Statx → Statx
clear_forced wanted s = record s { mask = λ b. s.mask b && not (forced b && not (wanted b)) }

-- On what the kernel filled in; none where the fuel of lookup_mnt_id runs out.
unfoldable pub polyfill : Env → (wanted : Mask) → Statx → Option Statx
polyfill env wanted s = elim (lookup_mnt_id env.mountinfo s.dev_major s.dev_minor) [
  | none ↦ none
  | some id ↦ some (
      clear_forced wanted
        (fill_btime wanted env.btime (fill_mount_root env (fill_mnt_id wanted id s))))
]

-- The kernel's statx for a mask.
unfoldable pub statx :
    (passthru : Bool) → Env → (kernel : Mask → Res Statx) → Mask → Option (Res Statx)
statx passthru env kernel wanted =
    if passthru then some (kernel wanted) else elim (kernel (λ b. wanted b || forced b)) [
      | fail e ↦ some (fail e)
      | ret s ↦ elim (polyfill env wanted s) [ none ↦ none | some s' ↦ some (ret s') ]
    ]
