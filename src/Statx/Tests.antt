-- ===== src/Statx/Tests.antt =====
-- A file of 1969, and a mountinfo of two mounts.
use wslcompat.Prelude.{
  ◌≡◌, refl, true, false, not, ◌&&◌, ◌||◌, Option, none, some, [], ◌∷◌, ◌++◌, arith, replicate, Res,
  ret,
}
use wslcompat.Prelude.Int.{pos, negsuc}
use wslcompat.Prelude.Decimal.{decimal}
use wslcompat.Statx.{
  is_absolute, Timestamp, Mask, Statx, Env, stx_ino, stx_btime, stx_mnt_id, forced, statx,
  btime_text, btime_target, read_btime_xattr, by_path, by_cwd, pad, print_seconds,
}
use wslcompat.Statx.MountInfo.{Line, AllLines}
use wslcompat.Statx.Btime.{IsTimestamp}
use wslcompat.Statx.Masks.{statx_masks, statx_birth_time}

abbrev root : Line
root = record { id = 2; parent = 1; major = 0; minor = 2; rest = 32 ∷ b'/' ∷ [] }

abbrev proc : Line
proc = record { id = 3; parent = 2; major = 0; minor = 5; rest = 32 ∷ b'/' ∷ b'p' ∷ [] }

mounts_lines : AllLines (root ∷ proc ∷ [])
mounts_lines = (
  record {
    id_fits = omega arith;
    parent_fits = omega arith;
    major_fits = omega arith;
    minor_fits = omega arith;
    ends = refl;
    one_line = (refl, (refl, tt));
  },
  (
    record {
      id_fits = omega arith;
      parent_fits = omega arith;
      major_fits = omega arith;
      minor_fits = omega arith;
      ends = refl;
      one_line = (refl, (refl, (refl, tt)));
    },
    tt,
  ),
)

abbrev before_epoch : Timestamp
before_epoch = record { tv_sec = negsuc 4; tv_nsec = 7 }

abbrev today : Timestamp
today = record { tv_sec = pos 1700000000; tv_nsec = 1 }

before_epoch-IsTimestamp : IsTimestamp before_epoch
before_epoch-IsTimestamp = record { sec_fits = omega arith; nsec_fits = omega arith }

-- -5.000000007
written : btime_text before_epoch ≡ b'-' ∷ b'5' ∷ b'.' ∷ (replicate 8 b'0' ++ b'7' ∷ [])
unfolding btime_text print_seconds decimal pad
written = refl

below_descriptor :
    btime_target (pos 4) (some (b'a' ∷ [])) true ≡ some (by_path false (some (pos 4)) (b'a' ∷ []))
unfolding btime_target is_absolute
below_descriptor = refl

-- The kernel reports what is asked, but no birth time and no mount id.
abbrev old_mask : Mask → Mask
old_mask m stx_btime = false
old_mask m stx_mnt_id = false
old_mask m b = m b

abbrev inode : Mask → Statx
inode m = record {
  mask = m;
  is_dir = false;
  dev_major = 0;
  dev_minor = 5;
  ino = 99;
  mnt_id = 0;
  mount_root = false;
  knows_mount_root = false;
  btime = today;
  mtime = today;
  ctime = before_epoch;
}

abbrev kernel : Mask → Res Statx
kernel m = ret (inode (old_mask m))

abbrev birth_only : Mask
birth_only stx_btime = true
birth_only _ = false

abbrev env : Option Timestamp → Env
env t = record { parent = none; mountinfo = none; btime = t }

abbrev answer : Statx
answer = inode (old_mask (λ b. birth_only b || forced b))

-- The inode number was forced and is not reported.
statx_masks_example :
    (s' : Statx) × (statx false (env none) kernel birth_only ≡ some (ret s'))
    × (s'.mask stx_ino ≡ (answer.mask stx_ino && not (forced stx_ino && not (birth_only stx_ino))))
statx_masks_example =
    statx_masks (env none) kernel birth_only answer stx_ino refl (λ e. cc) (λ e. cc)

statx_birth_time_example :
    (s' : Statx) × (statx false
        (env (read_btime_xattr (λ t. some (btime_text before_epoch)) (some by_cwd)))
        kernel
        birth_only
      ≡ some (ret s'))
    × (s'.btime ≡ before_epoch)
    × (s'.mask stx_btime ≡ true)
statx_birth_time_example =
    statx_birth_time (env (read_btime_xattr (λ t. some (btime_text before_epoch)) (some by_cwd)))
      kernel birth_only answer before_epoch by_cwd refl refl refl before_epoch-IsTimestamp refl
