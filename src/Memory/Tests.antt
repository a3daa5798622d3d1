-- ===== src/Memory/Tests.antt =====
-- A kernel without MAP_FIXED_NOREPLACE, and the theorem of this part at it.
use wslcompat.Prelude.{
  ◌≡◌, refl, true, false, none, [], arith, if◌then◌else◌, ret, fail, enomem, einval,
}
use wslcompat.Prelude.Int.{pos}
use wslcompat.Memory.{Request, Kernel, call, lock, map_again, reservation, reserve, emulate, mmap}
use wslcompat.Memory.Owned.{Owns, FixedHonoured, mmap-Owns}

abbrev request : Request
request = record {
  addr = 8192;
  length = 100;
  prot = 3;
  flags = record { fixed = false; noreplace = true; locked = true; others = 2 };
  fd = pos 3;
  offset = 0;
}

-- It locks nothing.
abbrev kernel : Kernel
kernel = record {
  mmap_call = λ k r. if r.flags.noreplace then fail einval else ret r.addr;
  mlock = λ _. false;
  synth = λ _. none;
  passthru = false;
}

kernel-FixedHonoured : FixedHonoured kernel
kernel-FixedHonoured k r a h e = ground arith

mmap-Owns_example : Owns false [] (mmap kernel request)
mmap-Owns_example = mmap-Owns kernel request kernel-FixedHonoured

-- Reserved, mapped over the reservation, and unmapped again since it cannot be locked.
lock_fails : (mmap kernel request).1 ≡ fail enomem
unfolding mmap emulate reserve reservation map_again call lock
lock_fails = refl
