-- ===== src/Copy/Tests.antt =====
-- A source of 10 bytes behind a kernel that reads 4 at a time and writes 3 at a time.
use wslcompat.Prelude.{
  ℕ, ◌+◌, ◌-◌, ◌≡◌, refl, false, none, some, arith, ltb, if◌then◌else◌, ret, fail, ebadf,
}
use wslcompat.Copy.{Kernel, World, Pointers, emulate, copy_file_range, start_at}
use wslcompat.Copy.Loop.{IsSound, emulate_lem, transferred, to_copy}

abbrev least : ℕ → ℕ → ℕ
least a b = if ltb a b then a else b

abbrev kernel : Kernel
kernel = record {
  pread = λ k chunk offset. ret (least (least chunk 4) (10 - offset));
  pwrite = λ k j count. ret (least count 3);
}

abbrev input : ℕ → ℕ
input x = x + 100

sound : IsSound kernel 10
sound = record {
  gives = λ k chunk offset. least (least chunk 4) (10 - offset);
  reads = λ k chunk offset. refl;
  gives_most = λ k chunk offset. (ground arith, ground arith);
  gives_some = λ k chunk offset h l. ground arith;
  takes = λ k j count. least count 3;
  writes = λ k j count. refl;
  takes_most = λ k j count. ground arith;
  takes_some = λ k j count h. ground arith;
}

abbrev world : World
world = record { pos_in = 4; pos_out = 1; out = λ x. 0 }

-- The source's offset is its own, the target's the caller's.
abbrev pointers : Pointers
pointers = record { off_in = none; off_out = some 2 }

emulate_lem_example :
    emulate kernel input pointers 20 world
    ≡ some (
        transferred kernel input 10 sound
          (to_copy kernel input 10 sound pointers 20 world)
          pointers
          world)
emulate_lem_example = emulate_lem kernel input 10 sound pointers 20 world

-- Six bytes are left.
six : to_copy kernel input 10 sound pointers 20 world ≡ 6
unfolding start_at
six = refl

stays_native :
    copy_file_range false (fail ebadf, pointers, world) kernel input pointers 20 world
    ≡ some (fail ebadf, pointers, world)
unfolding copy_file_range
stays_native = refl
