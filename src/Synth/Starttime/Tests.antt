-- ===== src/Synth/Starttime/Tests.antt =====
-- Lines of /proc/<pid>/stat that the two readers get.
use wslcompat.Prelude.{◌≡◌, refl, true, false, none, some, [], ◌∷◌, arith, replicate}
use wslcompat.Prelude.Decimal.{decimal, to_ull}
use wslcompat.Synth.Starttime.{read_proc_starttime, pid_starttime, get_start_time}
use wslcompat.Synth.Starttime.Stat.{
  Field, Line, IsStat, write, read_proc_starttime-write, get_start_time-write,
}

abbrev nought : Field
nought = record { negative = false; magnitude = 0 }

abbrev tpgid : Field
tpgid = record { negative = true; magnitude = 1 }

-- The name is "a) R 7", to mislead a reader.
abbrev line : Line
line = record {
  pid = 42;
  comm = b'a' ∷ b')' ∷ 32 ∷ b'R' ∷ 32 ∷ b'7' ∷ [];
  state = b'S';
  fields = tpgid ∷ replicate 17 nought;
  starttime = 5678;
  rest = 10 ∷ [];
}

line-IsStat : IsStat line
unfolding decimal
line-IsStat = record {
  state_letter = (refl, refl);
  field_count = refl;
  fits = omega arith;
  ends = refl;
  plain = (refl, tt);
  read_whole = omega arith;
}

read_proc_starttime-write_example : read_proc_starttime (some (write line)) ≡ 5678
read_proc_starttime-write_example = read_proc_starttime-write line line-IsStat

get_start_time-write_example : get_start_time (some (write line)) ≡ to_ull false 0
get_start_time-write_example =
    get_start_time-write line (tpgid ∷ replicate 16 nought) nought line-IsStat refl

truncated : pid_starttime (some (write line)) ≡ 5678
unfolding pid_starttime
truncated = rw read_proc_starttime-write_example refl

unreadable : pid_starttime none ≡ 0
unfolding pid_starttime read_proc_starttime
unreadable = refl
