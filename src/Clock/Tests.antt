-- ===== src/Clock/Tests.antt =====
-- A process that uses a second of CPU time in each round, and the theorems of this part at it.
use wslcompat.Prelude.{◌+◌, ◌*◌, refl, true, false, not, ◌&&◌, arith, ret}
use wslcompat.Prelude.Int.{pos}
use wslcompat.Clock.CpuSleep.{tv_to_ns, Kernel, rusage_cpu_ns, handle_process_cputime}
use wslcompat.Clock.CpuSleep.Waits.{Advances, Reached, target_of, handle_process_cputime-Reached}

abbrev kernel : Kernel
kernel = record {
  getrusage =
      λ k. ret (record { tv_sec = k; tv_usec = 0 }, record { tv_sec = 0; tv_usec = 250000 });
  nanosleep = λ _ _. 0;
}

kernel-Advances : Advances kernel (λ k. k * 1000000000 + 250000000)
unfolding rusage_cpu_ns tv_to_ns
kernel-Advances = record {
  sleeps = λ _ _. refl;
  reads = λ k. ground arith;
  later = λ k. omega arith;
}

handle_process_cputime-Reached_example :
    Reached
      (target_of false 250000000 2000000000)
      (true && not false)
      (handle_process_cputime (2 * 1000000000 + 0 + 1) kernel false true (pos 2) (pos 0))
handle_process_cputime-Reached_example =
    handle_process_cputime-Reached kernel (λ k. k * 1000000000 + 250000000) false true 2 0
      kernel-Advances (omega arith) (omega arith)
