-- ===== src/Clock.antt =====
-- clock.c: clocks that WSL1 lacks.
pub mod Tai
pub mod CpuClock
pub mod CpuSleep
mod Tests
