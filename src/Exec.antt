-- ===== src/Exec.antt =====
-- execve.c and tools/elfclamp.c: programs that the WSL1 loader rejects.
pub mod Elf
pub mod Clamp
pub mod Argv
pub mod Execve
mod Tests
