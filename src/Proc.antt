-- ===== src/Proc.antt =====
-- proc.c: the files of /proc that the library synthesizes.
pub mod Seek
pub mod MinAddr
pub mod Mem
mod Tests
