-- ===== src/Synth.antt =====
-- synth.c: synthetic descriptors.
pub mod Override
pub mod Starttime
pub mod Refcount
pub mod Table
pub mod Open
