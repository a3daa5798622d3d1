-- ===== src/Poll.antt =====
-- poll.c: poll, select and their variants over sets that hold synthetic descriptors.
pub mod Swap
pub mod Dispatch
pub mod Select
mod Tests
