-- ===== src/User.antt =====
-- src/x86/user/libc: the C library of the programs in user land.
pub mod Heap
pub mod History
pub mod Readline
mod Tests
