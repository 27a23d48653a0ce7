-- ===== src/Libc.antt =====
-- src/x86/lib: the memory and string functions of the kernel.
pub mod Blocks
pub mod Strings
pub mod Numbers
mod Tests
