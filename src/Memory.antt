-- ===== src/Memory.antt =====
-- Physical and virtual memory of the x86 kernel: src/x86/memory/pfa.c and src/x86/memory/page.c.
pub mod Frames
pub mod Paging
pub mod Chunks
mod Tests
