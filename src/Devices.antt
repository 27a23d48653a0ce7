-- ===== src/Devices.antt =====
-- src/x86/driver: the keyboard, and the clock in the CMOS.
pub mod Keyboard
pub mod Clock
mod Tests
