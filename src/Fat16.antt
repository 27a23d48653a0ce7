-- ===== src/Fat16.antt =====
-- src/x86/driver/fat16/fat16.c over the streams: the layout of the volume, the file allocation
-- table, names and stamps of directory entries, and the calls on files and directories.
pub mod Layout
pub mod Table
pub mod Stamps
pub mod Names
pub mod Entries
pub mod Files
pub mod Directories
pub mod Writes
pub mod Creation
pub mod Status
mod Tests
