-- ===== src/Sfs.antt =====
-- The simple file system of lab8/kern/fs/sfs: its disk, the blocks of a file, and reading a file.
pub mod Disk
pub mod Bmap
pub mod Io
pub mod Mapped
pub mod Filled
pub mod Parts
pub mod Read
mod Tests
