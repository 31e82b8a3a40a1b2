-- ===== src/Files.antt =====
-- The open files of a process, of lab8/kern/fs, and the counts of vfs/inode.c that they keep.
pub mod State
pub mod Vfs
pub mod Iobuf
pub mod Table
pub mod Calls
pub mod Process
pub mod Counts
pub mod Kept
pub mod Close
pub mod Destroy
pub mod Copying
pub mod Dup
pub mod Advance
pub mod Opening
pub mod Move
mod Tests
