-- ===== src/Vmm.antt =====
-- lab8/kern/mm/vmm.c: the memory areas of a process.
pub mod Areas
pub mod Access
pub mod Lookup
pub mod Check
pub mod Gap
pub mod Insert
mod Tests
