-- ===== src/Sync.antt =====
-- lab8/kern/sync: wait queues, semaphores and condition variables.
pub mod Wait
pub mod Sem
pub mod Handover
pub mod Monitor
pub mod Hoare
mod Tests
