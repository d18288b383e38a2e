-- ===== src/Sync.antt =====
-- The synchronisation library of SyncProject.
pub mod Atomic
pub mod Spinlock
pub mod Barrier
pub mod LfQueue
pub mod RwLock
pub mod Driver
