-- ===== src/Threads.antt =====
-- The user-level thread library of Threads.
pub mod Sched
pub mod Stack
