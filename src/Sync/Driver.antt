-- ===== src/Sync/Driver.antt =====
-- The exercises of SyncProject/driver.c, in which threads use what SyncProject/locking.c offers. The
-- number of the iterations, 1000 there, is a parameter. A schedule is the list of the threads that
-- move, one after the other; where a thread waits at the barrier of the pthread library it moves when
-- that lets it pass.
pub mod Subtract
pub mod Locked
pub mod Rounds
mod Tests
