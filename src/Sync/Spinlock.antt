-- ===== src/Sync/Spinlock.antt =====
-- The spin lock of SyncProject/locking.c, taken and released by any number of threads in any order.
-- A move is one access of the shared word: a turn of the loop of `spinlock_lock`, or the store of
-- `spinlock_unlock`. A schedule is the list of the threads that move, one after the other.
pub mod Exclusion
mod Tests
use cs.Prelude.{ℕ, Bool, true, false, List, [], ◌∷◌, ◌==◌, if◌then◌else◌}
use cs.Sync.Atomic.{compare_and_swap}

-- `struct spinlock`
pub record Spinlock : Type 0 where
  pub free : ℕ  -- unsigned int

unfoldable pub spinlock_init : Spinlock
spinlock_init = record { free = 1 }

-- One turn of the loop of `spinlock_lock`, with whether the loop ends.
unfoldable pub spinlock_lock : Spinlock → Spinlock × Bool
spinlock_lock lock =
    let (original, free') = compare_and_swap lock.free 1 0 in
    (record { free = free' }, if original == 0 then false else true)

unfoldable pub spinlock_unlock : Spinlock → Spinlock
spinlock_unlock lock = record { free = 1 }

-- Where a thread stands: outside, in the loop of `spinlock_lock`, or between it and the unlock.
pub data Pc : Type 0 where
  outside locking inside : Pc

pub record System : Type 0 where
  pub lock : Spinlock
  pub pc : ℕ → Pc

unfoldable pub move : Spinlock → Pc → Spinlock × Pc
move lock outside = (lock, locking)
move lock locking =
    let (lock', taken) = spinlock_lock lock in (lock', if taken then inside else locking)
move lock inside = (spinlock_unlock lock, outside)

unfoldable pub step : ℕ → System → System
step i s =
    let (lock', p) = move s.lock (s.pc i) in
    record { lock = lock'; pc = λ j. if i == j then p else s.pc j }

pub run : List ℕ → System → System
run [] s = s
run (i ∷ is) s = run is (step i s)

-- Every thread is outside of a lock that was initialised.
unfoldable pub start : System
start = record { lock = spinlock_init; pc = λ _. outside }
