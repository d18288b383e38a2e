-- ===== src/Sync/Driver/Locked.antt =====
-- The exercise of SyncProject/driver.c in which the threads count in a plain variable under the spin
-- lock of SyncProject/locking.c.
pub mod Counts
pub mod Ends
use cs.Prelude.{ℕ, ◌+◌, ◌%◌, ◌^◌, Bool, true, false, List, [], ◌∷◌, ◌==◌, ltb, if◌then◌else◌}
use cs.Sync.Spinlock as Spinlock

-- Where a thread stands in `ex3_fn`, with the local variables that are live there.
pub data Job : Type 0 where
  waiting : Job  -- at the barrier
  turning : (i : ℕ) → Job  -- before a turn of the loop
  locking : (i : ℕ) → Job  -- in `spinlock_lock`
  loading : (i : ℕ) → Job  -- before the load of `global_value += 1`
  storing : (i value : ℕ) → Job  -- before its store
  unlocking : (i : ℕ) → Job  -- before `spinlock_unlock`
  finished : Job

-- The variable, the lock with where each thread stands in its functions, and where it stands here.
pub record System : Type 0 where
  pub global_value : ℕ  -- int
  pub lock : Spinlock.System
  pub job : ℕ → Job

abbrev pub has_lock : Spinlock.Pc → Bool
has_lock Spinlock.inside = true
has_lock _ = false

module _ (iterations : ℕ) where
  -- One move of a thread.
  abbrev pub ex3_fn : ℕ → Job → ℕ → Spinlock.System → ℕ × Spinlock.System × Job
  ex3_fn me waiting value lock = (value, lock, turning 0)
  ex3_fn me (turning i) value lock =
      if ltb i iterations
      then (value, Spinlock.step me lock, locking i)
      else (value, lock, finished)
  ex3_fn me (locking i) value lock =
      let lock' = Spinlock.step me lock in
      (value, lock', if has_lock (lock'.pc me) then loading i else locking i)
  ex3_fn me (loading i) value lock = (value, lock, storing i value)
  ex3_fn me (storing i value') value lock = ((value' + 1) % 2 ^ 32, lock, unlocking i)
  ex3_fn me (unlocking i) value lock = (value, Spinlock.step me lock, turning (i + 1))
  ex3_fn me finished value lock = (value, lock, finished)

  abbrev pub step : ℕ → System → System
  step i s =
      let r = ex3_fn i (s.job i) s.global_value s.lock in
      record { global_value = r.0; lock = r.1; job = λ j. if i == j then r.2 else s.job j }

  abbrev pub run : List ℕ → System → System
  run [] s = s
  run (i ∷ is) s = run is (step i s)

-- `main` before it makes the threads.
abbrev pub start : System
start = record { global_value = 0; lock = Spinlock.start; job = λ _. waiting }
