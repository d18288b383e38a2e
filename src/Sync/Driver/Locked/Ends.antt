-- ===== src/Sync/Driver/Locked/Ends.antt =====
-- That the threads of SyncProject/driver.c that count under the spin lock can always go on to the end.
use cs.Prelude.{ℕ, ◌+◌, ◌-◌, ◌*◌, ◌<◌, ◌≡◌, Bool, true, false}
use cs.Prelude.Sum.{sum}
use cs.Sync.Spinlock.{Pc, locking, inside}
use cs.Sync.Spinlock as Spinlock
use cs.Sync.Driver.Locked.{
  Job, waiting, turning, loading, storing, unlocking, finished, System, has_lock,
}
use cs.Sync.Driver.Locked as Locked

abbrev is_finished : Job → Bool
is_finished finished = true
is_finished _ = false

abbrev is_locking : Job → Bool
is_locking (Locked.locking i) = true
is_locking _ = false

module _ (iterations : ℕ) where
  -- How many moves a thread has left that are no vain turns of the loop of the lock.
  abbrev left : Job → ℕ
  left waiting = 5 * iterations + 2
  left (turning i) = 5 * (iterations - i) + 1
  left (Locked.locking i) = 5 * (iterations - i)
  left (loading i) = 5 * (iterations - i) - 1
  left (storing i value) = 5 * (iterations - i) - 2
  left (unlocking i) = 5 * (iterations - i) - 3
  left finished = 0

  abbrev work : ℕ → System → ℕ
  work n s = sum (λ j. left (s.job j)) n

  abbrev pub Done : ℕ → System → Type 0
  Done n s = (j : ℕ) → j < n → s.job j ≡ finished

  abbrev has_it : Pc → Bool
  has_it inside = true
  has_it _ = false
