-- ===== src/Sync/Spinlock/Tests.antt =====
-- Runs of the spin lock of SyncProject/locking.c, and its theorems there.
use cs.Prelude.{ℕ, ◌≡◌, refl, List, [], ◌∷◌}
use cs.Sync.Spinlock.{
  spinlock_init, spinlock_lock, spinlock_unlock, locking, inside, move, step, run, start,
}
use cs.Sync.Spinlock.Exclusion.{run-exclusive}

-- Both threads spin, the first enters.
abbrev both_spin : List ℕ
both_spin = 1 ∷ 2 ∷ 1 ∷ 2 ∷ []

first_inside : (run both_spin start).pc 1 ≡ inside
unfolding run step move start spinlock_init spinlock_lock
first_inside = refl

second_spins : (run both_spin start).pc 2 ≡ locking
unfolding run step move start spinlock_init spinlock_lock
second_spins = refl

second_after_unlock : (run (1 ∷ 2 ∷ 1 ∷ 2 ∷ 1 ∷ 2 ∷ []) start).pc 2 ≡ inside
unfolding run step move start spinlock_init spinlock_lock spinlock_unlock
second_after_unlock = refl

abbrev worker : ℕ
worker = 1

run-exclusive_example : worker ≡ worker
run-exclusive_example = run-exclusive both_spin worker worker first_inside first_inside
