-- ===== src/Sync/Driver/Tests.antt =====
-- Runs of the exercises of SyncProject/driver.c.
use cs.Prelude.{ℕ, ◌≤◌, ◌<◌, ◌≡◌, refl, List, [], ◌∷◌, arith, All, false}
use cs.Sync.Driver.Subtract as Subtract
use cs.Sync.Driver.Locked as Locked
use cs.Sync.Driver.Locked.Ends as LockedEnds
use cs.Sync.Driver.Rounds as Rounds
use cs.Sync.Driver.Rounds.Ends.{run-rounds, Done}
use cs.Sync.Spinlock as Spinlock
use cs.Sync.Driver.Subtract.{run-zero}

-- Two threads with two iterations each.
abbrev turns : List ℕ
turns = 0 ∷ 1 ∷ 1 ∷ 0 ∷ 0 ∷ 1 ∷ 0 ∷ 1 ∷ []

turns_by_two : All (λ i. i < 2) turns
turns_by_two = (
  omega arith,
  (
    omega arith,
    (omega arith, (omega arith, (omega arith, (omega arith, (omega arith, (omega arith, tt)))))),
  ),
)

counted_down : (Subtract.run 2 (0 ∷ 0 ∷ 1 ∷ 1 ∷ 0 ∷ []) (Subtract.start 2 2)).global_value ≡ 1
counted_down = refl

enough_turns : (j : ℕ) → j < 2 → 4 ≤ Subtract.count 2 j turns
enough_turns j l = ground (arith, l)

run-zero_example :
    ((j : ℕ) → j < 2 → (Subtract.run 2 turns (Subtract.start 2 2)).job j ≡ Subtract.finished)
    × ((Subtract.run 2 turns (Subtract.start 2 2)).global_value ≡ 0)
run-zero_example = run-zero 2 2 turns turns_by_two enough_turns

-- Thread 1 waits for the lock while thread 0 counts, once each.
abbrev locked_turns : List ℕ
locked_turns = 0 ∷ 1 ∷ 0 ∷ 1 ∷ 0 ∷ 1 ∷ 0 ∷ 1 ∷ 0 ∷ 0 ∷ 1 ∷ 1 ∷ 1 ∷ 1 ∷ 1 ∷ 0 ∷ []

locked_turns_end : (Locked.run 1 locked_turns Locked.start).job 1 ≡ Locked.finished
unfolding Spinlock.start Spinlock.step Spinlock.move Spinlock.spinlock_lock Spinlock.spinlock_unlock
    Spinlock.spinlock_init
locked_turns_end = refl

locked_turns_count : (Locked.run 1 locked_turns Locked.start).global_value ≡ 2
unfolding Spinlock.start Spinlock.step Spinlock.move Spinlock.spinlock_lock Spinlock.spinlock_unlock
    Spinlock.spinlock_init
locked_turns_count = refl

-- Two threads in their first round, until both have added.
abbrev round_turns : List ℕ
round_turns = 0 ∷ 1 ∷ 0 ∷ 0 ∷ 1 ∷ 1 ∷ 1 ∷ 1 ∷ 1 ∷ 0 ∷ 0 ∷ 0 ∷ 1 ∷ 1 ∷ 0 ∷ []

round_turns_by_two : All (λ i. i < 2) round_turns
round_turns_by_two = (
  omega arith,
  (
    omega arith,
    (
      omega arith,
      (
        omega arith,
        (
          omega arith,
          (
            omega arith,
            (
              omega arith,
              (
                omega arith,
                (
                  omega arith,
                  (
                    omega arith,
                    (omega arith, (omega arith, (omega arith, (omega arith, (omega arith, tt))))),
                  ),
                ),
              ),
            ),
          ),
        ),
      ),
    ),
  ),
)

second_barrier : (Rounds.run 1000 2 round_turns (Rounds.start 2)).global_value ≡ 2
second_barrier = refl

run-rounds_example :
    ((j : ℕ) → (Rounds.run 1000 2 round_turns (Rounds.start 2)).minus_one j ≡ false)
    × ((js : List ℕ) × All (λ i. i < 2) js
        × Done 1000 2 (Rounds.run 1000 2 js (Rounds.run 1000 2 round_turns (Rounds.start 2))))
run-rounds_example =
    run-rounds 1000 2 round_turns (omega arith) (omega arith) (omega arith) round_turns_by_two
