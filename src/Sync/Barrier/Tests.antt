-- ===== src/Sync/Barrier/Tests.antt =====
-- Runs of the barrier of SyncProject/locking.c, and its theorems there.
use cs.Prelude.{ℕ, ◌≤◌, ◌<◌, ◌≡◌, refl, List, [], ◌∷◌, arith, All}
use cs.Sync.Barrier.{step, run, start}
use cs.Sync.Barrier.Rounds.{arrived, run-arrived, run-moves}

-- Thread 0 comes and waits, thread 1 comes and ends the round.
abbrev one_round : List ℕ
one_round = 0 ∷ 0 ∷ 1 ∷ 1 ∷ 1 ∷ 1 ∷ 1 ∷ []

one_round_by_two : All (λ i. i < 2) one_round
one_round_by_two = (
  omega arith,
  (omega arith, (omega arith, (omega arith, (omega arith, (omega arith, (omega arith, tt)))))),
)

first_waits : (run one_round (start 2)).passed 0 ≡ 0
first_waits = refl

second_passes : (run one_round (start 2)).passed 1 ≡ 1
second_passes = refl

first_leaves : (step 0 (run one_round (start 2))).passed 0 ≡ 1
first_leaves = refl

run-arrived_example : (run one_round (start 2)).passed 1 ≤ arrived (run one_round (start 2)) 0
run-arrived_example =
    run-arrived 2 one_round (omega arith) (omega arith) one_round_by_two (omega arith) 1 0
      (omega arith) (omega arith)

run-moves_example :
    ¬ ((j : ℕ) → j < 2 → (step j (run one_round (start 2))).pc j ≡ (run one_round (start 2)).pc j)
run-moves_example = run-moves 2 one_round (omega arith) (omega arith) one_round_by_two (omega arith)
