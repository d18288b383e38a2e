-- ===== src/Sync/LfQueue/Tests.antt =====
-- A run of the queue of SyncProject/locking.c, and its theorem there.
use cs.Prelude.{ℕ, ◌≡◌, ◌==◌, refl, List, [], ◌∷◌, arith, Bool-cases, inl, inr}
use cs.Sync.LfQueue.{Choice, enqueues, dequeues, nothing, empty, run, start}
use cs.Sync.LfQueue.Calls.{count, made, calls, links, Chain}
use cs.Sync.LfQueue.Refines.{Holds, Fresh, run-Linked}
use cs.Sync.LfQueue.Lost.{AllEmpty, run-AllEmpty}

-- Thread 1 enqueues 42, then thread 2 dequeues.
abbrev one_value : List (ℕ × Choice)
one_value =
    (1, enqueues 30 42)
    ∷ (1, dequeues)
    ∷ (1, dequeues)
    ∷ (1, dequeues)
    ∷ (1, dequeues)
    ∷ (2, dequeues)
    ∷ (2, dequeues)
    ∷ (2, dequeues)
    ∷ []

-- The value is linked behind the tail, and the dequeue returns 0.
one_value_linked : (run one_value (start 10 20)).mem.next 20 ≡ 30
one_value_linked = refl

one_value_lost :
    (run one_value (start 10 20)).returns
    ≡ empty ∷ nothing ∷ nothing ∷ nothing ∷ nothing ∷ nothing ∷ nothing ∷ nothing ∷ []
one_value_lost = refl

run-AllEmpty_example : AllEmpty (run one_value (start 10 20)).returns
run-AllEmpty_example =
    run-AllEmpty 10 20 one_value (λ e. ground (arith, e)) (λ e. ground (arith, e))
      ((λ e. ground (arith, e)), (tt, (tt, (tt, (tt, (tt, (tt, (tt, tt))))))))

-- Thread 1 enqueues 42 while thread 2 enqueues 43 and has to help.
abbrev two_values : List (ℕ × Choice)
two_values =
    (1, enqueues 30 42)
    ∷ (2, enqueues 40 43)
    ∷ (1, dequeues)
    ∷ (2, dequeues)
    ∷ (1, dequeues)
    ∷ (2, dequeues)
    ∷ (2, dequeues)
    ∷ (2, dequeues)
    ∷ (2, dequeues)
    ∷ (2, dequeues)
    ∷ (2, dequeues)
    ∷ (1, dequeues)
    ∷ (1, dequeues)
    ∷ []

two_values_links : links two_values (start 10 20) ≡ 30 ∷ 40 ∷ []
two_values_links = refl

two_values-Fresh : Fresh 20 (calls two_values (start 10 20))
two_values-Fresh = record { once = λ x. ground arith; real = refl; not_first = refl }

run-Linked_example :
    Chain (run two_values (start 10 20)).mem.next 20 (links two_values (start 10 20))
    × Holds (run two_values (start 10 20)).mem.value (calls two_values (start 10 20))
    × (count 30 (links two_values (start 10 20)) ≡ made 30 (calls two_values (start 10 20)))
run-Linked_example =
    run-Linked 10 20 two_values 30 (λ e. omega (arith, e)) two_values-Fresh
      (λ i. elim (Bool-cases (1 == i)) [
        | inl e ↦ elim (Bool-cases (2 == i)) [
          | inl d ↦ (λ h. ground (arith, h, e, d))
          | inr d ↦ (λ h. ground (arith, h, e, d))
        ]
        | inr e ↦ elim (Bool-cases (2 == i)) [
          | inl d ↦ (λ h. ground (arith, h, e, d))
          | inr d ↦ (λ h. ground (arith, h, e, d))
        ]
      ])
