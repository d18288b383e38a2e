-- ===== src/Sync/Barrier/Rounds.antt =====
-- What the barrier of SyncProject/locking.c guarantees in every interleaving.
use cs.Prelude.{
  ℕ, ◌+◌, ◌^◌, ◌≤◌, ◌<◌, ◌≡◌, refl, Bool, true, false, List, [], ◌∷◌, arith, one_if, length, All,
}
use cs.Sync.Barrier.{Pc, outside, entered, System, step, run, start}
use cs.Prelude.Total.{total-none, total-every}
use cs.Sync.Barrier.Inv.{Inv, gathering, closing, Phase, here, step-Inv, step-iterations}

pub start-Inv : (n : ℕ) → 0 < n → Inv n (start n)
start-Inv n l = record {
  all = refl;
  stands = λ j k. refl;
  phase = gathering (λ j k. refl) (ground (arith, total-none (λ j. false) n (λ j k. refl))) l;
}

run-Inv_from :
    {n : ℕ} (is : List ℕ) (s : System)
    → n < 2 ^ 31
    → All (λ i. i < n) is
    → s.bar.iterations + length is < 2 ^ 31
    → Inv n s
    → Inv n (run is s) × ((run is s).bar.iterations < 2 ^ 31)
run-Inv_from [] s small a l inv = (inv, omega (arith, l))
run-Inv_from (i ∷ is) s small a l inv =
    let room : s.bar.iterations < 2 ^ 31 = omega (arith, l) in
    run-Inv_from is (step i s) small a.1 (ground (arith, l, step-iterations small s inv room i a.0))
      (step-Inv small s inv room i a.0)

run-Inv :
    (n : ℕ) (is : List ℕ)
    → 0 < n
    → n < 2 ^ 31
    → All (λ i. i < n) is
    → length is < 2 ^ 31
    → Inv n (run is (start n)) × ((run is (start n)).bar.iterations < 2 ^ 31)
run-Inv n is pos small a l = run-Inv_from is (start n) small a (omega (arith, l)) (start-Inv n pos)

-- A thread has come to the barrier that it is in.
abbrev pub has_come : Pc → Bool
has_come outside = false
has_come (entered my_iter) = false
has_come _ = true

-- How often thread `j` has come to the barrier.
abbrev pub arrived : System → ℕ → ℕ
arrived s j = s.passed j + one_if (has_come (s.pc j))

-- `n` threads, fewer than 2 ^ 31, use a barrier that was initialised for `n`, in an interleaving of
-- fewer than 2 ^ 31 accesses. No thread has returned from it more often than any thread has come to
-- it: nobody passes before all have come.
pub run-arrived :
    (n : ℕ) (is : List ℕ)
    → 0 < n
    → n < 2 ^ 31
    → All (λ i. i < n) is
    → length is < 2 ^ 31
    → (i j : ℕ) → i < n
    → j < n
    → (run is (start n)).passed i ≤ arrived (run is (start n)) j
run-arrived n is pos small a l i j li lj =
    let (inv, _) = run-Inv n is pos small a l in ground (arith, inv.stands i li, inv.stands j lj)

stuck-here :
    {n : ℕ} (s : System) (j : ℕ)
    → Inv n s
    → s.bar.iterations < 2 ^ 31
    → j < n
    → (step j s).pc j ≡ s.pc j
    → here s.bar.iterations (s.pc j) ≡ true
stuck-here s j inv room l e = ground (arith, inv.stands j l, e)

pub Phase-moves :
    {n : ℕ} (s : System) → Phase n s → ((j : ℕ) → j < n → here s.bar.iterations (s.pc j) ≡ true) → ⊥
Phase-moves {n} s (gathering f c b) h =
    absurd (ground (arith, c, b, total-every (λ j. here s.bar.iterations (s.pc j)) n h))
Phase-moves s (closing o l e z w) h = absurd (ground (arith, e, h o l))

-- `n` threads, fewer than 2 ^ 31, use a barrier that was initialised for `n`, in an interleaving of
-- fewer than 2 ^ 31 accesses. There is no deadlock: the next access of some thread takes it further.
pub run-moves :
    (n : ℕ) (is : List ℕ)
    → 0 < n
    → n < 2 ^ 31
    → All (λ i. i < n) is
    → length is < 2 ^ 31
    → ¬ ((j : ℕ) → j < n → (step j (run is (start n))).pc j ≡ (run is (start n)).pc j)
run-moves n is pos small a l h =
    let (inv, room) = run-Inv n is pos small a l in
    Phase-moves (run is (start n)) inv.phase
      (λ j k. stuck-here (run is (start n)) j inv room k (h j k))
