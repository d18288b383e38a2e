-- ===== src/Sync/Driver/Rounds.antt =====
-- The exercise of SyncProject/driver.c in which the threads count in rounds, between two barriers of
-- SyncProject/locking.c, and test the count at the start of each round.
pub mod Agrees
pub mod Ends
use cs.Prelude.{
  ℕ, ◌+◌, ◌*◌, ◌%◌, ◌^◌, Bool, true, false, not, ◌||◌, List, [], ◌∷◌, ◌==◌, ltb, if◌then◌else◌,
}
use cs.Sync.Atomic.{atomic_add}
use cs.Sync.Barrier.{barrier_wait}
use cs.Sync.Barrier as Barrier

-- Where a thread stands in `ex2_fn`.
pub data Job : Type 0 where
  turning : (i : ℕ) → Job  -- before the test of the loop and of `global_value`
  first : (i : ℕ) → Job  -- in the first `barrier_wait`
  adding : (i : ℕ) → Job  -- before the atomic addition
  second : (i : ℕ) → Job  -- in the second `barrier_wait`
  finished : Job

-- The variable, the barrier with where each thread stands in `barrier_wait`, where it stands here,
-- and whether its return value is -1.
pub record System : Type 0 where
  pub global_value : ℕ  -- int
  pub bar : Barrier.System
  pub job : ℕ → Job
  pub minus_one : ℕ → Bool

-- Whether the thread's next access in `barrier_wait` is its last.
abbrev pub returns : ℕ → Barrier.System → Bool
returns me bar = (barrier_wait bar.bar (bar.pc me)).2

module _ (iterations num_threads : ℕ) where
  -- One move of a thread, with whether it sets the return value to -1.
  abbrev pub ex2_fn : ℕ → Job → ℕ → Barrier.System → ℕ × Barrier.System × Job × Bool
  ex2_fn me (turning i) value bar =
      if ltb i iterations
      then (value, bar, first i, not (value == (num_threads * i) % 2 ^ 32))
      else (value, bar, finished, false)
  ex2_fn me (first i) value bar =
      (value, Barrier.step me bar, if returns me bar then adding i else first i, false)
  ex2_fn me (adding i) value bar = (atomic_add value 1, bar, second i, false)
  ex2_fn me (second i) value bar =
      (value, Barrier.step me bar, if returns me bar then turning (i + 1) else second i, false)
  ex2_fn me finished value bar = (value, bar, finished, false)

  abbrev pub step : ℕ → System → System
  step i s =
      let r = ex2_fn i (s.job i) s.global_value s.bar in
      record {
        global_value = r.0;
        bar = r.1;
        job = λ j. if i == j then r.2 else s.job j;
        minus_one = λ j. if i == j then r.3 || s.minus_one i else s.minus_one j;
      }

  abbrev pub run : List ℕ → System → System
  run [] s = s
  run (i ∷ is) s = run is (step i s)

-- `main` before it makes the threads.
abbrev pub start : ℕ → System
start num_threads = record {
  global_value = 0;
  bar = Barrier.start num_threads;
  job = λ _. turning 0;
  minus_one = λ _. false;
}
