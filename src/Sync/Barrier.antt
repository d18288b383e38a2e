-- ===== src/Sync/Barrier.antt =====
-- The barrier of SyncProject/locking.c, with every access of a shared word as a step of its own. A
-- schedule is the list of the threads that move, one after the other. `int` is a word of 32 bits.
pub mod Inv
pub mod Rounds
mod Tests
use cs.Prelude.{ℕ, suc, ◌+◌, ◌-◌, ◌%◌, ◌^◌, Bool, true, false, List, [], ◌∷◌, ◌==◌, if◌then◌else◌}
use cs.Sync.Atomic.{atomic_add_ret_prev}

-- `struct barrier`
pub record Barrier : Type 0 where
  pub iterations : ℕ  -- int
  pub cur_count : ℕ  -- int
  pub init_count : ℕ  -- int

abbrev pub barrier_init : ℕ → Barrier
barrier_init count = record { init_count = count; iterations = 0; cur_count = 0 }

-- Where a thread stands in `barrier_wait`, with the local variables that are live there.
pub data Pc : Type 0 where
  outside : Pc
  entered : (my_iter : ℕ) → Pc  -- before the atomic addition
  last : Pc  -- before the reset of cur_count
  reset : Pc  -- before the load of `iterations++`
  bumping : (old : ℕ) → Pc  -- before its store
  waiting : (my_iter : ℕ) → Pc  -- the loop

-- Each thread's position, and how often it has returned from `barrier_wait`.
pub record System : Type 0 where
  pub bar : Barrier
  pub pc : ℕ → Pc
  pub passed : ℕ → ℕ

-- One access by a thread of `barrier_wait`: the barrier, where the thread stands then, and whether
-- the function has returned.
abbrev pub barrier_wait : Barrier → Pc → Barrier × Pc × Bool
barrier_wait bar outside = (bar, entered bar.iterations, false)
barrier_wait bar (entered my_iter) =
    let (prev, cur) = atomic_add_ret_prev bar.cur_count 1 in
    (
      record bar { cur_count = cur },
      if prev == (bar.init_count + (2 ^ 32 - 1)) % 2 ^ 32 then last else waiting my_iter,
      false,
    )
barrier_wait bar last = (record bar { cur_count = 0 }, reset, false)
barrier_wait bar reset = (bar, bumping bar.iterations, false)
barrier_wait bar (bumping old) = (record bar { iterations = (old + 1) % 2 ^ 32 }, outside, true)
barrier_wait bar (waiting my_iter) =
    if bar.iterations == (my_iter + 1) % 2 ^ 32
    then (bar, outside, true)
    else (bar, waiting my_iter, false)

abbrev pub step : ℕ → System → System
step i s =
    let r = barrier_wait s.bar (s.pc i) in
    record {
      bar = r.0;
      pc = λ j. if i == j then r.1 else s.pc j;
      passed = λ j. if i == j then (if r.2 then suc (s.passed i) else s.passed i) else s.passed j;
    }

abbrev pub run : List ℕ → System → System
run [] s = s
run (i ∷ is) s = run is (step i s)

abbrev pub start : ℕ → System
start n = record { bar = barrier_init n; pc = λ _. outside; passed = λ _. 0 }
