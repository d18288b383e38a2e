-- ===== src/Sync/Driver/Subtract.antt =====
-- The first exercise of SyncProject/driver.c: the threads count a number down to 0.
use cs.Prelude.{
  ℕ, suc, ◌+◌, ◌*◌, ◌%◌, ◌^◌, ◌≤◌, ◌<◌, ◌≡◌, refl, sym, ◌∙◌, ap, true, List, [], ◌∷◌, ◌==◌, ltb,
  if◌then◌else◌, arith, Bool-cases, inl, inr, All, ==_iff,
}
use cs.Prelude.Sum.{sum, sum-change, sum-const}
use cs.Sync.Atomic.{atomic_sub}

-- Where a thread stands in `ex1_sub_fn`: before the barrier, before a turn of the loop, at the end.
pub data Job : Type 0 where
  waiting : Job
  turning : (i : ℕ) → Job
  finished : Job

pub record System : Type 0 where
  pub global_value : ℕ  -- int
  pub job : ℕ → Job

module _ (iterations : ℕ) where
  -- One move of a thread: a turn has one access of the shared word.
  abbrev pub ex1_sub_fn : Job → ℕ → ℕ × Job
  ex1_sub_fn waiting value = (value, turning 0)
  ex1_sub_fn (turning i) value =
      if ltb i iterations then (atomic_sub value 1, turning (i + 1)) else (value, finished)
  ex1_sub_fn finished value = (value, finished)

  abbrev pub step : ℕ → System → System
  step i s =
      let r = ex1_sub_fn (s.job i) s.global_value in
      record { global_value = r.0; job = λ j. if i == j then r.1 else s.job j }

  abbrev pub run : List ℕ → System → System
  run [] s = s
  run (i ∷ is) s = run is (step i s)

  -- `main` before it makes the `num_threads` threads.
  abbrev pub start : ℕ → System
  start num_threads = record {
    global_value = (num_threads * iterations) % 2 ^ 32;
    job = λ _. waiting;
  }

  -- How often a thread has subtracted.
  abbrev done : Job → ℕ
  done waiting = 0
  done (turning i) = i
  done finished = iterations

  -- How many moves a thread still has, and how many it had.
  abbrev moves : Job → ℕ
  moves waiting = 0
  moves (turning i) = i + 1
  moves finished = iterations + 2

  record Inv (n : ℕ) (s : System) : Type 0 where
    pub bounded : (j : ℕ) → done (s.job j) ≤ iterations
    pub word : s.global_value < 2 ^ 32
    pub counts : (s.global_value + sum (λ j. done (s.job j)) n) % 2 ^ 32 ≡ (n * iterations) % 2 ^ 32

  module _ {n : ℕ} {s : System} (v : Inv n s) (i : ℕ) (l : i < n) where
    step-sum :
        sum (λ j. done ((step i s).job j)) n + done (s.job i)
        ≡ sum (λ j. done (s.job j)) n + done (ex1_sub_fn (s.job i) s.global_value).1
    step-sum = ground (
      arith,
      sum-change (λ j. done (s.job j)) (λ j. done ((step i s).job j)) n i l
          (λ j k d. ground (arith, d)),
    )

    step-Inv : (p : Job) → s.job i ≡ p → Inv n (step i s)
    step-Inv waiting e = record {
      bounded = λ j. ground (arith, e, v.bounded j);
      word = ground (arith, e, v.word);
      counts = ground (arith, e, v.counts, step-sum);
    }
    step-Inv (turning x) e = record {
      bounded = λ j. ground (arith, e, v.bounded j);
      word = ground (arith, e, v.word);
      counts = ground (arith, e, v.counts, v.bounded i, v.word, step-sum);
    }
    step-Inv finished e = record {
      bounded = λ j. ground (arith, e, v.bounded j);
      word = ground (arith, e, v.word);
      counts = ground (arith, e, v.counts, step-sum);
    }

  run-Inv : {n : ℕ} (is : List ℕ) (s : System) → All (λ i. i < n) is → Inv n s → Inv n (run is s)
  run-Inv [] s a v = v
  run-Inv (i ∷ is) s a v = run-Inv is (step i s) a.1 (step-Inv v i a.0 (s.job i) refl)

  start-Inv : (n : ℕ) → Inv n (start n)
  start-Inv n = record {
    bounded = λ j. omega arith;
    word = omega arith;
    counts = ground (arith, sum-const (λ _. 0) n 0 (λ j l. refl));
  }

  abbrev pub count : ℕ → List ℕ → ℕ
  count j [] = 0
  count j (i ∷ is) = let rest = count j is in if i == j then suc rest else rest

  ends : (p : Job) → done p ≤ iterations → iterations + 2 ≤ moves p → p ≡ finished
  ends waiting d h = absurd (omega (arith, h))
  ends (turning i) d h = absurd (omega (arith, d, h))
  ends finished d h = refl

  step-moves :
      (is : List ℕ) (s : System) (i j : ℕ) (p : Job)
      → s.job i ≡ p
      → done p ≤ iterations
      → iterations + 2 ≤ count j (i ∷ is) + moves (s.job j)
      → iterations + 2 ≤ count j is + moves ((step i s).job j)
  step-moves is s i j p e d h = elim (Bool-cases (i == j)) [
    | inl q ↦
        let same : s.job j ≡ p = ap s.job (sym ((==_iff i j).0 q)) ∙ e in
        step_own is s i j p e d q (ground (arith, h, q, ap moves same))
    | inr q ↦ ground (arith, h, q)
  ]
    where
      step_own :
          (is : List ℕ) (s : System) (i j : ℕ) (p : Job)
          → s.job i ≡ p
          → done p ≤ iterations
          → (i == j) ≡ true
          → iterations + 2 ≤ suc (count j is) + moves p
          → iterations + 2 ≤ count j is + moves ((step i s).job j)
      step_own is s i j waiting e d q h = ground (arith, e, d, q, h)
      step_own is s i j (turning x) e d q h = ground (arith, e, d, q, h)
      step_own is s i j finished e d q h = ground (arith, e, d, q, h)

  -- A thread that has at least as many moves as it needs is finished.
  run-finished :
      {n : ℕ} (is : List ℕ) (s : System) (j : ℕ)
      → All (λ i. i < n) is
      → Inv n s
      → iterations + 2 ≤ count j is + moves (s.job j)
      → (run is s).job j ≡ finished
  run-finished [] s j a v h = ends (s.job j) (v.bounded j) (omega (arith, h))
  run-finished (i ∷ is) s j a v h =
      run-finished is (step i s) j a.1 (step-Inv v i a.0 (s.job i) refl)
        (step-moves is s i j (s.job i) refl (v.bounded i) h)

  -- However `num_threads` threads are interleaved, if each has at least a move for the barrier, one
  -- for each of its iterations and one for the end of the loop: all of them are finished, and
  -- `global_value` is 0, so that `main` reports success.
  pub run-zero :
      (num_threads : ℕ) (is : List ℕ)
      → All (λ i. i < num_threads) is
      → ((j : ℕ) → j < num_threads → iterations + 2 ≤ count j is)
      → ((j : ℕ) → j < num_threads → (run is (start num_threads)).job j ≡ finished)
        × ((run is (start num_threads)).global_value ≡ 0)
  run-zero n is a h =
      let v = run-Inv is (start n) a (start-Inv n) in
      let all : (j : ℕ) → j < n → (run is (start n)).job j ≡ finished =
        λ j l. run-finished is (start n) j a (start-Inv n) (omega (arith, h j l)) in
      let s =
        sum-const (λ j. done ((run is (start n)).job j)) n iterations (λ j l. ap done (all j l)) in
      (all, omega (arith, v.counts, v.word, s))
