-- ===== src/Sync/Driver/Locked/Counts.antt =====
-- That no increment of SyncProject/driver.c under the spin lock is lost.
use cs.Prelude.{
  ℕ, ◌+◌, ◌*◌, ◌%◌, ◌^◌, ◌≤◌, ◌<◌, ◌≡◌, ◌≢◌, refl, ◌∙◌, ap, false, List, [], ◌∷◌, ◌==◌, ltb, arith,
  Bool-cases, inl, inr, All,
}
use cs.Prelude.Sum.{sum, sum-change, sum-const}
use cs.Sync.Spinlock.{
  spinlock_init, spinlock_lock, spinlock_unlock, Pc, outside, locking, inside, move,
}
use cs.Sync.Spinlock as Spinlock
use cs.Sync.Spinlock.Exclusion.{Held, step-Held, start-Held, Held-exclusive}
use cs.Sync.Driver.Locked.{
  Job, waiting, turning, loading, storing, unlocking, finished, System, has_lock, ex3_fn, step, run,
  start,
}
use cs.Sync.Driver.Locked as Locked

-- Where the functions of the lock are left or entered.
abbrev pub stage : Job → Pc
stage (Locked.locking i) = locking
stage (loading i) = inside
stage (storing i value) = inside
stage (unlocking i) = inside
stage _ = outside

-- The value that a thread has loaded is that of the variable.
abbrev Fresh : ℕ → Job → Type 0
Fresh value (storing i value') = value' ≡ value
Fresh value _ = Unit

module _ (iterations : ℕ) where
  -- How often a thread has stored.
  abbrev pub done : Job → ℕ
  done waiting = 0
  done (turning i) = i
  done (Locked.locking i) = i
  done (loading i) = i
  done (storing i value) = i
  done (unlocking i) = i + 1
  done finished = iterations

  -- A turn of the loop begins only where the test lets it.
  abbrev pub Bounded : Job → Type 0
  Bounded (Locked.locking i) = i < iterations
  Bounded (loading i) = i < iterations
  Bounded (storing i value) = i < iterations
  Bounded p = done p ≤ iterations

  pub record Inv (n : ℕ) (s : System) : Type 0 where
    pub held : Held s.lock
    pub stages : (j : ℕ) → s.lock.pc j ≡ stage (s.job j)
    pub bounded : (j : ℕ) → Bounded (s.job j)
    pub fresh : (j : ℕ) → Fresh s.global_value (s.job j)
    pub counts : s.global_value ≡ sum (λ j. done (s.job j)) n % 2 ^ 32
    pub idle : (j : ℕ) → n ≤ j → s.job j ≡ waiting

  module _ {n : ℕ} {s : System} (v : Inv n s) (i : ℕ) (l : i < n) where
    step-sum :
        sum (λ j. done ((step iterations i s).job j)) n + done (s.job i)
        ≡ sum (λ j. done (s.job j)) n + done (ex3_fn iterations i (s.job i) s.global_value s.lock).2
    step-sum = ground (
      arith,
      sum-change (λ j. done (s.job j)) (λ j. done ((step iterations i s).job j)) n i l
          (λ j k d. ground (arith, d)),
    )

    -- Nobody else is between the lock and the unlock.
    alone : (j : ℕ) → stage (s.job i) ≡ inside → (i == j) ≡ false → stage (s.job j) ≢ inside
    alone j h d g = ground (arith, d, Held-exclusive v.held i j (v.stages i ∙ h) (v.stages j ∙ g))

    step-Held_lock : (p : Job) → s.job i ≡ p → Held (step iterations i s).lock
    step-Held_lock waiting e = ground (arith, e, v.held)
    step-Held_lock (turning x) e = elim (Bool-cases (ltb x iterations)) [
      | inl d ↦ rw (e, d) (step-Held i s.lock v.held)
      | inr d ↦ rw (e, d) v.held
    ]
    step-Held_lock (Locked.locking x) e = rw e (step-Held i s.lock v.held)
    step-Held_lock (loading x) e = rw e v.held
    step-Held_lock (storing x value) e = rw e v.held
    step-Held_lock (unlocking x) e = rw e (step-Held i s.lock v.held)
    step-Held_lock finished e = rw e v.held

    step-stages :
        (p : Job)
        → s.job i ≡ p
        → (j : ℕ) → (step iterations i s).lock.pc j ≡ stage ((step iterations i s).job j)
    unfolding Spinlock.step move spinlock_lock
    step-stages waiting e j = ground (arith, e, v.stages i, v.stages j)
    step-stages (turning x) e j = ground (arith, e, v.stages i, v.stages j)
    step-stages (Locked.locking x) e j = ground (arith, e, v.stages i, v.stages j)
    step-stages (loading x) e j = ground (arith, e, v.stages i, v.stages j)
    step-stages (storing x value) e j = ground (arith, e, v.stages i, v.stages j)
    step-stages (unlocking x) e j = ground (arith, e, v.stages i, v.stages j)
    step-stages finished e j = ground (arith, e, v.stages i, v.stages j)

    step-Bounded : (p : Job) → s.job i ≡ p → (j : ℕ) → Bounded ((step iterations i s).job j)
    unfolding Spinlock.step move spinlock_lock
    step-Bounded waiting e j = ground (arith, e, v.bounded i, v.bounded j)
    step-Bounded (turning x) e j = ground (arith, e, v.bounded i, v.bounded j)
    step-Bounded (Locked.locking x) e j = ground (arith, e, v.bounded i, v.bounded j)
    step-Bounded (loading x) e j = ground (arith, e, v.bounded i, v.bounded j)
    step-Bounded (storing x value) e j = ground (arith, e, v.bounded i, v.bounded j)
    step-Bounded (unlocking x) e j = ground (arith, e, v.bounded i, v.bounded j)
    step-Bounded finished e j = ground (arith, e, v.bounded i, v.bounded j)

    Fresh-anywhere : (value value' : ℕ) (q : Job) → stage q ≢ inside → Fresh value' q
    Fresh-anywhere value value' (storing x w) h = absurd (h refl)
    Fresh-anywhere value value' waiting h = tt
    Fresh-anywhere value value' (turning x) h = tt
    Fresh-anywhere value value' (Locked.locking x) h = tt
    Fresh-anywhere value value' (loading x) h = tt
    Fresh-anywhere value value' (unlocking x) h = tt
    Fresh-anywhere value value' finished h = tt

    step-Fresh :
        (p : Job)
        → s.job i ≡ p
        → (j : ℕ) → Fresh (step iterations i s).global_value ((step iterations i s).job j)
    step-Fresh waiting e j = ground (arith, e, v.fresh j)
    step-Fresh (turning x) e j = ground (arith, e, v.fresh j)
    step-Fresh (Locked.locking x) e j = ground (arith, e, v.fresh j)
    step-Fresh (loading x) e j = ground (arith, e, v.fresh j)
    step-Fresh (storing x value) e j = elim (Bool-cases (i == j)) [
      | inl q ↦ rw (e, q) tt
      | inr q ↦
          rw (e, q)
            (Fresh-anywhere s.global_value ((value + 1) % 2 ^ 32) (s.job j)
              (alone j (ap stage e) q))
    ]
    step-Fresh (unlocking x) e j = ground (arith, e, v.fresh j)
    step-Fresh finished e j = ground (arith, e, v.fresh j)

    step-counts :
        (p : Job)
        → s.job i ≡ p
        → (step iterations i s).global_value
          ≡ sum (λ j. done ((step iterations i s).job j)) n % 2 ^ 32
    step-counts waiting e = ground (arith, e, v.counts, step-sum)
    step-counts (turning x) e = ground (arith, e, v.counts, v.bounded i, step-sum)
    step-counts (Locked.locking x) e = ground (arith, e, v.counts, step-sum)
    step-counts (loading x) e = ground (arith, e, v.counts, step-sum)
    step-counts (storing x value) e = ground (arith, e, v.counts, v.fresh i, step-sum)
    step-counts (unlocking x) e = ground (arith, e, v.counts, step-sum)
    step-counts finished e = ground (arith, e, v.counts, step-sum)

    pub step-Inv : Inv n (step iterations i s)
    step-Inv = record {
      held = step-Held_lock (s.job i) refl;
      stages = step-stages (s.job i) refl;
      bounded = step-Bounded (s.job i) refl;
      fresh = step-Fresh (s.job i) refl;
      counts = step-counts (s.job i) refl;
      idle = λ j k. ground (arith, v.idle j k, l, k);
    }

  pub run-Inv :
      {n : ℕ} (is : List ℕ) (s : System)
      → All (λ i. i < n) is
      → Inv n s
      → Inv n (run iterations is s)
  run-Inv [] s a v = v
  run-Inv (i ∷ is) s a v = run-Inv is (step iterations i s) a.1 (step-Inv v i a.0)

  pub start-Inv : (n : ℕ) → Inv n start
  unfolding Spinlock.start
  start-Inv n = record {
    held = start-Held;
    stages = λ j. refl;
    bounded = λ j. omega arith;
    fresh = λ j. tt;
    counts = ground (arith, sum-const (λ _. 0) n 0 (λ j l. refl));
    idle = λ j k. refl;
  }

  pub Inv-counts :
      {n : ℕ} {s : System}
      → Inv n s
      → ((j : ℕ) → j < n → s.job j ≡ finished)
      → s.global_value ≡ (n * iterations) % 2 ^ 32
  Inv-counts {n} {s} v h =
      omega (arith, v.counts, sum-const (λ j. done (s.job j)) n iterations (λ j l. ap done (h j l)))
