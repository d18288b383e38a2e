-- ===== src/Sync/Driver/Rounds/Agrees.antt =====
-- That every thread of SyncProject/driver.c finds the count that it expects at the start of a round.
use cs.Prelude.{
  ℕ, suc, ◌+◌, ◌*◌, ◌%◌, ◌^◌, ◌≤◌, ◌<◌, ◌≡◌, refl, sym, ◌∙◌, ap, subst, true, false, List, [], ◌∷◌,
  ◌==◌, ltb, arith, Bool-cases, inl, inr, ◌⊎◌, All, ==_iff,
}
use cs.Prelude.Sum.{sum, sum-change, sum-const}
use cs.Sync.Barrier.{Pc, outside, entered, last, reset, bumping, waiting, barrier_wait}
use cs.Sync.Barrier as Barrier
use cs.Sync.Barrier.Inv.{Stands, step-Inv}
use cs.Sync.Barrier.Inv as BarrierInv
use cs.Sync.Barrier.Rounds.{start-Inv}
use cs.Sync.Driver.Rounds.{
  Job, turning, first, adding, second, finished, System, returns, ex2_fn, step, run, start,
}

-- Between the calls of `barrier_wait` a thread is in none.
abbrev pub Away : Job → Pc → Type 0
Away (first i) p = Unit
Away (second i) p = Unit
Away _ p = p ≡ outside

module _ (iterations : ℕ) where
  -- How often a thread has added, and how often it has returned from a barrier.
  abbrev pub added : Job → ℕ
  added (turning i) = i
  added (first i) = i
  added (adding i) = i
  added (second i) = i + 1
  added finished = iterations

  abbrev pub passes : Job → ℕ
  passes (turning i) = 2 * i
  passes (first i) = 2 * i
  passes (adding i) = 2 * i + 1
  passes (second i) = 2 * i + 1
  passes finished = 2 * iterations

  abbrev pub Bounded : Job → Type 0
  Bounded (turning i) = i ≤ iterations
  Bounded finished = Unit
  Bounded (first i) = i < iterations
  Bounded (adding i) = i < iterations
  Bounded (second i) = i < iterations

  pub record Inv (n : ℕ) (s : System) : Type 0 where
    pub barrier : BarrierInv.Inv n s.bar
    pub passed : (j : ℕ) → j < n → s.bar.passed j ≡ passes (s.job j)
    pub away : (j : ℕ) → j < n → Away (s.job j) (s.bar.pc j)
    pub bounded : (j : ℕ) → Bounded (s.job j)
    pub counts : s.global_value ≡ sum (λ j. added (s.job j)) n % 2 ^ 32
    pub good : (j : ℕ) → s.minus_one j ≡ false

  -- Every thread is in the round of the barrier or one behind.
  Stands-near : (k p : ℕ) (q : Pc) → Stands k p q → (p ≡ k) ⊎ (suc p ≡ k)
  Stands-near k p (waiting m) (h, inl g) = inl (h ∙ g)
  Stands-near k p (waiting m) (h, inr g) = inr (ap suc h ∙ g)
  Stands-near k p outside h = inl h
  Stands-near k p (entered m) h = inl h.0
  Stands-near k p last h = inl h
  Stands-near k p reset h = inl h
  Stands-near k p (bumping m) h = inl h.0

  passes-le : (p : Job) → Bounded p → passes p ≤ 2 * iterations
  passes-le (turning i) b = omega (arith, b)
  passes-le (first i) b = omega (arith, b)
  passes-le (adding i) b = omega (arith, b)
  passes-le (second i) b = omega (arith, b)
  passes-le finished b = omega arith

  module _ {n : ℕ} {s : System} (small : n < 2 ^ 31) (few : iterations < 2 ^ 30) (v : Inv n s)
      (i : ℕ) (l : i < n) where
    near :
        (j : ℕ)
        → j < n
        → (passes (s.job j) ≡ s.bar.bar.iterations)
          ⊎ (suc (passes (s.job j)) ≡ s.bar.bar.iterations)
    near j k =
        elim (Stands-near s.bar.bar.iterations (s.bar.passed j) (s.bar.pc j)
          (v.barrier.stands j k)) [
            | inl g ↦ inl (sym (v.passed j k) ∙ g)
            | inr g ↦ inr (ap suc (sym (v.passed j k)) ∙ g)
          ]

    pub room : s.bar.bar.iterations < 2 ^ 31
    room = elim (near i l) [
      | inl g ↦ omega (arith, g, passes-le (s.job i) (v.bounded i), few)
      | inr g ↦ omega (arith, g, passes-le (s.job i) (v.bounded i), few)
    ]

    pub outside-passes :
        (j : ℕ) → j < n → s.bar.pc j ≡ outside → passes (s.job j) ≡ s.bar.bar.iterations
    outside-passes j k e = ground (arith, v.passed j k, e, v.barrier.stands j k)

    -- At the start of a round all have added equally often.
    level : (x : ℕ) → s.job i ≡ turning x → (j : ℕ) → j < n → (p : Job) → s.job j ≡ p → added p ≡ x
    level x e j k p h =
        let round : 2 * x ≡ s.bar.bar.iterations =
          ap passes (sym e)
          ∙ outside-passes i l (subst (λ q. Away q (s.bar.pc i)) e (v.away i l)) in
        level_at x round j k p h (subst (λ q. Away q (s.bar.pc j)) h (v.away j k)) (near j k)
      where
        level_at :
            (x : ℕ)
            → 2 * x ≡ s.bar.bar.iterations
            → (j : ℕ) → j < n
            → (p : Job) → s.job j ≡ p
            → Away p (s.bar.pc j)
            → ((passes (s.job j) ≡ s.bar.bar.iterations)
                ⊎ (suc (passes (s.job j)) ≡ s.bar.bar.iterations))
            → added p ≡ x
        level_at x r j k (turning y) h o g = omega (arith, r, ap passes h, outside-passes j k o)
        level_at x r j k (first y) h o (inl g) = omega (arith, r, ap passes h, g)
        level_at x r j k (first y) h o (inr g) = omega (arith, r, ap passes h, g)
        level_at x r j k (adding y) h o g = omega (arith, r, ap passes h, outside-passes j k o)
        level_at x r j k (second y) h o (inl g) = omega (arith, r, ap passes h, g)
        level_at x r j k (second y) h o (inr g) = omega (arith, r, ap passes h, g)
        level_at x r j k finished h o g = omega (arith, r, ap passes h, outside-passes j k o)

    agrees : (x : ℕ) → s.job i ≡ turning x → (s.global_value == (n * x) % 2 ^ 32) ≡ true
    agrees x e =
        let c = sum-const (λ j. added (s.job j)) n x (λ j k. level x e j k (s.job j) refl) in
        (==_iff s.global_value ((n * x) % 2 ^ 32)).1 (v.counts ∙ ap (λ t. t % 2 ^ 32) c)

    step-sum :
        sum (λ j. added ((step iterations n i s).job j)) n + added (s.job i)
        ≡ sum (λ j. added (s.job j)) n
          + added (ex2_fn iterations n i (s.job i) s.global_value s.bar).2
    step-sum = ground (
      arith,
      sum-change (λ j. added (s.job j)) (λ j. added ((step iterations n i s).job j)) n i l
          (λ j k d. ground (arith, d)),
    )

    barrier_step : BarrierInv.Inv n (Barrier.step i s.bar)
    barrier_step = step-Inv small s.bar v.barrier room i l

    step-barrier : (p : Job) → s.job i ≡ p → BarrierInv.Inv n (step iterations n i s).bar
    step-barrier (turning x) e = elim (Bool-cases (ltb x iterations)) [
      | inl d ↦ rw (e, d) v.barrier
      | inr d ↦ rw (e, d) v.barrier
    ]
    step-barrier (first x) e = rw e barrier_step
    step-barrier (adding x) e = rw e v.barrier
    step-barrier (second x) e = rw e barrier_step
    step-barrier finished e = rw e v.barrier

    step-passed :
        (p : Job)
        → s.job i ≡ p
        → (j : ℕ) → j < n
        → (step iterations n i s).bar.passed j ≡ passes ((step iterations n i s).job j)
    step-passed (turning x) e j k = ground (arith, e, v.passed i l, v.passed j k, v.bounded i)
    step-passed (first x) e j k = elim (Bool-cases (i == j)) [
      | inr q ↦ rw (e, q) (v.passed j k)
      | inl q ↦
          let h : s.bar.passed i ≡ passes (s.job i) = v.passed i l in
          elim (Bool-cases (returns i s.bar)) [
            | inl r ↦ rw (e, q, r) (omega (arith, h, ap passes e))
            | inr r ↦ rw (e, q, r) (omega (arith, h, ap passes e))
          ]
    ]
    step-passed (adding x) e j k = ground (arith, e, v.passed i l, v.passed j k)
    step-passed (second x) e j k = elim (Bool-cases (i == j)) [
      | inr q ↦ rw (e, q) (v.passed j k)
      | inl q ↦
          let h : s.bar.passed i ≡ passes (s.job i) = v.passed i l in
          elim (Bool-cases (returns i s.bar)) [
            | inl r ↦ rw (e, q, r) (omega (arith, h, ap passes e))
            | inr r ↦ rw (e, q, r) (omega (arith, h, ap passes e))
          ]
    ]
    step-passed finished e j k = ground (arith, e, v.passed i l, v.passed j k)

    returns-outside :
        (q : Pc)
        → s.bar.pc i ≡ q
        → returns i s.bar ≡ true
        → (barrier_wait s.bar.bar (s.bar.pc i)).1 ≡ outside
    returns-outside outside e h = absurd (ground (arith, e, h))
    returns-outside (entered m) e h = absurd (ground (arith, e, h))
    returns-outside last e h = absurd (ground (arith, e, h))
    returns-outside reset e h = absurd (ground (arith, e, h))
    returns-outside (bumping m) e h = ground (arith, e, h)
    returns-outside (waiting m) e h = ground (arith, e, h)

    step-Away :
        (p : Job)
        → s.job i ≡ p
        → (j : ℕ) → j < n
        → Away ((step iterations n i s).job j) ((step iterations n i s).bar.pc j)
    step-Away (turning x) e j k = ground (arith, e, v.away j k, v.away i l)
    step-Away (first x) e j k = elim (Bool-cases (i == j)) [
      | inr q ↦ rw (e, q) (v.away j k)
      | inl q ↦ elim (Bool-cases (returns i s.bar)) [
        | inl r ↦ rw (e, q, r) (returns-outside (s.bar.pc i) refl r)
        | inr r ↦ rw (e, q, r) tt
      ]
    ]
    step-Away (adding x) e j k = ground (arith, e, v.away j k)
    step-Away (second x) e j k = elim (Bool-cases (i == j)) [
      | inr q ↦ rw (e, q) (v.away j k)
      | inl q ↦ elim (Bool-cases (returns i s.bar)) [
        | inl r ↦ rw (e, q, r) (returns-outside (s.bar.pc i) refl r)
        | inr r ↦ rw (e, q, r) tt
      ]
    ]
    step-Away finished e j k = ground (arith, e, v.away j k, v.away i l)

    step-Bounded : (p : Job) → s.job i ≡ p → (j : ℕ) → Bounded ((step iterations n i s).job j)
    step-Bounded (turning x) e j = ground (arith, e, v.bounded i, v.bounded j)
    step-Bounded (first x) e j = ground (arith, e, v.bounded i, v.bounded j)
    step-Bounded (adding x) e j = ground (arith, e, v.bounded i, v.bounded j)
    step-Bounded (second x) e j = ground (arith, e, v.bounded i, v.bounded j)
    step-Bounded finished e j = ground (arith, e, v.bounded i, v.bounded j)

    step-counts :
        (p : Job)
        → s.job i ≡ p
        → (step iterations n i s).global_value
          ≡ sum (λ j. added ((step iterations n i s).job j)) n % 2 ^ 32
    step-counts (turning x) e = ground (arith, e, v.counts, v.bounded i, step-sum)
    step-counts (first x) e = ground (arith, e, v.counts, step-sum)
    step-counts (adding x) e = ground (arith, e, v.counts, step-sum)
    step-counts (second x) e = ground (arith, e, v.counts, step-sum)
    step-counts finished e = ground (arith, e, v.counts, step-sum)

    step-good : (p : Job) → s.job i ≡ p → (j : ℕ) → (step iterations n i s).minus_one j ≡ false
    step-good (turning x) e j = ground (arith, e, v.good i, v.good j, agrees x e)
    step-good (first x) e j = ground (arith, e, v.good i, v.good j)
    step-good (adding x) e j = ground (arith, e, v.good i, v.good j)
    step-good (second x) e j = ground (arith, e, v.good i, v.good j)
    step-good finished e j = ground (arith, e, v.good i, v.good j)

    pub step-kept : Inv n (step iterations n i s)
    step-kept = record {
      barrier = step-barrier (s.job i) refl;
      passed = step-passed (s.job i) refl;
      away = step-Away (s.job i) refl;
      bounded = step-Bounded (s.job i) refl;
      counts = step-counts (s.job i) refl;
      good = step-good (s.job i) refl;
    }

  pub start-kept : (n : ℕ) → 0 < n → Inv n (start n)
  start-kept n h = record {
    barrier = start-Inv n h;
    passed = λ j k. omega arith;
    away = λ j k. refl;
    bounded = λ j. omega arith;
    counts = ground (arith, sum-const (λ _. 0) n 0 (λ j l. refl));
    good = λ j. refl;
  }

  pub run-kept :
      {n : ℕ} (is : List ℕ) (s : System)
      → n < 2 ^ 31
      → iterations < 2 ^ 30
      → All (λ i. i < n) is
      → Inv n s
      → Inv n (run iterations n is s)
  run-kept [] s small few a v = v
  run-kept (i ∷ is) s small few a v =
      run-kept is (step iterations _ i s) small few a.1 (step-kept small few v i a.0)
