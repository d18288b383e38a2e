-- ===== src/Sync/Driver/Rounds/Ends.antt =====
-- That the threads of SyncProject/driver.c that count in rounds can always go on to the end.
use cs.Prelude.{
  ℕ, zero, suc, ◌+◌, ◌-◌, ◌*◌, ◌^◌, ◌≤◌, ◌<◌, ◌≡◌, ◌≢◌, refl, sym, ◌∙◌, ap, subst, Bool, true,
  false, ◌||◌, List, [], ◌∷◌, arith, Bool-cases, inl, inr, ◌⊎◌, All,
}
use cs.Prelude.Sum.{sum, sum-change}
use cs.Prelude.Total.{find_false}
use cs.Sync.Barrier.{Pc, outside, entered, last, reset, bumping, waiting, barrier_wait}
use cs.Sync.Barrier.Inv.{Stands, here}
use cs.Sync.Barrier.Rounds.{Phase-moves}
use cs.Sync.Driver.Rounds.{
  Job, turning, first, adding, second, finished, System, returns, step, run, start,
}
use cs.Sync.Driver.Rounds.Agrees.{
  Away, passes, Bounded, Inv, room, outside-passes, step-kept, start-kept, run-kept,
}

abbrev is_finished : Job → Bool
is_finished finished = true
is_finished _ = false

finished_of : (p : Job) → is_finished p ≡ true → p ≡ finished
finished_of finished e = refl
finished_of (turning i) e = absurd (ground (arith, e))
finished_of (first i) e = absurd (ground (arith, e))
finished_of (adding i) e = absurd (ground (arith, e))
finished_of (second i) e = absurd (ground (arith, e))

-- How many accesses `barrier_wait` has left, the loop counted once.
abbrev rank : Pc → ℕ
rank outside = 5
rank (entered my_iter) = 4
rank last = 3
rank reset = 2
rank (bumping old) = 1
rank (waiting my_iter) = 1

rank-pos : (q : Pc) → 0 < rank q
rank-pos outside = omega arith
rank-pos (entered m) = omega arith
rank-pos last = omega arith
rank-pos reset = omega arith
rank-pos (bumping m) = omega arith
rank-pos (waiting m) = omega arith

here-Stands : (k p : ℕ) (q : Pc) → Stands k p q → here k q ≡ true → p ≡ k
here-Stands k p (waiting m) h g = ground (arith, h.0, g)
here-Stands k p outside h g = absurd (ground (arith, g))
here-Stands k p (entered m) h g = absurd (ground (arith, g))
here-Stands k p last h g = absurd (ground (arith, g))
here-Stands k p reset h g = absurd (ground (arith, g))
here-Stands k p (bumping m) h g = absurd (ground (arith, g))

module _ (iterations : ℕ) where
  abbrev left : Job → Pc → ℕ
  left (turning i) q = 14 * (iterations - i) + 1
  left (first i) q = 14 * (iterations - i) + rank q - 6
  left (adding i) q = 14 * (iterations - i) - 7
  left (second i) q = 14 * (iterations - i) + rank q - 13
  left finished q = 0

  abbrev work : ℕ → System → ℕ
  work n s = sum (λ j. left (s.job j) (s.bar.pc j)) n

  module _ {n : ℕ} {s : System} (small : n < 2 ^ 31) (few : iterations < 2 ^ 30)
      (v : Inv iterations n s) (i : ℕ) (l : i < n) where
    abbrev left_then : ℕ
    left_then = left ((step iterations n i s).job i) ((step iterations n i s).bar.pc i)

    others_same :
        (p : Job)
        → s.job i ≡ p
        → (j : ℕ) → j ≢ i
        → left ((step iterations n i s).job j) ((step iterations n i s).bar.pc j)
          ≡ left (s.job j) (s.bar.pc j)
    others_same (turning x) e j d = ground (arith, e, d)
    others_same (first x) e j d = ground (arith, e, d)
    others_same (adding x) e j d = ground (arith, e, d)
    others_same (second x) e j d = ground (arith, e, d)
    others_same finished e j d = ground (arith, e, d)

    step-work : work n (step iterations n i s) + left (s.job i) (s.bar.pc i) ≡ work n s + left_then
    step-work =
        sum-change (λ j. left (s.job j) (s.bar.pc j))
          (λ j. left ((step iterations n i s).job j) ((step iterations n i s).bar.pc j)) n i l
          (λ j k d. others_same (s.job i) refl j d)

    -- In the barrier, a thread that does not wait in vain comes nearer to its return.
    barrier-less :
        (q : Pc)
        → s.bar.pc i ≡ q
        → here s.bar.bar.iterations q ≡ false
        → (returns i s.bar ≡ true)
          ⊎ ((returns i s.bar ≡ false) × (rank (barrier_wait s.bar.bar (s.bar.pc i)).1 < rank q))
    barrier-less outside e h = inr (ground (arith, e), ground (arith, e))
    barrier-less (entered m) e h = inr (ground (arith, e), ground (arith, e))
    barrier-less last e h = inr (ground (arith, e), ground (arith, e))
    barrier-less reset e h = inr (ground (arith, e), ground (arith, e))
    barrier-less (bumping m) e h = inl (ground (arith, e))
    barrier-less (waiting m) e h =
        inl (ground (arith, e, h, v.barrier.stands i l, room iterations small few v i l))

    step-less :
        (p : Job)
        → s.job i ≡ p
        → is_finished p ≡ false
        → here s.bar.bar.iterations (s.bar.pc i) ≡ false
        → left_then < left (s.job i) (s.bar.pc i)
    step-less (turning x) e f h = ground (arith, e, v.away i l, v.bounded i)
    step-less (first x) e f h = elim (barrier-less (s.bar.pc i) refl h) [
      | inl r ↦ ground (arith, e, r, v.bounded i, rank-pos (s.bar.pc i))
      | inr (r, k) ↦ ground (arith, e, r, k, v.bounded i)
    ]
    step-less (adding x) e f h = ground (arith, e, v.away i l, v.bounded i)
    step-less (second x) e f h = elim (barrier-less (s.bar.pc i) refl h) [
      | inl r ↦ ground (arith, e, r, v.bounded i, rank-pos (s.bar.pc i))
      | inr (r, k) ↦ ground (arith, e, r, k, v.bounded i)
    ]
    step-less finished e f h = absurd (ground (arith, f))

  abbrev pub Done : ℕ → System → Type 0
  Done n s = (j : ℕ) → j < n → s.job j ≡ finished

  module _ {n : ℕ} {s : System} (small : n < 2 ^ 31) (few : iterations < 2 ^ 30)
      (v : Inv iterations n s) where
    -- A thread that waits in vain has not passed all barriers.
    waits-fewer :
        (j : ℕ)
        → j < n
        → (p : Job) → s.job j ≡ p
        → here s.bar.bar.iterations (s.bar.pc j) ≡ true
        → s.bar.bar.iterations < 2 * iterations
    waits-fewer j l (first x) e h = omega (
      arith,
      here-Stands s.bar.bar.iterations (s.bar.passed j) (s.bar.pc j) (v.barrier.stands j l) h,
      v.passed j l,
      ap (passes iterations) e,
      subst (Bounded iterations) e (v.bounded j),
    )
    waits-fewer j l (second x) e h = omega (
      arith,
      here-Stands s.bar.bar.iterations (s.bar.passed j) (s.bar.pc j) (v.barrier.stands j l) h,
      v.passed j l,
      ap (passes iterations) e,
      subst (Bounded iterations) e (v.bounded j),
    )
    waits-fewer j l (turning x) e h =
        absurd (ground (arith, subst (λ q. Away q (s.bar.pc j)) e (v.away j l), h))
    waits-fewer j l (adding x) e h =
        absurd (ground (arith, subst (λ q. Away q (s.bar.pc j)) e (v.away j l), h))
    waits-fewer j l finished e h =
        absurd (ground (arith, subst (λ q. Away q (s.bar.pc j)) e (v.away j l), h))

    -- All are finished, or a move of one of them leaves less work.
    advances : Done n s ⊎ ((i : ℕ) × (i < n) × (work n (step iterations n i s) < work n s))
    advances =
        elim (find_false (λ j. is_finished (s.job j) || here s.bar.bar.iterations (s.bar.pc j)) n) [
          | inr (k, m, f) ↦
              let d =
                step-less small few v k m (s.job k) refl (ground (arith, f)) (ground (arith, f)) in
              inr (k, m, omega (arith, d, step-work small few v k m))
          | inl h ↦ elim (find_false (λ j. here s.bar.bar.iterations (s.bar.pc j)) n) [
            | inl w ↦ absurd (Phase-moves s.bar v.barrier.phase w)
            | inr (i, l, f) ↦
                let e : s.job i ≡ finished = finished_of (s.job i) (ground (arith, h i l, f)) in
                let a : s.bar.pc i ≡ outside = subst (λ q. Away q (s.bar.pc i)) e (v.away i l) in
                let r : 2 * iterations ≡ s.bar.bar.iterations =
                  ap (passes iterations) (sym e)
                  ∙ outside-passes iterations small few v i l i l a in
                inl (λ j k.
                  finished_of (s.job j)
                    (elim (Bool-cases (here s.bar.bar.iterations (s.bar.pc j))) [
                      | inl g ↦ absurd (omega (arith, waits-fewer j k (s.job j) refl g, r))
                      | inr g ↦ ground (arith, h j k, g)
                    ]))
          ]
        ]

  ends_within :
      {n : ℕ} (m : ℕ) (s : System)
      → n < 2 ^ 31
      → iterations < 2 ^ 30
      → Inv iterations n s
      → work n s ≤ m
      → (js : List ℕ) × All (λ i. i < n) js × Done n (run iterations n js s)
  ends_within zero s small few v h = elim (advances small few v) [
    | inl d ↦ ([], tt, d)
    | inr (i, l, g) ↦ absurd (omega (arith, h, g))
  ]
  ends_within {n} (suc m) s small few v h = elim (advances small few v) [
    | inl d ↦ ([], tt, d)
    | inr (i, l, g) ↦
        let (js, a, d) =
          ends_within m (step iterations n i s) small few (step-kept iterations small few v i l)
            (omega (arith, h, g)) in
        (i ∷ js, (l, a), d)
  ]

  -- Fewer than 2 ^ 31 threads, and at least one, go through fewer than 2 ^ 30 iterations, in any
  -- order: no thread ever finds another `global_value` at the start of a round than the rounds
  -- before have made, so that none returns -1. And from every state that they reach, some further
  -- moves of theirs lead to the end of all.
  pub run-rounds :
      (num_threads : ℕ) (is : List ℕ)
      → 0 < num_threads
      → num_threads < 2 ^ 31
      → iterations < 2 ^ 30
      → All (λ i. i < num_threads) is
      → ((j : ℕ) → (run iterations num_threads is (start num_threads)).minus_one j ≡ false)
        × ((js : List ℕ) × All (λ i. i < num_threads) js
            × Done num_threads
                (run iterations num_threads js (run iterations num_threads is (start num_threads))))
  run-rounds n is h small few a =
      let v = run-kept iterations is (start n) small few a (start-kept iterations n h) in
      (
        v.good,
        ends_within (work n (run iterations n is (start n))) (run iterations n is (start n)) small
            few v (omega arith),
      )
