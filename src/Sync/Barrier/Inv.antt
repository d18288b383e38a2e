-- ===== src/Sync/Barrier/Inv.antt =====
-- The invariant of the barrier of SyncProject/locking.c, kept by every access of a thread.
use cs.Prelude.{
  ℕ, suc, ◌+◌, ◌^◌, ◌≤◌, ◌<◌, ◌≡◌, ◌≢◌, refl, sym, ◌∙◌, ap, subst, Bool, true, false, ◌⊎◌, inl, inr,
  ◌==◌, arith, one_if, Bool-cases,
}
use cs.Sync.Barrier.{
  Pc, outside, entered, last, reset, bumping, waiting, System, barrier_wait, step,
}
use cs.Prelude.Total.{total, total-none, total-change, total-others}

-- The thread that ends the round.
abbrev pub ends : Pc → Bool
ends last = true
ends reset = true
ends (bumping old) = true
ends _ = false

-- It has set the count back.
abbrev pub has_reset : Pc → Bool
has_reset reset = true
has_reset (bumping old) = true
has_reset _ = false

-- A thread that waits for the end of the round `k`.
abbrev pub here : ℕ → Pc → Bool
here k (waiting my_iter) = my_iter == k
here k _ = false

-- Where a thread that has passed the barrier `p` times may stand in the round `k`.
abbrev pub Stands : ℕ → ℕ → Pc → Type 0
Stands k p (entered my_iter) = (p ≡ k) × (my_iter ≡ k)
Stands k p (bumping old) = (p ≡ k) × (old ≡ k)
Stands k p (waiting my_iter) = (p ≡ my_iter) × ((my_iter ≡ k) ⊎ (suc my_iter ≡ k))
Stands k p _ = p ≡ k

-- Threads gather, or all have come and one of them ends the round.
pub data Phase (n : ℕ) (s : System) : Type 0 where
  gathering :
      ((j : ℕ) → j < n → ends (s.pc j) ≡ false)
      → s.bar.cur_count ≡ total (λ j. here s.bar.iterations (s.pc j)) n
      → s.bar.cur_count < n
      → Phase n s
  closing :
      (l : ℕ)
      → l < n
      → ends (s.pc l) ≡ true
      → (has_reset (s.pc l) ≡ true → s.bar.cur_count ≡ 0)
      → ((j : ℕ) → j < n → j ≢ l → here s.bar.iterations (s.pc j) ≡ true)
      → Phase n s

pub record Inv (n : ℕ) (s : System) : Type 0 where
  pub all : s.bar.init_count ≡ n
  pub stands : (j : ℕ) → j < n → Stands s.bar.iterations (s.passed j) (s.pc j)
  pub phase : Phase n s

module _ {n : ℕ} (small : n < 2 ^ 31) (s : System) (inv : Inv n s)
    (room : s.bar.iterations < 2 ^ 31) (i : ℕ) (lt : i < n) where
  abbrev Waits : ℕ → Type 0
  Waits j = here s.bar.iterations (s.pc j) ≡ true

  -- The thread that ends the round is the only one that does not wait in it.
  others_wait : Phase n s → ends (s.pc i) ≡ true → (j : ℕ) → j < n → j ≢ i → Waits j
  others_wait (gathering f _ _) e j l d = absurd (ground (arith, f i lt, e))
  others_wait (closing o _ _ _ w) e j l d = elim (Bool-cases (o == i)) [
    | inl q ↦ w j l (λ h. d (ground (arith, h, q)))
    | inr q ↦ absurd (ground (arith, e, w i lt (λ h. ground (arith, h, q))))
  ]

  step-Stands :
      (p : Pc)
      → s.pc i ≡ p
      → (j : ℕ) → j < n
      → Stands (step i s).bar.iterations ((step i s).passed j) ((step i s).pc j)
  step-Stands (bumping old) e j l = elim (Bool-cases (i == j)) [
    | inl q ↦ ground (arith, e, q, inv.stands i lt)
    | inr q ↦
        let w = others_wait inv.phase (ap ends e) j l (λ h. ground (arith, h, q)) in
        ground (arith, e, q, w, inv.stands j l, inv.stands i lt, room)
  ]
  step-Stands p e j l = ground (arith, e, inv.stands j l, inv.stands i lt, room)

  abbrev k : ℕ
  k = s.bar.iterations

  -- How the number of the waiting threads changes.
  step-total :
      total (λ j. here k ((step i s).pc j)) n + one_if (here k (s.pc i))
      ≡ total (λ j. here k (s.pc j)) n + one_if (here k (barrier_wait s.bar (s.pc i)).1)
  step-total =
      let t =
        total-change (λ j. here k (s.pc j)) (λ j. here k ((step i s).pc j)) n i lt
          (λ j l d. ground (arith, d)) in
      ground (arith, t)

  step-gathering :
      (p : Pc)
      → s.pc i ≡ p
      → ((j : ℕ) → j < n → ends (s.pc j) ≡ false)
      → s.bar.cur_count ≡ total (λ j. here k (s.pc j)) n
      → s.bar.cur_count < n
      → Phase n (step i s)
  step-gathering (entered my_iter) e f c b = elim (Bool-cases (suc s.bar.cur_count == n)) [
    | inl q ↦
        closing i lt (ground (arith, e, q, inv.all, small)) (ground (arith, e, q, inv.all, small))
          (λ j l d.
            let w =
              total-others (λ j. here k (s.pc j)) n i j (ground (arith, c, q)) lt
                (ground (arith, e)) l d in
            ground (arith, e, w, d))
    | inr q ↦
        gathering (λ j l. ground (arith, e, q, inv.all, small, f j l, b))
          (ground (arith, e, q, c, b, step-total, inv.all, small, inv.stands i lt))
          (ground (arith, e, q, b, small))
  ]
  step-gathering p e f c b =
      gathering (λ j l. ground (arith, e, f j l, f i lt))
        (ground (arith, e, c, step-total, inv.stands i lt, f i lt, room))
        (ground (arith, e, b, f i lt))

  -- The thread that ends the round moves.
  step-ending :
      (p : Pc)
      → s.pc i ≡ p
      → ends p ≡ true
      → (has_reset (s.pc i) ≡ true → s.bar.cur_count ≡ 0)
      → ((j : ℕ) → j < n → j ≢ i → Waits j)
      → Phase n (step i s)
  step-ending last e h z w =
      closing i lt (ground (arith, e)) (λ g. ground (arith, e))
        (λ j l d. ground (arith, e, w j l d, d))
  step-ending reset e h z w =
      closing i lt (ground (arith, e)) (λ g. ground (arith, e, z))
        (λ j l d. ground (arith, e, w j l d, d))
  step-ending (bumping old) e h z w =
      let later : (j : ℕ) → j < n → ends ((step i s).pc j) ≡ false = λ j l.
        elim (Bool-cases (i == j)) [
          | inl q ↦ ground (arith, e, q)
          | inr q ↦ ground (arith, e, q, w j l (λ g. ground (arith, g, q)))
        ] in
      let none_here : (j : ℕ) → j < n → here (step i s).bar.iterations ((step i s).pc j) ≡ false =
        λ j l. elim (Bool-cases (i == j)) [
          | inl q ↦ ground (arith, e, q)
          | inr q ↦ ground (arith, e, q, room, inv.stands i lt, w j l (λ g. ground (arith, g, q)))
        ] in
      gathering later
        (ground (
          arith,
          e,
          z,
          total-none (λ j. here (step i s).bar.iterations ((step i s).pc j)) n none_here,
        ))
        (ground (arith, e, z, lt))
  step-ending outside e h z w = absurd (ground (arith, h))
  step-ending (entered _) e h z w = absurd (ground (arith, h))
  step-ending (waiting _) e h z w = absurd (ground (arith, h))

  -- Another thread moves while the round is ended: it waits on.
  step-closing :
      (o : ℕ)
      → o ≢ i
      → o < n
      → ends (s.pc o) ≡ true
      → (has_reset (s.pc o) ≡ true → s.bar.cur_count ≡ 0)
      → ((j : ℕ) → j < n → j ≢ o → Waits j)
      → Phase n (step i s)
  step-closing o d l h z w =
      let wi = w i lt (λ g. d (sym g)) in
      closing o l (ground (arith, wi, h, d)) (λ g. ground (arith, wi, h, d, z, g))
        (λ j k d'. ground (arith, wi, h, d, w j k d', room))

  step-Phase : Phase n s → Phase n (step i s)
  step-Phase (gathering f c b) = step-gathering (s.pc i) refl f c b
  step-Phase (closing o l h z w) = elim (Bool-cases (o == i)) [
    | inl q ↦
        let g : o ≡ i = ground (arith, q) in
        step-ending (s.pc i) refl (subst (λ v. ends (s.pc v) ≡ true) g h)
          (subst (λ v. has_reset (s.pc v) ≡ true → s.bar.cur_count ≡ 0) g z)
          (λ j k d. w j k (λ r. d (r ∙ g)))
    | inr q ↦ step-closing o (λ g. ground (arith, g, q)) l h z w
  ]

  pub step-Inv : Inv n (step i s)
  step-Inv = record {
    all = ground (arith, inv.all);
    stands = step-Stands (s.pc i) refl;
    phase = step-Phase inv.phase;
  }

  pub step-iterations : (step i s).bar.iterations ≤ s.bar.iterations + 1
  step-iterations = ground (arith, inv.stands i lt)
