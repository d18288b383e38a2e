-- ===== src/Prelude/Total.antt =====
-- How many of the first numbers satisfy a test.
use cs.Prelude.{
  ℕ, zero, suc, ◌+◌, ◌≤◌, ◌<◌, ◌≡◌, refl, Bool, true, false, ◌==◌, if◌then◌else◌, arith, ap, one_if,
  Bool-cases, inl, inr, ◌≢◌, ◌⊎◌, ◌∙◌, ==_iff,
}

abbrev pub total : (ℕ → Bool) → ℕ → ℕ
total f zero = 0
total f (suc n) = one_if (f n) + total f n

pub total-le : (f : ℕ → Bool) (n : ℕ) → total f n ≤ n
total-le f zero = omega arith
total-le f (suc n) = ground (arith, total-le f n)

-- If as many threads as there are satisfy the test, each does.
pub total-all : (f : ℕ → Bool) (n j : ℕ) → n ≤ total f n → j < n → f j ≡ true
total-all f zero j e l = absurd (omega arith)
total-all f (suc n) j e l = elim (Bool-cases (n == j)) [
  | inl p ↦ ground (arith, total-le f n, ap f (n-eq p))
  | inr p ↦ total-all f n j (ground (arith, total-le f n)) (ground (arith, p))
]
  where
    n-eq : (n == j) ≡ true → n ≡ j
    n-eq p = ground arith

pub total-every : (f : ℕ → Bool) (n : ℕ) → ((j : ℕ) → j < n → f j ≡ true) → total f n ≡ n
total-every f zero h = refl
total-every f (suc n) h =
    ground (arith, total-every f n (λ j l. h j (omega arith)), h n (omega arith))

pub total-none : (f : ℕ → Bool) (n : ℕ) → ((j : ℕ) → j < n → f j ≡ false) → total f n ≡ 0
total-none f zero h = refl
total-none f (suc n) h =
    ground (arith, total-none f n (λ j l. h j (omega arith)), h n (omega arith))

total-same : (f g : ℕ → Bool) (n : ℕ) → ((j : ℕ) → j < n → g j ≡ f j) → total g n ≡ total f n
total-same f g zero h = refl
total-same f g (suc n) h =
    ground (arith, total-same f g n (λ j l. h j (omega arith)), h n (omega arith))

-- Two tests that agree but at `i`.
pub total-change :
    (f g : ℕ → Bool) (n i : ℕ)
    → i < n
    → ((j : ℕ) → j < n → j ≢ i → g j ≡ f j)
    → total g n + one_if (f i) ≡ total f n + one_if (g i)
total-change f g zero i l h = absurd (omega arith)
total-change f g (suc n) i l h = elim (Bool-cases (n == i)) [
  | inl p ↦
      let e : n ≡ i = ground (arith, p) in
      ground (
        arith,
        total-same f g n (λ j k. h j (omega arith) (λ q. omega (arith, q, e))),
        ap f e,
        ap g e,
      )
  | inr p ↦
      let ih = total-change f g n i (ground (arith, p)) (λ j k. h j (omega arith)) in
      ground (arith, ih, h n (omega arith) (λ q. ground (arith, p, q)))
]

-- All but one are enough to know the others.
pub total-others :
    (f : ℕ → Bool) (n i j : ℕ)
    → n ≤ suc (total f n)
    → i < n
    → f i ≡ false
    → j < n
    → j ≢ i
    → f j ≡ true
total-others f n i j e l h k d =
    let g : ℕ → Bool = λ v. if i == v then true else f v in
    let t = total-change f g n i l (λ v _ q. ground arith) in
    let a = total-all g n j (ground (arith, t)) k in ground (arith, a)

-- A test holds of the first numbers, or fails of one of them.
pub find_false :
    (f : ℕ → Bool) (n : ℕ) → ((j : ℕ) → j < n → f j ≡ true) ⊎ ((j : ℕ) × (j < n) × (f j ≡ false))
find_false f zero = inl (λ j l. absurd (omega (arith, l)))
find_false f (suc n) = elim (find_false f n) [
  | inr (j, l, e) ↦ inr (j, omega (arith, l), e)
  | inl h ↦ elim (Bool-cases (f n)) [
    | inr e ↦ inr (n, omega arith, e)
    | inl e ↦ inl (λ j l. elim (Bool-cases (j == n)) [
      | inl q ↦ ap f ((==_iff j n).0 q) ∙ e
      | inr q ↦ h j (ground (arith, l, q))
    ])
  ]
]
