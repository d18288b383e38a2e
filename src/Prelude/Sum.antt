-- ===== src/Prelude/Sum.antt =====
-- The sum of a function at the first numbers.
use cs.Prelude.{ℕ, zero, suc, ◌+◌, ◌*◌, ◌<◌, ◌≡◌, ◌≢◌, refl, ap, ◌==◌, arith, Bool-cases, inl, inr}

abbrev pub sum : (ℕ → ℕ) → ℕ → ℕ
sum f zero = 0
sum f (suc n) = f n + sum f n

pub sum-same : (f g : ℕ → ℕ) (n : ℕ) → ((j : ℕ) → j < n → g j ≡ f j) → sum g n ≡ sum f n
sum-same f g zero h = refl
sum-same f g (suc n) h = omega (arith, sum-same f g n (λ j l. h j (omega arith)), h n (omega arith))

pub sum-const : (f : ℕ → ℕ) (n c : ℕ) → ((j : ℕ) → j < n → f j ≡ c) → sum f n ≡ n * c
sum-const f zero c h = omega arith
sum-const f (suc n) c h =
    grind (arith, sum-const f n c (λ j l. h j (omega arith)), h n (omega arith))

-- Two functions that agree but at `i`.
pub sum-change :
    (f g : ℕ → ℕ) (n i : ℕ)
    → i < n
    → ((j : ℕ) → j < n → j ≢ i → g j ≡ f j)
    → sum g n + f i ≡ sum f n + g i
sum-change f g zero i l h = absurd (omega arith)
sum-change f g (suc n) i l h = elim (Bool-cases (n == i)) [
  | inl p ↦
      let e : n ≡ i = ground (arith, p) in
      omega (
        arith,
        sum-same f g n (λ j k. h j (omega arith) (λ q. omega (arith, q, e))),
        ap f e,
        ap g e,
      )
  | inr p ↦ omega (
    arith,
    sum-change f g n i (ground (arith, p)) (λ j k. h j (omega arith)),
    h n (omega arith) (λ q. ground (arith, p, q)),
  )
]
