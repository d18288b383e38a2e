-- ===== src/Threads/Sched/Count.antt =====
-- How often an id stands in a list, for the ready and blocked lists of Threads/pet_thread.c.
use cs.Prelude.{one_if, ℕ, ◌+◌, ◌≡◌, true, List, [], ◌∷◌, ◌++◌, arith, ltb, ◌==◌}
use cs.Threads.Sched.{member, remove}

abbrev pub count : ℕ → List ℕ → ℕ
count t [] = 0
count t (x ∷ xs) = one_if (x == t) + count t xs

pub member-count : (t : ℕ) (xs : List ℕ) → member t xs ≡ ltb 0 (count t xs)
unfolding member
member-count t [] = ground arith
member-count t (x ∷ xs) = ground (arith, member-count t xs)

pub count-remove :
    (t u : ℕ) (xs : List ℕ)
    → member t xs ≡ true
    → one_if (t == u) + count u (remove t xs) ≡ count u xs
unfolding member remove
count-remove t u [] h = ground arith
count-remove t u (x ∷ xs) h = ground (arith, count-remove t u xs)

pub count-snoc : (u x : ℕ) (xs : List ℕ) → count u (xs ++ x ∷ []) ≡ count u xs + one_if (x == u)
count-snoc u x [] = ground arith
count-snoc u x (y ∷ xs) = ground (arith, count-snoc u x xs)
