-- ===== src/Sync/Spinlock/Exclusion.antt =====
-- Mutual exclusion and progress of the spin lock of SyncProject/locking.c.
use cs.Prelude.{ℕ, ◌≡◌, ◌≢◌, ◌↔◌, refl, sym, ◌∙◌, List, [], ◌∷◌, arith}
use cs.Sync.Spinlock.{
  spinlock_init, spinlock_lock, spinlock_unlock, Pc, outside, locking, inside, System, move, step,
  run, start,
}

-- The lock is free and nobody is inside, or one thread is inside and holds it.
pub data Held (s : System) : Type 0 where
  nobody : s.lock.free ≡ 1 → ((j : ℕ) → s.pc j ≢ inside) → Held s
  owner : (o : ℕ) → s.lock.free ≡ 0 → s.pc o ≡ inside → ((j : ℕ) → s.pc j ≡ inside → j ≡ o) → Held s

step-Held_at : (i : ℕ) (s : System) (p : Pc) → s.pc i ≡ p → Held s → Held (step i s)
unfolding step move spinlock_lock spinlock_unlock
step-Held_at i s outside e (nobody f n) = nobody (ground (arith, e)) (λ j h. ground (arith, e, n j))
step-Held_at i s outside e (owner o f h u) =
    owner o (ground (arith, e)) (ground (arith, e)) (λ j g. ground (arith, e, u j))
step-Held_at i s locking e (nobody f n) =
    owner i (ground (arith, e)) (ground (arith, e)) (λ j h. ground (arith, e, n j))
step-Held_at i s locking e (owner o f h u) =
    owner o (ground (arith, e)) (ground (arith, e)) (λ j g. ground (arith, e, u j))
step-Held_at i s inside e (nobody f n) = absurd (n i e)
step-Held_at i s inside e (owner o f h u) =
    nobody (ground (arith, e)) (λ j g. ground (arith, e, u j, u i))

pub step-Held : (i : ℕ) (s : System) → Held s → Held (step i s)
step-Held i s h = step-Held_at i s (s.pc i) refl h

run-Held : (is : List ℕ) (s : System) → Held s → Held (run is s)
unfolding run
run-Held [] s h = h
run-Held (i ∷ is) s h = run-Held is (step i s) (step-Held i s h)

pub start-Held : Held start
unfolding start spinlock_init
start-Held = nobody refl (λ j e. ground (arith, e))

pub run_start-Held : (is : List ℕ) → Held (run is start)
run_start-Held is = run-Held is start start-Held

pub Held-exclusive : {s : System} → Held s → (i j : ℕ) → s.pc i ≡ inside → s.pc j ≡ inside → i ≡ j
Held-exclusive (nobody f n) i j a b = absurd (n i a)
Held-exclusive (owner o f h u) i j a b = u i a ∙ sym (u j b)

-- Whatever the order in which the threads move, two threads that stand between `spinlock_lock` and
-- `spinlock_unlock` of one lock are the same thread.
pub run-exclusive :
    (is : List ℕ) (i j : ℕ) → (run is start).pc i ≡ inside → (run is start).pc j ≡ inside → i ≡ j
run-exclusive is = Held-exclusive (run_start-Held is)

pub Held-enters :
    {s : System}
    → Held s
    → (i : ℕ) → s.pc i ≡ locking
    → ((step i s).pc i ≡ inside) ↔ ((j : ℕ) → s.pc j ≢ inside)
unfolding step move spinlock_lock
Held-enters {s} (nobody f n) i e = (λ _. n, λ _. ground (arith, e))
Held-enters {s} (owner o f h u) i e = (λ g. absurd (ground (arith, e)), λ n. absurd (n o h))

-- Whatever the order in which the threads moved before, a turn of a thread in the loop of
-- `spinlock_lock` ends the loop exactly if no thread is inside: no wake-up is missed, and the lock is
-- never left taken by nobody.
step-enters :
    (is : List ℕ) (i : ℕ)
    → (run is start).pc i ≡ locking
    → ((step i (run is start)).pc i ≡ inside) ↔ ((j : ℕ) → (run is start).pc j ≢ inside)
step-enters is = Held-enters (run_start-Held is)
