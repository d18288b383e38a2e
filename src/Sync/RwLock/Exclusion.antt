-- ===== src/Sync/RwLock/Exclusion.antt =====
-- Readers and writers of the reader-writer lock of SyncProject/locking.c while no reader unlocks it.
use cs.Prelude.{
  ℕ, ◌+◌, ◌^◌, ◌<◌, ◌≡◌, ◌≢◌, ap, subst, Bool, true, false, not, ◌&&◌, ◌||◌, List, [], ◌∷◌, length,
  ◌==◌, leb, Bool-cases, inl, inr, arith,
}
use cs.Sync.RwLock.{Side, Pc, reading, writing, System, move, step, run, start, rw_lock_init}
use cs.Sync.RwLock.Starved.{counted, Inv, step-Inv, start-Inv}
use cs.Sync.RwLock.Flags.{owns, Facts, move-Facts, relies-holds, sets-relies, move-Facts_other}
use cs.Sync.RwLock.Mutex.{Mutual, step-Mutual, start-Mutual}

-- What holds of the readers and writers.
record Apart (s : System) : Type 0 where
  facts : (i : ℕ) → Facts s.lock (s.pc i)
  alone : (i j : ℕ) → (i == j) ≡ false → owns (s.pc i) ≡ true → owns (s.pc j) ≡ false

step-Apart :
    (t a i : ℕ) (side : Side) (s : System)
    → t + 1 < 2 ^ 31
    → Inv t s
    → Mutual a s
    → Apart s
    → Apart (step i side s)
unfolding step
step-Apart t a i side s h n m v =
    let own = move-Facts t side s.lock s.bytes (s.pc i) n.number h (v.facts i) in
    let other : (j : ℕ)
        → (i == j) ≡ false
        → Facts (move side s.lock s.bytes (s.pc i)).0 (s.pc j)
          × (owns (move side s.lock s.bytes (s.pc i)).2 ≡ true → owns (s.pc j) ≡ false) =
      λ j e.
        move-Facts_other side s.lock s.bytes (s.pc i) (s.pc j) (v.facts i) (v.facts j)
          (m.single i j e) (v.alone i j e) (relies-holds (s.pc j)) (sets-relies (s.pc j)) in
    record {
      facts = λ j. elim (Bool-cases (i == j)) [ inl e ↦ rw e own | inr e ↦ rw e (other j e).0 ];
      alone = λ x y e. elim (Bool-cases (i == x)) [
        | inl p ↦
            let ey : (i == y) ≡ false = ground (arith, p, e) in
            let u = (other y ey).1 in ground (arith, p, ey, u)
        | inr p ↦ let u = (other x p).1 in let w = v.alone x y e in ground (arith, p, u, w)
      ];
    }

abbrev is_reading : Pc → Bool
is_reading reading = true
is_reading p = false

-- No thread moves that has returned from `rw_read_lock`: no reader unlocks.
abbrev pub readers_stay : List (ℕ × Side) → System → Bool
readers_stay [] s = true
readers_stay ((i, side) ∷ is) s = not (is_reading (s.pc i)) && readers_stay is (step i side s)

run-Apart :
    (t a : ℕ) (is : List (ℕ × Side)) (s : System)
    → t + length is < 2 ^ 31
    → readers_stay is s ≡ true
    → Inv t s
    → Mutual a s
    → Apart s
    → Apart (run is s) × Inv (t + length is) (run is s)
unfolding run
run-Apart t a [] s h r n m v = (v, subst (λ k. Inv k s) (omega arith) n)
run-Apart t a ((i, side) ∷ is) s h r n m v =
    let l : t + 1 < 2 ^ 31 = omega (arith, h) in
    let r₀ : is_reading (s.pc i) ≡ false = ground (arith, r) in
    let r₁ : readers_stay is (step i side s) ≡ true = ground (arith, r) in
    let ne : s.pc i ≢ reading = λ e. ground (arith, e, r₀) in
    let q =
      run-Apart (t + 1) a is (step i side s) (omega (arith, h)) r₁ (step-Inv t i side s l n)
        (step-Mutual a i side s ne m) (step-Apart t a i side s l n m v) in
    (q.0, subst (λ k. Inv k (run is (step i side s))) (omega arith) q.1)

start-Apart : (sl0 sl1 : ℕ) (bytes : ℕ → ℕ) → Apart (start sl0 sl1 bytes)
unfolding start rw_lock_init
start-Apart sl0 sl1 bytes = record {
  facts = λ i. ground arith;
  alone = λ _ _ _ e. ground (arith, e);
}

-- In any interleaving of fewer than 2 ^ 31 accesses by any number of threads that lock the lock in
-- either way after `rw_lock_init`, and unlock it as writers but not as readers, if malloc's two spin
-- locks do not overlap: while a writer is between `rw_write_lock` and `rw_write_unlock`, no other
-- thread is, and none has returned from `rw_read_lock`.
pub run-excludes :
    (sl0 sl1 : ℕ) (bytes : ℕ → ℕ) (is : List (ℕ × Side)) (i j : ℕ)
    → (leb (sl0 + 4) sl1 || leb (sl1 + 4) sl0) ≡ true
    → length is < 2 ^ 31
    → readers_stay is (start sl0 sl1 bytes) ≡ true
    → i ≢ j
    → (run is (start sl0 sl1 bytes)).pc i ≡ writing
    → ((run is (start sl0 sl1 bytes)).pc j ≢ writing)
      × ((run is (start sl0 sl1 bytes)).pc j ≢ reading)
run-excludes sl0 sl1 bytes is i j d h r ne w =
    let (v, n) =
      run-Apart 0 sl0 is (start sl0 sl1 bytes) (omega (arith, h)) r (start-Inv sl0 sl1 bytes)
        (start-Mutual sl0 sl1 bytes d) (start-Apart sl0 sl1 bytes) in
    let o : owns ((run is (start sl0 sl1 bytes)).pc i) ≡ true = ap owns w in
    let f = v.alone i j (ground (arith, ne)) o in
    let z = (v.facts i).owned o in
    (λ e. ground (arith, e, f), λ e. absurd (omega (arith, z, n.counts j (ap counted e))))
