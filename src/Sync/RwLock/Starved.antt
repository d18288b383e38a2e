-- ===== src/Sync/RwLock/Starved.antt =====
-- Writers of the reader-writer lock of SyncProject/locking.c after a reader was in it.
use cs.Prelude.{
  ℕ, ◌+◌, ◌^◌, ◌≤◌, ◌<◌, ◌≡◌, ◌≢◌, ap, subst, Bool, true, false, List, [], ◌∷◌, length, ◌==◌,
  Bool-cases, inl, inr, arith,
}
use cs.Sync.RwLock.{
  ReadWriteLock, Side, reader, writer, Pc, outside, calling, locking, await_writer, load_readers,
  store_readers, test_writer, test_readers, set_writer, releasing, unlocking, reading, writing,
  System, State, move, step, run, start, rw_lock_init,
}

-- Has a writer passed the test of the number of readers?
abbrev pub writes : Pc → Bool
writes set_writer = true
writes (releasing writer) = true
writes (unlocking writer m) = true
writes writing = true
writes p = false

-- Has a reader been counted?
abbrev pub counted : Pc → Bool
counted (releasing reader) = true
counted (unlocking reader m) = true
counted reading = true
counted p = false

-- The number of readers that a thread is about to raise.
abbrev pub loaded : Pc → ℕ
loaded (store_readers old) = old
loaded p = 0

-- What a move does to the number of readers, and where it leads, where the number is no more than
-- `t`.
record Moved (t : ℕ) (lock : ReadWriteLock) (p : Pc) (r : State) : Type 0 where
  number : r.0.num_readers ≤ t + 1
  next : loaded r.2 ≤ t + 1
  kept : 0 < lock.num_readers → 0 < r.0.num_readers
  counts : counted r.2 ≡ true → counted p ≡ false → 0 < r.0.num_readers
  waits : 0 < lock.num_readers → writes p ≡ false → writes r.2 ≡ false

move-Moved :
    (t : ℕ) (side : Side) (lock : ReadWriteLock) (bytes : ℕ → ℕ) (p : Pc)
    → lock.num_readers ≤ t
    → loaded p ≤ t
    → t + 1 < 2 ^ 31
    → Moved t lock p (move side lock bytes p)
unfolding move
move-Moved t side lock bytes outside n l h = ground arith
move-Moved t side lock bytes (calling s) n l h = ground arith
move-Moved t reader lock bytes (locking reader m) n l h = ground arith
move-Moved t reader lock bytes (locking writer m) n l h = ground arith
move-Moved t writer lock bytes (locking reader m) n l h = ground arith
move-Moved t writer lock bytes (locking writer m) n l h = ground arith
move-Moved t side lock bytes await_writer n l h = ground arith
move-Moved t side lock bytes load_readers n l h = ground arith
move-Moved t side lock bytes (store_readers old) n l h = ground arith
move-Moved t side lock bytes test_writer n l h = ground arith
move-Moved t side lock bytes test_readers n l h = ground arith
move-Moved t side lock bytes set_writer n l h = ground arith
move-Moved t side lock bytes (releasing reader) n l h = ground arith
move-Moved t side lock bytes (releasing writer) n l h = ground arith
move-Moved t side lock bytes (unlocking reader m) n l h = ground arith
move-Moved t side lock bytes (unlocking writer m) n l h = ground arith
move-Moved t side lock bytes reading n l h = ground arith
move-Moved t side lock bytes writing n l h = ground arith

-- What holds after `t` accesses.
pub record Inv (t : ℕ) (s : System) : Type 0 where
  pub number : s.lock.num_readers ≤ t
  pub pending : (i : ℕ) → loaded (s.pc i) ≤ t
  pub counts : (i : ℕ) → counted (s.pc i) ≡ true → 0 < s.lock.num_readers

pub step-Inv :
    (t i : ℕ) (side : Side) (s : System) → t + 1 < 2 ^ 31 → Inv t s → Inv (t + 1) (step i side s)
unfolding step
step-Inv t i side s h v =
    let m = move-Moved t side s.lock s.bytes (s.pc i) v.number (v.pending i) h in
    record {
      number = m.number;
      pending = λ j. elim (Bool-cases (i == j)) [
        | inl e ↦ rw e m.next
        | inr e ↦ rw e (omega (arith, v.pending j))
      ];
      counts = λ j. ground (arith, m.kept, m.counts, v.counts j, v.counts i);
    }

run-Inv :
    (t : ℕ) (is : List (ℕ × Side)) (s : System)
    → t + length is < 2 ^ 31
    → Inv t s
    → Inv (t + length is) (run is s)
unfolding run
run-Inv t [] s h v = subst (λ n. Inv n s) (omega arith) v
run-Inv t ((i, side) ∷ is) s h v =
    subst (λ n. Inv n (run is (step i side s))) (omega arith)
      (run-Inv (t + 1) is (step i side s) (omega (arith, h))
        (step-Inv t i side s (omega (arith, h)) v))

-- A thread that has not passed the test of the readers does not, once there are some.
run-waits :
    (t : ℕ) (is : List (ℕ × Side)) (s : System) (j : ℕ)
    → t + length is < 2 ^ 31
    → Inv t s
    → 0 < s.lock.num_readers
    → writes (s.pc j) ≡ false
    → writes ((run is s).pc j) ≡ false
unfolding run step
run-waits t [] s j h v p w = w
run-waits t ((i, side) ∷ is) s j h v p w =
    let m = move-Moved t side s.lock s.bytes (s.pc i) v.number (v.pending i) (omega (arith, h)) in
    let w' : writes ((step i side s).pc j) ≡ false = ground (arith, m.waits, p, w) in
    run-waits (t + 1) is (step i side s) j (omega (arith, h))
      (step-Inv t i side s (omega (arith, h)) v) (m.kept p) w'

pub start-Inv : (sl0 sl1 : ℕ) (bytes : ℕ → ℕ) → Inv 0 (start sl0 sl1 bytes)
unfolding start rw_lock_init
start-Inv sl0 sl1 bytes = record {
  number = omega arith;
  pending = λ _. omega arith;
  counts = λ i e. ground (arith, e);
}

-- In any interleaving of fewer than 2 ^ 31 accesses by any number of threads that lock and unlock the
-- lock after `rw_lock_init`: once a reader has returned from `rw_read_lock`, no thread that has not
-- passed the test of the number of readers before ever returns from `rw_write_lock`, though every
-- reader may unlock.
pub run-starved :
    (sl0 sl1 : ℕ) (bytes : ℕ → ℕ) (before after : List (ℕ × Side)) (i j : ℕ)
    → length before + length after < 2 ^ 31
    → (run before (start sl0 sl1 bytes)).pc i ≡ reading
    → writes ((run before (start sl0 sl1 bytes)).pc j) ≡ false
    → (run after (run before (start sl0 sl1 bytes))).pc j ≢ writing
run-starved sl0 sl1 bytes before after i j h r w =
    let v = run-Inv 0 before (start sl0 sl1 bytes) (omega (arith, h)) (start-Inv sl0 sl1 bytes) in
    let p = v.counts i (ap counted r) in
    let q =
      run-waits (0 + length before) after (run before (start sl0 sl1 bytes)) j (omega (arith, h)) v
        p w in
    λ e. ground (arith, q, e)
