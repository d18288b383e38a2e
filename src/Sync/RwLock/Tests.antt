-- ===== src/Sync/RwLock/Tests.antt =====
-- Runs of the reader-writer lock of SyncProject/locking.c, and its theorem there.
use cs.Prelude.{ℕ, ◌≡◌, ◌≢◌, refl, List, [], ◌∷◌, arith}
use cs.Sync.RwLock.{
  Side, reader, writer, reading, writing, load, store, move, step, run, start, rw_lock_init,
}
use cs.Sync.RwLock.Exclusion.{run-excludes}
use cs.Sync.RwLock.Starved.{run-starved}

abbrev zeros : ℕ → ℕ
zeros _ = 0

-- Thread 0 locks the lock as a reader.
abbrev reads : List (ℕ × Side)
reads =
    (0, reader)
    ∷ (0, reader)
    ∷ (0, reader)
    ∷ (0, reader)
    ∷ (0, reader)
    ∷ (0, reader)
    ∷ (0, reader)
    ∷ (0, reader)
    ∷ []

reads_ends : (run reads (start 0x1000 0x2000 zeros)).pc 0 ≡ reading
unfolding run step move start rw_lock_init load store
reads_ends = refl

-- Then it unlocks it, and thread 1 tries to lock it as a writer.
abbrev tries : List (ℕ × Side)
tries = (0, reader) ∷ (1, writer) ∷ (1, writer) ∷ (1, writer) ∷ (1, writer) ∷ []

-- The pointer to the mutex is off by one.
off_by_one : (run tries (run reads (start 0x1000 0x2000 zeros))).lock.mutex ≡ 0x0fff
unfolding run step move start rw_lock_init load store
off_by_one = refl

run-starved_example : (run tries (run reads (start 0x1000 0x2000 zeros))).pc 1 ≢ writing
unfolding run step move start rw_lock_init load store
run-starved_example = run-starved 0x1000 0x2000 zeros reads tries 0 1 (omega arith) reads_ends refl

-- Thread 1 locks the lock as a writer, and thread 2 tries to as a reader.
abbrev write_then_read : List (ℕ × Side)
write_then_read =
    (1, writer)
    ∷ (1, writer)
    ∷ (1, writer)
    ∷ (2, reader)
    ∷ (1, writer)
    ∷ (1, writer)
    ∷ (1, writer)
    ∷ (1, writer)
    ∷ (2, reader)
    ∷ (1, writer)
    ∷ (2, reader)
    ∷ (2, reader)
    ∷ []

writes_ends : (run write_then_read (start 0x1000 0x2000 zeros)).pc 1 ≡ writing
unfolding run step move start rw_lock_init load store
writes_ends = refl

run-excludes_example :
    ((run write_then_read (start 0x1000 0x2000 zeros)).pc 2 ≢ writing)
    × ((run write_then_read (start 0x1000 0x2000 zeros)).pc 2 ≢ reading)
unfolding run step move start rw_lock_init load store
run-excludes_example =
    run-excludes 0x1000 0x2000 zeros write_then_read 1 2 refl (omega arith) refl
      (λ e. omega (arith, e)) writes_ends
