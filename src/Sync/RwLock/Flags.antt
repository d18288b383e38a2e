-- ===== src/Sync/RwLock/Flags.antt =====
-- What a thread in the reader-writer lock of SyncProject/locking.c knows of its fields.
use cs.Prelude.{ℕ, ◌+◌, ◌^◌, ◌≤◌, ◌<◌, ◌≡◌, refl, Bool, true, false, arith}
use cs.Sync.RwLock.{
  ReadWriteLock, Side, reader, writer, Pc, outside, calling, locking, await_writer, load_readers,
  store_readers, test_writer, test_readers, set_writer, releasing, unlocking, reading, writing,
  move,
}

-- Does a thread hold the mutex?
abbrev pub holds : Pc → Bool
holds await_writer = true
holds load_readers = true
holds (store_readers old) = true
holds test_writer = true
holds test_readers = true
holds set_writer = true
holds (releasing s) = true
holds (unlocking s m) = true
holds p = false

-- Has it set `lock->writer`?
abbrev pub owns : Pc → Bool
owns (releasing writer) = true
owns (unlocking writer m) = true
owns writing = true
owns p = false

-- Has it seen that `lock->writer` is 0, and still relies on that?
abbrev pub relies : Pc → Bool
relies load_readers = true
relies (store_readers old) = true
relies test_readers = true
relies set_writer = true
relies p = false

abbrev pub sets : Pc → Bool
sets set_writer = true
sets p = false

-- What a thread knows of the lock.
pub record Facts (lock : ReadWriteLock) (p : Pc) : Type 0 where
  pub zero : relies p ≡ true → lock.writer ≡ 0
  pub owned : owns p ≡ true → (lock.writer ≡ 1) × (lock.num_readers ≡ 0)
  pub none : sets p ≡ true → lock.num_readers ≡ 0

-- A move keeps it true of the thread that moves.
pub move-Facts :
    (t : ℕ) (side : Side) (lock : ReadWriteLock) (bytes : ℕ → ℕ) (p : Pc)
    → lock.num_readers ≤ t
    → t + 1 < 2 ^ 31
    → Facts lock p
    → Facts (move side lock bytes p).0 (move side lock bytes p).2
unfolding move
move-Facts t side lock bytes outside n h f = ground (arith, f)
move-Facts t side lock bytes (calling s) n h f = ground (arith, f)
move-Facts t side lock bytes (locking reader m) n h f = ground (arith, f)
move-Facts t side lock bytes (locking writer m) n h f = ground (arith, f)
move-Facts t side lock bytes await_writer n h f = ground (arith, f)
move-Facts t side lock bytes load_readers n h f = ground (arith, f)
move-Facts t side lock bytes (store_readers old) n h f = ground (arith, f)
move-Facts t side lock bytes test_writer n h f = ground (arith, f)
move-Facts t side lock bytes test_readers n h f = ground (arith, f)
move-Facts t side lock bytes set_writer n h f = ground (arith, f)
move-Facts t side lock bytes (releasing reader) n h f = ground (arith, f)
move-Facts t side lock bytes (releasing writer) n h f = ground (arith, f)
move-Facts t side lock bytes (unlocking reader m) n h f = ground (arith, f)
move-Facts t side lock bytes (unlocking writer m) n h f = ground (arith, f)
move-Facts t side lock bytes reading n h f = ground (arith, f)
move-Facts t side lock bytes writing n h f = ground (arith, f)

pub relies-holds : (q : Pc) → relies q ≡ true → holds q ≡ true
relies-holds outside e = ground (arith, e)
relies-holds (calling s) e = ground (arith, e)
relies-holds (locking s m) e = ground (arith, e)
relies-holds await_writer e = ground (arith, e)
relies-holds load_readers e = refl
relies-holds (store_readers old) e = refl
relies-holds test_writer e = ground (arith, e)
relies-holds test_readers e = refl
relies-holds set_writer e = refl
relies-holds (releasing s) e = ground (arith, e)
relies-holds (unlocking s m) e = ground (arith, e)
relies-holds reading e = ground (arith, e)
relies-holds writing e = ground (arith, e)

pub sets-relies : (q : Pc) → sets q ≡ true → relies q ≡ true
sets-relies outside e = ground (arith, e)
sets-relies (calling s) e = ground (arith, e)
sets-relies (locking s m) e = ground (arith, e)
sets-relies await_writer e = ground (arith, e)
sets-relies load_readers e = ground (arith, e)
sets-relies (store_readers old) e = ground (arith, e)
sets-relies test_writer e = ground (arith, e)
sets-relies test_readers e = ground (arith, e)
sets-relies set_writer e = refl
sets-relies (releasing s) e = ground (arith, e)
sets-relies (unlocking s m) e = ground (arith, e)
sets-relies reading e = ground (arith, e)
sets-relies writing e = ground (arith, e)

-- And of another, if only one of them holds the mutex and only one has set `lock->writer`.
pub move-Facts_other :
    (side : Side) (lock : ReadWriteLock) (bytes : ℕ → ℕ) (p q : Pc)
    → Facts lock p
    → Facts lock q
    → (holds p ≡ true → holds q ≡ false)
    → (owns p ≡ true → owns q ≡ false)
    → (relies q ≡ true → holds q ≡ true)
    → (sets q ≡ true → relies q ≡ true)
    → Facts (move side lock bytes p).0 q × (owns (move side lock bytes p).2 ≡ true → owns q ≡ false)
unfolding move
move-Facts_other side lock bytes outside q f g u v r x = ground (arith, f, g, u, v, r, x)
move-Facts_other side lock bytes (calling s) q f g u v r x = ground (arith, f, g, u, v, r, x)
move-Facts_other side lock bytes (locking reader m) q f g u v r x = ground (arith, f, g, u, v, r, x)
move-Facts_other side lock bytes (locking writer m) q f g u v r x = ground (arith, f, g, u, v, r, x)
move-Facts_other side lock bytes await_writer q f g u v r x = ground (arith, f, g, u, v, r, x)
move-Facts_other side lock bytes load_readers q f g u v r x = ground (arith, f, g, u, v, r, x)
move-Facts_other side lock bytes (store_readers old) q f g u v r x =
    ground (arith, f, g, u, v, r, x)
move-Facts_other side lock bytes test_writer q f g u v r x = ground (arith, f, g, u, v, r, x)
move-Facts_other side lock bytes test_readers q f g u v r x = ground (arith, f, g, u, v, r, x)
move-Facts_other side lock bytes set_writer q f g u v r x = ground (arith, f, g, u, v, r, x)
move-Facts_other side lock bytes (releasing reader) q f g u v r x = ground (arith, f, g, u, v, r, x)
move-Facts_other side lock bytes (releasing writer) q f g u v r x = ground (arith, f, g, u, v, r, x)
move-Facts_other side lock bytes (unlocking reader m) q f g u v r x =
    ground (arith, f, g, u, v, r, x)
move-Facts_other side lock bytes (unlocking writer m) q f g u v r x =
    ground (arith, f, g, u, v, r, x)
move-Facts_other side lock bytes reading q f g u v r x = ground (arith, f, g, u, v, r, x)
move-Facts_other side lock bytes writing q f g u v r x = ground (arith, f, g, u, v, r, x)
