-- ===== src/Sync/RwLock.antt =====
-- The reader-writer lock of SyncProject/locking.c, with every access of shared memory as a step of its
-- own. A schedule is the list of the threads that move, each with the call that it begins where it is
-- in none. The spin locks lie in a memory of bytes, by their addresses; that the struct of the lock
-- lies elsewhere is assumed.
pub mod Starved
pub mod Flags
pub mod Mutex
pub mod Exclusion
mod Tests
use cs.Prelude.{
  ℕ, ◌+◌, ◌-◌, ◌*◌, ◌/◌, ◌%◌, ◌^◌, Bool, true, false, not, ◌&&◌, List, [], ◌∷◌, ◌==◌, ltb,
  if◌then◌else◌,
}
use cs.Sync.Atomic.{compare_and_swap, atomic_sub}

-- `struct read_write_lock`
pub record ReadWriteLock : Type 0 where
  pub num_readers : ℕ  -- int
  pub writer : ℕ  -- int
  pub w_mutex : ℕ  -- struct spinlock *
  pub mutex : ℕ  -- struct spinlock *

-- The word of 32 bits at an address, lowest byte first.
pub load : (ℕ → ℕ) → ℕ → ℕ
load bytes a = bytes a + 2 ^ 8 * bytes (a + 1) + 2 ^ 16 * bytes (a + 2) + 2 ^ 24 * bytes (a + 3)

pub store : (ℕ → ℕ) → ℕ → ℕ → ℕ → ℕ
store bytes a w x =
    if x == a
    then w % 2 ^ 8
    else if x == a + 1
    then w / 2 ^ 8 % 2 ^ 8
    else if x == a + 2
    then w / 2 ^ 16 % 2 ^ 8
    else if x == a + 3
    then w / 2 ^ 24 % 2 ^ 8
    else bytes x

-- `lock sub` on the word of 32 bits that is the low half of a pointer.
abbrev pub atomic_sub_low : ℕ → ℕ → ℕ
atomic_sub_low pointer dec_val = pointer / 2 ^ 32 * 2 ^ 32 + atomic_sub (pointer % 2 ^ 32) dec_val

pub data Side : Type 0 where
  reader : Side
  writer : Side

-- Where a thread stands, with the local variables that are live there.
pub data Pc : Type 0 where
  outside : Pc
  calling : Side → Pc  -- before the load of lock->mutex, for spinlock_lock
  locking : Side → (mutex : ℕ) → Pc  -- the loop of spinlock_lock
  await_writer : Pc  -- the loop of rw_read_lock
  load_readers : Pc  -- before the load of `num_readers++`
  store_readers : (old : ℕ) → Pc  -- before its store
  test_writer : Pc  -- the loop of rw_write_lock, at lock->writer
  test_readers : Pc  -- and at lock->num_readers
  set_writer : Pc  -- before `lock->writer = 1`
  releasing : Side → Pc  -- before the load of lock->mutex, for spinlock_unlock
  unlocking : Side → (mutex : ℕ) → Pc  -- before its store
  reading : Pc  -- before rw_read_unlock
  writing : Pc  -- before rw_write_unlock

pub record System : Type 0 where
  pub lock : ReadWriteLock
  pub bytes : ℕ → ℕ
  pub pc : ℕ → Pc

-- Where the mutex has been taken.
abbrev pub after_lock : Side → Pc
after_lock reader = await_writer
after_lock writer = test_writer

-- Where the function has returned.
abbrev pub after_unlock : Side → Pc
after_unlock reader = reading
after_unlock writer = writing

-- Is an `int` greater than 0?
abbrev pub is_positive : ℕ → Bool
is_positive word = not (word == 0) && ltb word (2 ^ 31)

abbrev pub State : Type 0
State = ReadWriteLock × (ℕ → ℕ) × Pc

-- One access by a thread, which begins the given call where it is in none.
pub move : Side → ReadWriteLock → (ℕ → ℕ) → Pc → State
move side lock bytes outside = (lock, bytes, calling side)
move side lock bytes (calling s) = (lock, bytes, locking s lock.mutex)
move side lock bytes (locking s mutex) =
    let (original, free') = compare_and_swap (load bytes mutex) 1 0 in
    (lock, store bytes mutex free', if original == 0 then locking s mutex else after_lock s)
move side lock bytes await_writer =
    (lock, bytes, if lock.writer == 0 then load_readers else await_writer)
move side lock bytes load_readers = (lock, bytes, store_readers lock.num_readers)
move side lock bytes (store_readers old) =
    (record lock { num_readers = (old + 1) % 2 ^ 32 }, bytes, releasing reader)
move side lock bytes test_writer =
    (lock, bytes, if lock.writer == 0 then test_readers else test_writer)
move side lock bytes test_readers =
    (lock, bytes, if is_positive lock.num_readers then test_writer else set_writer)
move side lock bytes set_writer = (record lock { writer = 1 }, bytes, releasing writer)
move side lock bytes (releasing s) = (lock, bytes, unlocking s lock.mutex)
move side lock bytes (unlocking s mutex) = (lock, store bytes mutex 1, after_unlock s)
move side lock bytes reading = (record lock { mutex = atomic_sub_low lock.mutex 1 }, bytes, outside)
move side lock bytes writing = (record lock { writer = atomic_sub lock.writer 1 }, bytes, outside)

pub step : ℕ → Side → System → System
step i side s =
    let (lock', bytes', p) = move side s.lock s.bytes (s.pc i) in
    record { lock = lock'; bytes = bytes'; pc = λ j. if i == j then p else s.pc j }

pub run : List (ℕ × Side) → System → System
run [] s = s
run ((i, side) ∷ is) s = run is (step i side s)

-- `rw_lock_init`, with the addresses that malloc returns and the memory before it.
pub rw_lock_init : (sl0 sl1 : ℕ) → (ℕ → ℕ) → ReadWriteLock × (ℕ → ℕ)
rw_lock_init sl0 sl1 bytes = (
  record { num_readers = 0; writer = 0; w_mutex = sl1; mutex = sl0 },
  store (store bytes sl0 1) sl1 1,
)

-- Every thread is outside of a lock that was initialised.
pub start : (sl0 sl1 : ℕ) → (ℕ → ℕ) → System
start sl0 sl1 bytes =
    let (lock, bytes') = rw_lock_init sl0 sl1 bytes in
    record { lock = lock; bytes = bytes'; pc = λ _. outside }
