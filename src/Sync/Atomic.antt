-- ===== src/Sync/Atomic.antt =====
-- The atomic instructions of SyncProject/locking.c on words of 32 bits. An `int` is its word.
use cs.Prelude.{ℕ, ◌+◌, ◌-◌, ◌%◌, ◌^◌, ◌==◌, if◌then◌else◌}

-- `lock cmpxchg`: the value before, and the value after.
abbrev pub compare_and_swap : ℕ → ℕ → ℕ → ℕ × ℕ
compare_and_swap word expected new = (word, if word == expected then new else word)

-- `lock xadd`: the value before, and the value after.
abbrev pub atomic_add_ret_prev : ℕ → ℕ → ℕ × ℕ
atomic_add_ret_prev word inc_val = (word, (word + inc_val) % 2 ^ 32)

-- `lock sub` and `lock add`: the value after.
abbrev pub atomic_sub : ℕ → ℕ → ℕ
atomic_sub word dec_val = (word + (2 ^ 32 - dec_val)) % 2 ^ 32

abbrev pub atomic_add : ℕ → ℕ → ℕ
atomic_add word inc_val = (word + inc_val) % 2 ^ 32
