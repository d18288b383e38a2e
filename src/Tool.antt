-- ===== src/Tool.antt =====
-- The memory tool of VMproject/user/petmem.c: it looks for consecutive blocks of memory that can be
-- taken offline, takes them offline, and hands them to the kernel module. What the files of
-- /sys/devices/system/memory answer is a parameter. An `int` is a word of 32 bits.
pub mod BlockMap
pub mod Scan
pub mod Retry
pub mod Main
pub mod Count
mod Tests
use cs.Prelude.{
  ℕ, zero, suc, ◌+◌, ◌-◌, ◌*◌, ◌/◌, ◌%◌, ◌^◌, Bool, true, false, not, ◌||◌, Option, none, some,
  List, [], ◌∷◌, ◌==◌, ltb, leb, if◌then◌else◌, u32, u64,
}
use cs.Tool.BlockMap.{Bitmap, cleared, test, mark, unmark}

-- The files of the blocks, in a state of the machine. `none` is a file that does not open, or of
-- which nothing is read: the number in `removable`, the machine after `online` or `offline` was
-- written to `state`, and whether `state` begins with `offline`.
pub record Sysfs (World : Type 0) : Type 0 where
  pub removable : World → ℕ → Option ℕ
  pub set_online : World → ℕ → Bool → Option World
  pub is_offline : World → ℕ → Option Bool

-- What a part of `main` comes to: it goes on, it returns -1, or it accesses memory out of bounds.
pub data Progress {ℓ} (A : Type ℓ) : Type ℓ where
  goes : A → Progress A
  minus_one : Progress A
  out_of_bounds : Progress A

infixl 5 ◌>>=◌
abbrev pub ◌>>=◌ {ℓ κ} : {A : Type ℓ} {B : Type κ} → Progress A → (A → Progress B) → Progress B
goes a >>= k = k a
minus_one >>= k = minus_one
out_of_bounds >>= k = out_of_bounds

abbrev pub opened {ℓ} : {A : Type ℓ} → Option A → Progress A
opened (some a) = goes a
opened none = minus_one

abbrev pub accessed {ℓ} : {A : Type ℓ} → Option A → Progress A
accessed (some a) = goes a
accessed none = out_of_bounds

abbrev negative : ℕ → Bool
negative word = leb (2 ^ 31) word

-- `(unsigned long long)` of an `int`.
abbrev pub widen : ℕ → ℕ
widen word = if negative word then word + (2 ^ 64 - 2 ^ 32) else word

-- How often a loop from 0 to an `int` runs.
abbrev pub times : ℕ → ℕ
times word = if negative word then 0 else word

-- `run_len >= num_blocks`, where `run_len` is not negative.
abbrev pub at_least : ℕ → ℕ → Bool
at_least run_len num_blocks = negative num_blocks || leb num_blocks run_len

-- The number of blocks, for a size in bytes and a block size that is not 0.
pub count_blocks : ℕ → ℕ → ℕ
count_blocks mem_size_bytes block_size_bytes =
    let q = u32 (mem_size_bytes / block_size_bytes) in
    if mem_size_bytes % block_size_bytes == 0 then q else u32 (q + 1)

-- `atoi(namelist[last_block - 1]->d_name + 6)`, from the numbers in the names.
abbrev pub last_number : List ℕ → Option ℕ
last_number [] = none
last_number (n ∷ []) = some n
last_number (n ∷ m ∷ ns) = last_number (m ∷ ns)

-- The scan of the bitmap, from block `i` with `left` blocks to go: `reg_start` and `run_len`.
pub find_run : Bitmap → ℕ → ℕ → ℕ → ℕ → ℕ → Progress (ℕ × ℕ)
find_run bitmap num_blocks zero i reg_start run_len = goes (reg_start, run_len)
find_run bitmap num_blocks (suc left) i reg_start run_len = accessed (test bitmap i) >>= λ b.
    elim b [
      | false ↦ find_run bitmap num_blocks left (i + 1) (i + 1) 0
      | true ↦ elim (at_least (run_len + 1) num_blocks) [
        | true ↦ goes (reg_start, run_len + 1)
        | false ↦ find_run bitmap num_blocks left (i + 1) reg_start (run_len + 1)
      ]
    ]

module _ {World : Type 0} (sys : Sysfs World) where
  -- The loop over the directories, with the number `j` of the last one and the names to come.
  pub mark_removable : World → ℕ → List ℕ → ℕ → Bitmap → Progress Bitmap
  mark_removable w bitmap_entries [] j bitmap =
      if ltb j (bitmap_entries - 1) then out_of_bounds else goes bitmap
  mark_removable w bitmap_entries (n ∷ names) j bitmap = elim (ltb j (bitmap_entries - 1)) [
    | false ↦ goes bitmap
    | true ↦ opened (sys.removable w n) >>= λ status.
        (if status == 1 then accessed (mark bitmap n) else goes bitmap)
        >>= mark_removable w bitmap_entries names n
  ]

  -- The files of `count` blocks from `first` on are written, one after the other.
  pub set_range : World → Bool → ℕ → ℕ → Progress World
  set_range w online first zero = goes w
  set_range w online first (suc count) =
      opened (sys.set_online w first online) >>= λ w'. set_range w' online (first + 1) count

  -- The check of the blocks from `reg_start + i` on, with `left` to go, and `mem_ready` after it. A
  -- block that is not offline is cleared in the bitmap, and those before it are set online again.
  pub check_offline : World → Bitmap → ℕ → ℕ → ℕ → Progress (World × Bitmap × Bool)
  check_offline w bitmap reg_start i zero = goes (w, bitmap, true)
  check_offline w bitmap reg_start i (suc left) =
      opened (sys.is_offline w (i + reg_start)) >>= λ offline. elim offline [
        | true ↦ check_offline w bitmap reg_start (i + 1) left
        | false ↦ accessed (unmark bitmap (i + reg_start)) >>= λ bitmap'.
            set_range w true reg_start i >>= λ w'. goes (w', bitmap', false)
      ]

  -- A run that was found is taken offline and checked: the machine, the bitmap, `reg_start` and
  -- `mem_ready`.
  pub offline_run : ℕ → World → Bitmap → ℕ × ℕ → Progress (World × Bitmap × ℕ × Bool)
  offline_run num_blocks w bitmap (reg_start, run_len) = elim (at_least run_len num_blocks) [
    | false ↦ minus_one
    | true ↦ set_range w false reg_start (times num_blocks) >>= λ w'.
        check_offline w' bitmap reg_start 0 (times num_blocks) >>= λ r.
        goes (r.0, r.1, reg_start, r.2)
  ]

  -- One turn of `while (!mem_ready)`.
  pub search_turn : ℕ → ℕ → World → Bitmap → ℕ → Progress (World × Bitmap × ℕ × Bool)
  search_turn bitmap_entries num_blocks w bitmap reg_start =
      find_run bitmap num_blocks bitmap_entries 0 reg_start 0 >>= offline_run num_blocks w bitmap

  -- The test of `while (!mem_ready)`, with the further turns.
  abbrev pub after_turn :
      (World → Bitmap → ℕ → Option (Progress (World × ℕ)))
      → Progress (World × Bitmap × ℕ × Bool)
      → Option (Progress (World × ℕ))
  after_turn further minus_one = some minus_one
  after_turn further out_of_bounds = some out_of_bounds
  after_turn further (goes (w, bitmap, reg_start, true)) = some (goes (w, reg_start))
  after_turn further (goes (w, bitmap, reg_start, false)) = further w bitmap reg_start

  -- The loop on fuel: `none` when the fuel runs out.
  pub search_loop : ℕ → ℕ → ℕ → World → Bitmap → ℕ → Option (Progress (World × ℕ))
  search_loop zero bitmap_entries num_blocks w bitmap reg_start = none
  search_loop (suc fuel) bitmap_entries num_blocks w bitmap reg_start =
      after_turn (search_loop fuel bitmap_entries num_blocks)
        (search_turn bitmap_entries num_blocks w bitmap reg_start)

-- `struct memory_range`
pub record MemoryRange : Type 0 where
  pub base_addr : ℕ
  pub pages : ℕ

pub range_of : ℕ → ℕ → ℕ → MemoryRange
range_of reg_start num_blocks block_size_bytes = record {
  base_addr = u64 (widen reg_start * block_size_bytes);
  pages = u64 (widen num_blocks * block_size_bytes) / 4096;
}

-- The bitmap of the removable blocks and its number of entries.
pub read_blocks : {World : Type 0} → Sysfs World → World → List ℕ → Progress (ℕ × Bitmap)
read_blocks sys w names = accessed (last_number names) >>= λ m.
    mark_removable sys w (m + 1) names 0 (cleared (m + 1)) >>= λ bitmap. goes (m + 1, bitmap)

-- `main` up to the ioctl ADD_MEMORY, from its argument in bytes, the size of a block and the numbers
-- of the directories in the order of `scandir`; with fuel for the loop.
pub petmem :
    {World : Type 0} → Sysfs World → ℕ → World → ℕ → ℕ → List ℕ → Option (Progress MemoryRange)
petmem sys fuel w mem_size_bytes block_size_bytes names =
    let num_blocks = count_blocks mem_size_bytes block_size_bytes in
    elim (read_blocks sys w names) [
      | minus_one ↦ some minus_one
      | out_of_bounds ↦ some out_of_bounds
      | goes r ↦ elim (search_loop sys fuel r.0 num_blocks w r.1 0) [
        | none ↦ none
        | some o ↦ some (o >>= λ q. goes (range_of q.1 num_blocks block_size_bytes))
      ]
    ]
