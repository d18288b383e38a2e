-- ===== src/Vm/Pool.antt =====
-- VMproject/main.c: the pools of memory that the ioctl ADD_MEMORY makes, `petmem_alloc_pages` and
-- `petmem_free_pages`. The buddy allocator that holds a pool, the kernel's `fls` and `get_order`,
-- and the translation of addresses are parameters.
pub mod Cover
pub mod Blocks
mod Tests
use cs.Prelude.{
  ℕ, zero, suc, ◌+◌, ◌-◌, ◌*◌, ◌/◌, ◌%◌, ◌^◌, ◌≤◌, ◌<◌, ◌≡◌, ◌≢◌, Bool, true, false, ◌&&◌, Option,
  none, some, List, [], ◌∷◌, ◌==◌, ltb, leb, if◌then◌else◌, u32, u64, u64_sub,
}

-- The functions of the buddy allocator that are called, and the two fields of a pool that are read.
-- `buddy_init` can return NULL, and the other two stop the kernel by BUG_ON: `none`.
pub record Buddy (Mempool : Type 0) : Type 0 where
  pub buddy_init : (base_addr pool_order min_order : ℕ) → Option Mempool
  pub buddy_alloc : Mempool → (order : ℕ) → Option (Mempool × ℕ)
  pub buddy_free : Mempool → (addr order : ℕ) → Option Mempool
  pub base_addr : Mempool → ℕ
  pub pool_order : Mempool → ℕ

-- A pool keeps what it was made with.
pub record KeepsPlace {Mempool : Type 0} (buddy : Buddy Mempool) : Type 0 where
  pub init_place :
      (b o m : ℕ) {p : Mempool}
      → buddy.buddy_init b o m ≡ some p
      → (buddy.base_addr p ≡ b) × (buddy.pool_order p ≡ o)
  pub alloc_place :
      {p q : Mempool} (o : ℕ) {a : ℕ}
      → buddy.buddy_alloc p o ≡ some (q, a)
      → (buddy.base_addr q ≡ buddy.base_addr p) × (buddy.pool_order q ≡ buddy.pool_order p)
  pub free_place :
      {p q : Mempool} (a o : ℕ)
      → buddy.buddy_free p a o ≡ some q
      → (buddy.base_addr q ≡ buddy.base_addr p) × (buddy.pool_order q ≡ buddy.pool_order p)

-- What else the kernel supplies.
pub record Arch : Type 0 where
  pub va : ℕ → ℕ
  pub pa : ℕ → ℕ
  pub fls : ℕ → ℕ
  pub get_order : ℕ → ℕ

-- `fls` of a word of 32 bits: the number of its highest bit, counted from 1, and 0 for 0.
pub record IsFls (fls : ℕ → ℕ) : Type 0 where
  pub fls_zero : fls 0 ≡ 0
  pub fls_range : (n : ℕ) → 0 < n → (0 < fls n) × (2 ^ (fls n - 1) ≤ n) × (n < 2 ^ fls n)

-- A part of the kernel ends, it stops by BUG_ON, or the model's fuel ends first.
pub data Ran {ℓ} (A : Type ℓ) : Type ℓ where
  fine : A → Ran A
  bug : Ran A
  out_of_fuel : Ran A

infixl 5 ◌>>=◌
abbrev pub ◌>>=◌ {ℓ κ} : {A : Type ℓ} {B : Type κ} → Ran A → (A → Ran B) → Ran B
fine a >>= k = k a
bug >>= k = bug
out_of_fuel >>= k = out_of_fuel

abbrev pub checked {ℓ} : {A : Type ℓ} → Option A → Ran A
checked none = bug
checked (some a) = fine a

abbrev pub page_shift : ℕ
page_shift = 12

-- `0x1 << n` as an `int`, in 64 bits: a shift by 31 gives a negative number, and one by more is
-- taken modulo 32, as the processor does.
abbrev pub one_shifted : ℕ → ℕ
one_shifted n = if n % 32 == 31 then 2 ^ 64 - 2 ^ 31 else 2 ^ (n % 32)

module _ {Mempool : Type 0} (buddy : Buddy Mempool) (arch : Arch) where
  -- The loop of ADD_MEMORY, with the list of pools, newest first.
  pub add_loop : ℕ → ℕ → ℕ → List Mempool → Ran (List Mempool)
  add_loop zero num_pages base_addr pools = out_of_fuel
  add_loop (suc fuel) num_pages base_addr pools =
      let reg_order = arch.fls num_pages in
      elim (reg_order == 0) [
        | true ↦ fine pools
        | false ↦ elim (buddy.buddy_init base_addr (reg_order + page_shift - 1) page_shift) [
          | none ↦ fine pools
          | some tmp_pool ↦
              checked (buddy.buddy_free tmp_pool base_addr (reg_order + page_shift - 1)) >>= λ p.
              add_loop fuel (u32 (num_pages + 2 ^ 32 - one_shifted (reg_order - 1) % 2 ^ 32))
                (u64 (base_addr + one_shifted (reg_order - 1) * 4096)) (p ∷ pools)
        ]
      ]

  -- The ioctl ADD_MEMORY, with a `struct memory_range`. A word of 32 bits has 33 orders.
  pub add_memory : ℕ → ℕ → List Mempool → Ran (List Mempool)
  add_memory base_addr pages pools = add_loop 34 (u32 pages) (arch.va base_addr) pools

  -- `get_order(num_pages * PAGE_SIZE) + PAGE_SHIFT`
  abbrev pub page_order : ℕ → ℕ
  page_order num_pages = arch.get_order (u64 (num_pages * 4096)) + page_shift

  -- The loop of `petmem_alloc_pages`: the pools that it went over, and `paddr`.
  pub alloc_from : ℕ → List Mempool → ℕ → Ran (List Mempool × ℕ)
  alloc_from order [] paddr = fine ([], paddr)
  alloc_from order (p ∷ ps) paddr = checked (buddy.buddy_alloc p order) >>= λ r.
      elim (arch.pa r.1 == 0) [
        | false ↦ fine (r.0 ∷ ps, arch.pa r.1)
        | true ↦ alloc_from order ps (arch.pa r.1) >>= λ q. fine (r.0 ∷ q.0, q.1)
      ]

  -- `petmem_alloc_pages`
  pub alloc_pages : ℕ → List Mempool → Ran (List Mempool × ℕ)
  alloc_pages num_pages pools = alloc_from (page_order num_pages) pools 0

  abbrev pub in_pool : ℕ → Mempool → Bool
  in_pool page_addr p =
      leb (buddy.base_addr p) page_addr
      && ltb page_addr (u64 (buddy.base_addr p + one_shifted (buddy.pool_order p)))

  pub free_to : ℕ → ℕ → List Mempool → Ran (List Mempool)
  free_to page_addr order [] = fine []
  free_to page_addr order (p ∷ ps) = elim (in_pool page_addr p) [
    | false ↦ free_to page_addr order ps >>= λ ps'. fine (p ∷ ps')
    | true ↦ checked (buddy.buddy_free p (arch.va page_addr) order) >>= λ p'. fine (p' ∷ ps)
  ]

  -- `petmem_free_pages`
  pub free_pages : ℕ → ℕ → List Mempool → Ran (List Mempool)
  free_pages page_addr num_pages pools = free_to page_addr (page_order num_pages) pools
