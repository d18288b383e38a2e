-- ===== src/Vm/PageTable.antt =====
-- VMproject/pgtables.h (the macros of long mode) and VMproject/on_demand.c (`walk_page_table`,
-- `petmem_handle_pagefault`): the four levels of page tables as entries in memory. `__va`, `__pa`
-- and the value of `cr3` are parameters. `get_zeroed_page` hands out the pages of a list, and 0
-- when that is empty. The TLB is left out.
pub mod Mmu
pub mod Own
pub mod Walk
pub mod Fault
mod Tests
use cs.Prelude.{
  ℕ, ◌+◌, ◌*◌, ◌/◌, ◌%◌, ◌^◌, Bool, true, false, not, ◌&&◌, Option, none, some, List, [], ◌∷◌, leb,
  ltb, ◌==◌, if◌then◌else◌, u64,
}
use cs.Vm.MemMap.{MemMap, find_address}

-- PML4E64_INDEX, PDPE64_INDEX, PDE64_INDEX, PTE64_INDEX: `>> n` and `& 0x1ff`.
abbrev pub pml_index : ℕ → ℕ
pml_index x = x / 2 ^ 39 % 512

abbrev pub pdp_index : ℕ → ℕ
pdp_index x = x / 2 ^ 30 % 512

abbrev pub pd_index : ℕ → ℕ
pd_index x = x / 2 ^ 21 % 512

abbrev pub pt_index : ℕ → ℕ
pt_index x = x / 2 ^ 12 % 512

-- PAGE_OFFSET_4KB and PAGE_ADDR.
abbrev pub page_offset : ℕ → ℕ
page_offset x = x % 4096

abbrev pub page_addr : ℕ → ℕ
page_addr x = x / 2 ^ 12 * 2 ^ 12

-- PAGE_TO_BASE_ADDR and BASE_TO_PAGE_ADDR.
abbrev pub page_to_base_addr : ℕ → ℕ
page_to_base_addr x = x / 2 ^ 12

abbrev pub base_to_page_addr : ℕ → ℕ
base_to_page_addr x = u64 (x * 2 ^ 12)

-- The mask of CR3_TO_PML4E64_PA and CR3_TO_PML4E64_VA, 0x000ffffffffff000.
abbrev pub cr3_to_pml4e64_pa : ℕ → ℕ
cr3_to_pml4e64_pa cr3 = cr3 / 2 ^ 12 % 2 ^ 40 * 2 ^ 12

-- What pml4e64_t, pdpe64_t, pde64_t and pte64_t have in common: the flags that the code sets, and
-- the 40 bits of the base address.
pub record Entry : Type 0 where
  pub present : Bool
  pub writable : Bool
  pub user_page : Bool
  pub accessed : Bool
  pub base_addr : ℕ

abbrev pub sizeof_entry : ℕ
sizeof_entry = 8

abbrev pub zero_entry : Entry
zero_entry = record {
  present = false;
  writable = false;
  user_page = false;
  accessed = false;
  base_addr = 0;
}

-- What the kernel supplies.
pub record Kernel : Type 0 where
  pub va : ℕ → ℕ
  pub pa : ℕ → ℕ
  pub cr3 : ℕ

-- The memory by the virtual address of each entry, and the pages that are still to be handed out.
pub record Paging : Type 0 where
  pub mem : ℕ → Entry
  pub pages : List ℕ

abbrev pub in_page : ℕ → ℕ → Bool
in_page page a = leb page a && ltb a (page + 4096)

unfoldable pub store : (ℕ → Entry) → ℕ → Entry → ℕ → Entry
store mem slot e a = if slot == a then e else mem a

pub zero_page : (ℕ → Entry) → ℕ → ℕ → Entry
zero_page mem page a = if in_page page a then zero_entry else mem a

-- `get_zeroed_page`
pub get_zeroed_page : Paging → Paging × ℕ
get_zeroed_page s = elim (s.pages) [
  | [] ↦ (s, 0)
  | page ∷ rest ↦ (record { mem = zero_page s.mem page; pages = rest }, page)
]

-- Sets `present`, `writable`, `user_page` and the base address of the entry at a slot.
unfoldable pub fill : Kernel → ℕ → ℕ → Paging → Paging
unfolding store
fill k slot page s = record s {
  mem = store s.mem slot (record (s.mem slot) {
    present = true;
    writable = true;
    user_page = true;
    base_addr = page_to_base_addr (k.pa page) % 2 ^ 40;
  });
}

unfoldable pub clear_accessed : ℕ → Paging → Paging
unfolding store
clear_accessed slot s = record s {
  mem = store s.mem slot (record (s.mem slot) { accessed = false });
}

-- A walk carries the memory along; `none` is its return of NULL.
abbrev pub Walk : Type 0
Walk = Paging × Option ℕ

-- One level: the table that the entry at `slot` points to. A missing table is made if `hard`.
pub descend : Kernel → Bool → ℕ → Paging → Walk
unfolding fill get_zeroed_page
descend k hard slot s =
    if (s.mem slot).present
    then (s, some (k.va (base_to_page_addr (s.mem slot).base_addr)))
    else if not hard
    then (s, none)
    else let (s', page) = get_zeroed_page s in
      let s'' = fill k slot page s' in
      (s'', some (k.va (base_to_page_addr (s''.mem slot).base_addr)))

infixl 5 ◌>>=◌
abbrev pub ◌>>=◌ : Walk → (ℕ → Paging → Walk) → Walk
◌>>=◌ (s, none) f = (s, none)
◌>>=◌ (s, some table) f = f table s

-- The first slot is reached by arithmetic on a `pml4e64_t *`, which scales the offset
-- `pml_index*sizeof(pml4e64_t)` by the size once more; the other three are on a `void *`.
abbrev pub pml_slot : Kernel → ℕ → ℕ
pml_slot k addr = k.va (cr3_to_pml4e64_pa k.cr3) + pml_index addr * sizeof_entry * sizeof_entry

abbrev pub pdp_slot : ℕ → ℕ → ℕ
pdp_slot table addr = table + pdp_index addr * sizeof_entry

abbrev pub pd_slot : ℕ → ℕ → ℕ
pd_slot table addr = table + pd_index addr * sizeof_entry

abbrev pub pt_slot : ℕ → ℕ → ℕ
pt_slot table addr = table + pt_index addr * sizeof_entry

-- The end of the walk: the slot of the last level, or NULL if it is empty and `hard` is 0.
pub last_slot : Bool → ℕ → ℕ → Paging → Walk
last_slot hard addr table s =
    let slot = pt_slot table addr in
    if not (s.mem slot).present && not hard then (s, none) else (s, some slot)

-- `walk_page_table`
pub walk_page_table : Kernel → ℕ → Bool → Paging → Walk
walk_page_table k addr hard s =
    descend k hard (pml_slot k addr) (clear_accessed (pml_slot k addr) s) >>= λ pdp_table s₁.
    descend k hard (pdp_slot pdp_table addr) s₁ >>= λ pd_table s₂.
    descend k hard (pd_slot pd_table addr) (clear_accessed (pml_slot k addr) s₂)
    >>= last_slot hard addr

-- `petmem_handle_pagefault` for the page that the walk came to.
pub map_page : Kernel → Walk → Paging × Bool
unfolding fill get_zeroed_page
map_page k (s, none) = (s, false)
map_page k (s, some slot) =
    if (s.mem slot).present
    then (s, true)
    else let (s', page) = get_zeroed_page s in (fill k slot page s', true)

-- `petmem_handle_pagefault`: `true` is its return of 0, `false` of -1.
pub handle_pagefault : Kernel → MemMap → ℕ → ℕ → Paging → Paging × Bool
handle_pagefault k map fault_addr error_code s =
    if error_code == 2 then (s, false) else elim (find_address map fault_addr) [
      | none ↦ (s, false)
      | some n ↦ map_page k (walk_page_table k fault_addr true s)
    ]
