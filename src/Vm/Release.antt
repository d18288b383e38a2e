-- ===== src/Vm/Release.antt =====
-- VMproject/on_demand.c: the second half of `petmem_free_vspace`, which walks the page tables from
-- the start of the released block, frees its pages, and frees the tables that it leaves. A pointer
-- is `none` where it is NULL, and an access through it stops the kernel. The TLB is left out.
pub mod Leaf
pub mod Block
mod Tests
use cs.Prelude.{
  ℕ, zero, suc, ◌+◌, ◌-◌, ◌*◌, ◌/◌, ◌%◌, ◌^◌, Bool, true, false, not, ◌&&◌, ◌||◌, Option, none,
  some, List, [], ◌∷◌, ◌++◌, ◌==◌, leb, ltb, if◌then◌else◌, u32, u64, u64_sub,
}
use cs.Vm.PageTable.{
  pml_index, pdp_index, pd_index, pt_index, page_addr, base_to_page_addr, Entry, sizeof_entry,
  Kernel, Paging, store, pml_slot,
}

-- The variables of the loop. `freed` are the arguments of `free_page`, the latest first.
pub record Sweep : Type 0 where
  pub mem : ℕ → Entry
  pub freed : List ℕ
  pub pages_covered : ℕ
  pub pml : ℕ
  pub pdp : ℕ
  pub pd : ℕ
  pub pt : ℕ
  pub pml_cur : ℕ
  pub pdp_cur : Option ℕ
  pub pd_cur : Option ℕ
  pub pt_cur : Option ℕ
  pub pdp_mine : Bool
  pub pd_mine : Bool
  pub pt_mine : Bool

-- The initialisation, at the start of the block.
unfoldable pub sweep_start : Kernel → Paging → ℕ → Sweep
sweep_start k s free_start = record {
  mem = s.mem;
  freed = [];
  pages_covered = 0;
  pml = pml_index free_start;
  pdp = pdp_index free_start;
  pd = pd_index free_start;
  pt = pt_index free_start;
  pml_cur = pml_slot k free_start;
  pdp_cur = none;
  pd_cur = none;
  pt_cur = none;
  pdp_mine = false;
  pd_mine = false;
  pt_mine = false;
}

-- `__va(BASE_TO_PAGE_ADDR(entry->base_addr)) + index*sizeof(entry)`
abbrev pub entry_in : Kernel → Entry → ℕ → ℕ
entry_in k e index = k.va (base_to_page_addr e.base_addr) + index * sizeof_entry

abbrev pub absent : (ℕ → Entry) → ℕ → ℕ → Entry
absent mem slot = store mem slot (record (mem slot) { present = false })

-- The last level: the page is freed if there is one.
pub visit_page : Kernel → ℕ → Sweep → Sweep
visit_page k slot s =
    let s' = record s {
      pt_cur = some slot;
      pt = s.pt + 1;
      pages_covered = u64 (s.pages_covered + 1);
    } in
    if (s.mem slot).present
    then record s' {
      mem = absent s.mem slot;
      freed = k.va (base_to_page_addr (s.mem slot).base_addr) ∷ s.freed;
    }
    else s'

pub visit_pd : Kernel → ℕ → Sweep → Sweep
visit_pd k slot s =
    let s' = record s { pd_cur = some slot } in
    if (s.mem slot).present then visit_page k (entry_in k (s.mem slot) s.pt) s' else record s' {
      pages_covered = u64 (s.pages_covered + u64_sub 512 s.pt);
      pd = s.pd + 1;
      pt = 0;
      pt_mine = true;
    }

pub visit_pdp : Kernel → ℕ → Sweep → Sweep
visit_pdp k slot s =
    let s' = record s { pdp_cur = some slot } in
    if (s.mem slot).present then visit_pd k (entry_in k (s.mem slot) s.pd) s' else record s' {
      pages_covered = u64 (s.pages_covered + u64_sub 512 s.pd * u64_sub 512 s.pt);
      pdp = s.pdp + 1;
      pd = 0;
      pd_mine = true;
      pt = 0;
      pt_mine = true;
    }

-- The turn up to the label `cascade`. The pointer to the first level never moves.
pub visit : Kernel → Sweep → Sweep
visit k s =
    if (s.mem s.pml_cur).present
    then visit_pdp k (entry_in k (s.mem s.pml_cur) s.pdp) s
    else record s {
      pages_covered =
          u64 (s.pages_covered + u64_sub 512 s.pdp * u64_sub 512 s.pd * u64_sub 512 s.pt);
      pml = s.pml + 1;
      pdp = 0;
      pdp_mine = true;
      pd = 0;
      pd_mine = true;
      pt = 0;
      pt_mine = true;
    }

-- The label `cascade`: no index is set back to 0.
pub cascade : Sweep → Sweep
cascade s =
    let carry_pd = s.pt % 512 == 0 in
    let carry_pdp = carry_pd && (s.pd + 1) % 512 == 0 in
    let carry_pml = carry_pdp && (s.pdp + 1) % 512 == 0 in
    record s {
      pd = if carry_pd then s.pd + 1 else s.pd;
      pdp = if carry_pdp then s.pdp + 1 else s.pdp;
      pml = if carry_pml then s.pml + 1 else s.pml;
    }

-- Is one of `n` entries present? The pointer arithmetic scales the offset twice.
pub any_present : (ℕ → Entry) → ℕ → ℕ → ℕ → Bool
any_present mem base i zero = false
any_present mem base i (suc n) =
    (mem (base + i * sizeof_entry * sizeof_entry)).present || any_present mem base (i + 1) n

-- The table of `cur` is freed, and the entry that points to it emptied.
pub free_table : Option ℕ → ℕ → Sweep → Option Sweep
free_table none base s = none
free_table (some parent) base s =
    some (record s { mem = absent s.mem parent; freed = base ∷ s.freed })

-- One of the three tests after `cascade`, from the index before the turn and the one after it.
pub prune : ℕ → ℕ → Option ℕ → Option ℕ → Bool → Sweep → Option Sweep
prune index_old index cur parent mine s =
    if index == index_old + 1 || index == index_old
    then some s
    else if mine
    then free_table parent (elim cur [ none ↦ 0 | some c ↦ page_addr c ]) s
    else elim cur [
      | none ↦ none
      | some c ↦
          if any_present s.mem (page_addr c) 0 512
          then some s
          else free_table parent (page_addr c) s
    ]

infixl 5 ◌>>=◌
abbrev pub ◌>>=◌ : Option Sweep → (Sweep → Option Sweep) → Option Sweep
none >>= f = none
some s >>= f = f s

-- The three tests, after a turn from `old`: `none` where the kernel stops.
pub prune_tables : Sweep → Sweep → Option Sweep
prune_tables old s = prune old.pt s.pt s.pt_cur s.pd_cur s.pt_mine s >>= λ s₁.
    prune old.pd s₁.pd s₁.pd_cur s₁.pdp_cur s₁.pd_mine s₁ >>= λ s₂.
    prune old.pdp s₂.pdp s₂.pdp_cur (some s₂.pml_cur) s₂.pdp_mine s₂

-- One turn of the loop.
pub sweep_turn : Kernel → Sweep → Option Sweep
sweep_turn k s = prune_tables s (cascade (visit k s))

-- What the loop comes to.
pub data Swept : Type 0 where
  swept : Sweep → Swept
  oops : Swept
  out_of_fuel : Swept

-- `while(pages_covered <= num_pages)`
pub sweep : ℕ → Kernel → ℕ → Sweep → Swept
sweep zero k num_pages s = out_of_fuel
sweep (suc fuel) k num_pages s = elim (leb s.pages_covered num_pages) [
  | false ↦ swept s
  | true ↦ elim (sweep_turn k s) [ none ↦ oops | some s' ↦ sweep fuel k num_pages s' ]
]

-- `int num_pages = free_size/PAGE_SIZE_4KB`, as the comparison with an unsigned long takes it.
pub int_pages : ℕ → ℕ
int_pages free_size =
    let n = u32 (free_size / 4096) in if ltb n (2 ^ 31) then n else n + (2 ^ 64 - 2 ^ 32)

-- The second half of `petmem_free_vspace`, for a block of `free_size` bytes at `free_start`.
pub release_pages : ℕ → Kernel → Paging → ℕ → ℕ → Swept
release_pages fuel k s free_start free_size =
    sweep fuel k (int_pages free_size) (sweep_start k s free_start)
