-- ===== src/Vm/PageTable/Tests.antt =====
-- Runs of the page table walk of VMproject/on_demand.c at concrete inputs, and its theorems there.
use mathlib.Core.Bool.{false≢true}
use cs.Prelude.{ℕ, ◌≡◌, refl, true, false, some, [], ◌∷◌, arith, u64}
use cs.Vm.MemMap.{MemMap, find_address, find_node}
use cs.Vm.PageTable.{
  Kernel, Paging, zero_entry, walk_page_table, handle_pagefault, descend, clear_accessed, last_slot,
  map_page, zero_page,
}
use cs.Vm.PageTable.Mmu.{translate}
use cs.Vm.PageTable.Own.{Own, KeepsPages}
use cs.Vm.PageTable.Fault.{handle_pagefault-refuses, handle_pagefault-translates}

-- Physical and virtual addresses are the same; the root table is at 0x1000.
abbrev flat : Kernel
flat = record { va = λ x. x; pa = λ x. x; cr3 = 0x1000 }

abbrev empty_tables : Paging
empty_tables = record { mem = λ _. zero_entry; pages = 0x2000 ∷ 0x3000 ∷ 0x4000 ∷ 0x5000 ∷ [] }

abbrev one_page : MemMap
one_page = record {
  head_allocated = true;
  nodes = record { at = 1; start = 0x1000000000; size = 0x1000; allocated = true } ∷ [];
}

flat-KeepsPages : KeepsPages flat
flat-KeepsPages x h = h

empty_tables-Own : Own flat empty_tables
empty_tables-Own = record {
  pages = omega arith;
  unused = (
    λ a h. absurd (false≢true h),
    (
      λ a h. absurd (false≢true h),
      (λ a h. absurd (false≢true h), (λ a h. absurd (false≢true h), tt)),
    ),
  );
  distinct = omega arith;
  root = omega arith;
}

-- Three tables are made, and the slot of entry 5 of the last one is returned.
walk_runs : (walk_page_table flat 0x1000005123 true empty_tables).1 ≡ some 0x4028
unfolding walk_page_table descend clear_accessed last_slot zero_page u64
walk_runs = refl

fault_runs :
    translate flat (handle_pagefault flat one_page 0x1000000123 1 empty_tables).0.mem 0x1000000123
    ≡ some 0x5123
unfolding handle_pagefault map_page walk_page_table descend clear_accessed last_slot zero_page u64
    find_address find_node
fault_runs = refl

unmapped_refused :
    handle_pagefault flat one_page 0x1000005123 1 empty_tables ≡ (empty_tables, false)
unfolding find_address find_node u64
unmapped_refused = handle_pagefault-refuses flat one_page 0x1000005123 1 empty_tables refl

handle_pagefault-translates_example :
    let r = handle_pagefault flat one_page 0x1000000123 1 empty_tables in
    (r.1 ≡ true)
    × ((p : ℕ) × (translate flat r.0.mem 0x1000000123 ≡ some p))
    × ((b p : ℕ) → translate flat empty_tables.mem b ≡ some p → translate flat r.0.mem b ≡ some p)
    × Own flat r.0
unfolding find_address find_node u64
handle_pagefault-translates_example =
    handle_pagefault-translates flat one_page 0x1000000123 1 empty_tables flat-KeepsPages
      empty_tables-Own refl (omega arith) (omega arith) refl
