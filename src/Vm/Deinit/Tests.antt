-- ===== src/Vm/Deinit/Tests.antt =====
-- Runs of `petmem_deinit_process` of VMproject/on_demand.c.
use cs.Prelude.{ℕ, ◌≡◌, ◌⊎◌, refl, true, false, [], ◌∷◌, ◌==◌, if◌then◌else◌, arith}
use cs.Vm.PageTable.{Entry, zero_entry, Kernel, Paging}
use cs.Vm.MemMap.{region_start, MemMap}
use cs.Vm.Deinit.{
  done, fault, out_of_fuel, list_del, node_at, deinit_loop, deinit_step, deinit_process,
}
use cs.Vm.Deinit.Cases.{any_allocated, deinit_process-cases}

-- Two pages are taken.
abbrev one_block : MemMap
one_block = record {
  head_allocated = true;
  nodes =
      record { at = 1; start = region_start; size = 0x2000; allocated = true }
      ∷ record { at = 2; start = 0x1000002000; size = 0x1fffffe000; allocated = false }
      ∷ [];
}

abbrev fresh_map : MemMap
fresh_map = record {
  head_allocated = true;
  nodes = record { at = 1; start = region_start; size = 0x2000000000; allocated = false } ∷ [];
}

abbrev flat : Kernel
flat = record { va = λ a. a; pa = λ a. a; cr3 = 4096 }

abbrev to_page : ℕ → Entry
to_page n = record zero_entry { present = true; base_addr = n }

-- One table of each level at 4096, 8192, 12288 and 16384, with the two pages of the block.
abbrev tables : Paging
tables = record {
  mem = λ a.
      if a == 4096
      then to_page 2
      else if a == 8704
      then to_page 3
      else if a == 12288
      then to_page 4
      else if a == 16384
      then to_page 20
      else if a == 16392
      then to_page 21
      else zero_entry;
  pages = [];
}

fresh_ends : deinit_process 9 flat fresh_map tables ≡ done (record fresh_map { nodes = [] }) tables
unfolding deinit_process deinit_loop deinit_step node_at list_del
fresh_ends = refl

deinit_process-cases_example :
    ((any_allocated one_block.nodes ≡ false)
      × (deinit_process 9 flat one_block tables ≡ done (record one_block { nodes = [] }) tables))
    ⊎ ((any_allocated one_block.nodes ≡ true)
        × ((deinit_process 9 flat one_block tables ≡ fault)
            ⊎ (deinit_process 9 flat one_block tables ≡ out_of_fuel)))
deinit_process-cases_example =
    deinit_process-cases 9 flat one_block tables
      (refl, refl, refl, (refl, refl, refl, (refl, refl))) (omega arith)
