-- ===== src/Vm/MemMap/Tests.antt =====
-- Runs of the memory map of VMproject/on_demand.c at concrete inputs, and its theorems there.
use cs.Prelude.{
  ℕ, ◌+◌, ◌*◌, ◌≤◌, ◌≡◌, refl, true, false, not, ◌&&◌, ◌||◌, some, [], ◌∷◌, arith, u64, u64_sub,
}
use cs.Vm.MemMap.{
  region_start, region_end, page_size, MemMap, init_process, alloc_vspace, free_region, free_vspace,
}
use cs.Vm.MemMap.Chain.{IsValid}
use cs.Vm.MemMap.Mapped.{is_mapped, within}
use cs.Vm.MemMap.Valid.{
  Reach, init, alloc, free, Reach-IsValid, alloc_vspace-is_mapped, free_region-is_mapped,
}
use cs.Vm.MemMap.RoundTrip.{regions, free_vspace-alloc_vspace}

abbrev fresh_map : MemMap
fresh_map = record {
  head_allocated = true;
  nodes = record { at = 1; start = region_start; size = 0x2000000000; allocated = false } ∷ [];
}

-- Two pages are taken.
abbrev one_block : MemMap
one_block = record {
  head_allocated = true;
  nodes =
      record { at = 1; start = 0x1000000000; size = 0x2000; allocated = true }
      ∷ record { at = 2; start = 0x1000002000; size = 0x1fffffe000; allocated = false }
      ∷ [];
}

-- They are given back; the node that is left is the second one.
abbrev freed_block : MemMap
freed_block = record {
  head_allocated = true;
  nodes = record { at = 2; start = region_start; size = 0x2000000000; allocated = false } ∷ [];
}

fresh_map_runs : init_process true 1 ≡ fresh_map
unfolding init_process u64
fresh_map_runs = refl

one_block_runs : alloc_vspace fresh_map 2 2 ≡ some (one_block, 0x1000000000)
unfolding alloc_vspace u64 u64_sub
one_block_runs = refl

freed_block_runs : free_region one_block 0x1000000000 ≡ some (freed_block, 0x1000000000, 0x2000)
unfolding free_region u64
freed_block_runs = refl

-- Pages of a request for none: both calls return the same address.
zero_pages_run :
    (alloc_vspace fresh_map 0 2
      ≡ some (
        record {
          head_allocated = true;
          nodes =
              record { at = 1; start = region_start; size = 0; allocated = true }
              ∷ record { at = 2; start = region_start; size = 0x2000000000; allocated = false }
              ∷ [];
        },
        region_start,
      ))
unfolding alloc_vspace u64 u64_sub
zero_pages_run = refl

fresh_map-IsValid : IsValid fresh_map
fresh_map-IsValid = (refl, refl, refl, (refl, refl))

one_block-IsValid : IsValid one_block
one_block-IsValid = (refl, refl, refl, (refl, refl, refl, (refl, refl)))

one_block-Reach : Reach one_block
unfolding init_process u64
one_block-Reach = alloc 2 2 (init true 1) one_block_runs

Reach-IsValid_example : IsValid (free_vspace one_block 0x1000000000)
Reach-IsValid_example = Reach-IsValid (free 0x1000000000 one_block-Reach)

alloc_vspace-is_mapped_example :
    (region_start ≤ 0x1000000000)
    × (0x1000000000 + page_size * 2 ≤ region_end)
    × ((a : ℕ) → within 0x1000000000 (page_size * 2) a ≡ true → is_mapped fresh_map a ≡ false)
    × ((a : ℕ)
        → is_mapped one_block a ≡ (is_mapped fresh_map a || within 0x1000000000 (page_size * 2) a))
alloc_vspace-is_mapped_example =
    alloc_vspace-is_mapped fresh_map one_block 2 2 0x1000000000 fresh_map-IsValid one_block_runs

free_region-is_mapped_example :
    (◌≡◌ {A = ℕ} 0x1000000000 0x1000000000)
    × ((a : ℕ)
        → is_mapped freed_block a ≡ (is_mapped one_block a && not (within 0x1000000000 0x2000 a)))
free_region-is_mapped_example =
    free_region-is_mapped one_block freed_block 0x1000000000 0x1000000000 0x2000 one_block-IsValid
      freed_block_runs

free_vspace-alloc_vspace_example :
    regions (free_vspace one_block 0x1000000000).nodes ≡ regions fresh_map.nodes
free_vspace-alloc_vspace_example =
    free_vspace-alloc_vspace fresh_map one_block 2 2 0x1000000000 fresh_map-IsValid (omega arith)
      (omega arith) one_block_runs
