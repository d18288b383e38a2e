-- ===== src/Vm/Ioctl/Tests.antt =====
-- Runs of the ioctl LAZY_ALLOC of VMproject/main.c, and its theorem there.
use cs.Prelude.{ℕ, ◌+◌, ◌-◌, ◌^◌, ◌≤◌, ◌<◌, ◌≡◌, refl, true, false, [], ◌∷◌, arith, u64, u64_sub}
use cs.Vm.MemMap.{region_start, region_end, MemMap, init_process, alloc_vspace}
use cs.Vm.MemMap.Mapped.{is_mapped, within}
use cs.Vm.MemMap.Valid.{init, Reach-IsValid}
use cs.Vm.Ioctl.{rounded_size, num_pages, answered, lazy_alloc}
use cs.Vm.Ioctl.Rounding.{lazy_alloc-is_mapped}

abbrev fresh : MemMap
fresh = init_process true 1

-- 5000 bytes take two pages.
abbrev after_5000 : MemMap
after_5000 = record {
  head_allocated = true;
  nodes =
      record { at = 1; start = 0x1000000000; size = 0x2000; allocated = true }
      ∷ record { at = 2; start = 0x1000002000; size = 0x1fffffe000; allocated = false }
      ∷ [];
}

allocates_5000 : lazy_alloc true fresh 5000 2 ≡ (after_5000, answered 0x1000000000)
unfolding lazy_alloc rounded_size num_pages init_process alloc_vspace u64 u64_sub
allocates_5000 = refl

-- A size near 2 ^ 64 wraps to no page at all, and is answered like a success.
wraps_to_no_page : num_pages (2 ^ 64 - 1) ≡ 0
unfolding rounded_size num_pages u64
wraps_to_no_page = refl

lazy_alloc-is_mapped_example :
    ((a : ℕ)
      → within 0x1000000000 5000 a ≡ true
      → (region_start ≤ a)
        × (a < region_end)
        × (is_mapped fresh a ≡ false)
        × (is_mapped after_5000 a ≡ true))
    × ((a : ℕ)
        → within 0x1000000000 (5000 + 4095) a ≡ false
        → is_mapped after_5000 a ≡ is_mapped fresh a)
lazy_alloc-is_mapped_example =
    lazy_alloc-is_mapped true fresh after_5000 5000 2 0x1000000000 (Reach-IsValid (init true 1))
      (omega arith) allocates_5000
