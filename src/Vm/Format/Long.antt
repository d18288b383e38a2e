-- ===== src/Vm/Format/Long.antt =====
-- VMproject/pgtables.h: the structures of long mode.
use cs.Prelude.{[], ◌∷◌}
use cs.Vm.Format.{
  Layout, accessed, avail, available, cache_disable, dirty, global_page, large_page, no_execute,
  page_base_addr, pat, pd_base_addr, pdp_base_addr, present, pt_base_addr, pte_attr, reserved, rsvd,
  user_page, vmm_info, writable, write_through, zero_bits,
}

abbrev pub pml4e64 : Layout
pml4e64 =
    (present, 1)
    ∷ (writable, 1)
    ∷ (user_page, 1)
    ∷ (write_through, 1)
    ∷ (cache_disable, 1)
    ∷ (accessed, 1)
    ∷ (reserved, 1)
    ∷ (zero_bits, 2)
    ∷ (vmm_info, 3)
    ∷ (pdp_base_addr, 40)
    ∷ (available, 11)
    ∷ (no_execute, 1)
    ∷ []

abbrev pub pdpe64 : Layout
pdpe64 =
    (present, 1)
    ∷ (writable, 1)
    ∷ (user_page, 1)
    ∷ (write_through, 1)
    ∷ (cache_disable, 1)
    ∷ (accessed, 1)
    ∷ (avail, 1)
    ∷ (large_page, 1)
    ∷ (zero_bits, 1)
    ∷ (vmm_info, 3)
    ∷ (pd_base_addr, 40)
    ∷ (available, 11)
    ∷ (no_execute, 1)
    ∷ []

abbrev pub pdpe64_1gb : Layout
pdpe64_1gb =
    (present, 1)
    ∷ (writable, 1)
    ∷ (user_page, 1)
    ∷ (write_through, 1)
    ∷ (cache_disable, 1)
    ∷ (accessed, 1)
    ∷ (dirty, 1)
    ∷ (large_page, 1)
    ∷ (global_page, 1)
    ∷ (vmm_info, 3)
    ∷ (pat, 1)
    ∷ (rsvd, 17)
    ∷ (page_base_addr, 22)
    ∷ (available, 11)
    ∷ (no_execute, 1)
    ∷ []

abbrev pub pde64 : Layout
pde64 =
    (present, 1)
    ∷ (writable, 1)
    ∷ (user_page, 1)
    ∷ (write_through, 1)
    ∷ (cache_disable, 1)
    ∷ (accessed, 1)
    ∷ (avail, 1)
    ∷ (large_page, 1)
    ∷ (global_page, 1)
    ∷ (vmm_info, 3)
    ∷ (pt_base_addr, 40)
    ∷ (available, 11)
    ∷ (no_execute, 1)
    ∷ []

abbrev pub pde64_2mb : Layout
pde64_2mb =
    (present, 1)
    ∷ (writable, 1)
    ∷ (user_page, 1)
    ∷ (write_through, 1)
    ∷ (cache_disable, 1)
    ∷ (accessed, 1)
    ∷ (dirty, 1)
    ∷ (large_page, 1)
    ∷ (global_page, 1)
    ∷ (vmm_info, 3)
    ∷ (pat, 1)
    ∷ (rsvd, 8)
    ∷ (page_base_addr, 31)
    ∷ (available, 11)
    ∷ (no_execute, 1)
    ∷ []

abbrev pub pte64 : Layout
pte64 =
    (present, 1)
    ∷ (writable, 1)
    ∷ (user_page, 1)
    ∷ (write_through, 1)
    ∷ (cache_disable, 1)
    ∷ (accessed, 1)
    ∷ (dirty, 1)
    ∷ (pte_attr, 1)
    ∷ (global_page, 1)
    ∷ (vmm_info, 3)
    ∷ (page_base_addr, 40)
    ∷ (available, 11)
    ∷ (no_execute, 1)
    ∷ []
