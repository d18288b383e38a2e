-- ===== src/Vm/Format/Legacy.antt =====
-- VMproject/pgtables.h: the structures of 32-bit paging and of its physical address extension, and the
-- error code of a page fault.
use cs.Prelude.{[], ◌∷◌}
use cs.Vm.Format.{
  Layout, accessed, avail, cache_disable, dirty, global_page, ifetch, large_page, one,
  page_base_addr, pat, pd_base_addr, present, pt_base_addr, pte_attr, reserved, rsvd, rsvd2, rsvd3,
  rsvd_access, user, user_page, vmm_info, writable, write, write_through,
}

abbrev pub gen_pt : Layout
gen_pt = (present, 1) ∷ (writable, 1) ∷ (user_page, 1) ∷ []

abbrev pub pde32 : Layout
pde32 =
    (present, 1)
    ∷ (writable, 1)
    ∷ (user_page, 1)
    ∷ (write_through, 1)
    ∷ (cache_disable, 1)
    ∷ (accessed, 1)
    ∷ (reserved, 1)
    ∷ (large_page, 1)
    ∷ (global_page, 1)
    ∷ (vmm_info, 3)
    ∷ (pt_base_addr, 20)
    ∷ []

abbrev pub pde32_4mb : Layout
pde32_4mb =
    (present, 1)
    ∷ (writable, 1)
    ∷ (user_page, 1)
    ∷ (write_through, 1)
    ∷ (cache_disable, 1)
    ∷ (accessed, 1)
    ∷ (dirty, 1)
    ∷ (large_page, 1)
    ∷ (global_page, 1)
    ∷ (vmm_info, 3)
    ∷ (pat, 1)
    ∷ (rsvd, 9)
    ∷ (page_base_addr, 10)
    ∷ []

abbrev pub pte32 : Layout
pte32 =
    (present, 1)
    ∷ (writable, 1)
    ∷ (user_page, 1)
    ∷ (write_through, 1)
    ∷ (cache_disable, 1)
    ∷ (accessed, 1)
    ∷ (dirty, 1)
    ∷ (pte_attr, 1)
    ∷ (global_page, 1)
    ∷ (vmm_info, 3)
    ∷ (page_base_addr, 20)
    ∷ []

abbrev pub pdpe32pae : Layout
pdpe32pae =
    (present, 1)
    ∷ (rsvd, 2)
    ∷ (write_through, 1)
    ∷ (cache_disable, 1)
    ∷ (accessed, 1)
    ∷ (avail, 1)
    ∷ (rsvd2, 2)
    ∷ (vmm_info, 3)
    ∷ (pd_base_addr, 24)
    ∷ (rsvd3, 28)
    ∷ []

abbrev pub pde32pae : Layout
pde32pae =
    (present, 1)
    ∷ (writable, 1)
    ∷ (user_page, 1)
    ∷ (write_through, 1)
    ∷ (cache_disable, 1)
    ∷ (accessed, 1)
    ∷ (avail, 1)
    ∷ (large_page, 1)
    ∷ (global_page, 1)
    ∷ (vmm_info, 3)
    ∷ (pt_base_addr, 24)
    ∷ (rsvd, 28)
    ∷ []

abbrev pub pde32pae_2mb : Layout
pde32pae_2mb =
    (present, 1)
    ∷ (writable, 1)
    ∷ (user_page, 1)
    ∷ (write_through, 1)
    ∷ (cache_disable, 1)
    ∷ (accessed, 1)
    ∷ (dirty, 1)
    ∷ (one, 1)
    ∷ (global_page, 1)
    ∷ (vmm_info, 3)
    ∷ (pat, 1)
    ∷ (rsvd, 8)
    ∷ (page_base_addr, 15)
    ∷ (rsvd2, 28)
    ∷ []

abbrev pub pte32pae : Layout
pte32pae =
    (present, 1)
    ∷ (writable, 1)
    ∷ (user_page, 1)
    ∷ (write_through, 1)
    ∷ (cache_disable, 1)
    ∷ (accessed, 1)
    ∷ (dirty, 1)
    ∷ (pte_attr, 1)
    ∷ (global_page, 1)
    ∷ (vmm_info, 3)
    ∷ (page_base_addr, 24)
    ∷ (rsvd, 28)
    ∷ []

abbrev pub pf_error_code : Layout
pf_error_code =
    (present, 1) ∷ (write, 1) ∷ (user, 1) ∷ (rsvd_access, 1) ∷ (ifetch, 1) ∷ (rsvd, 27) ∷ []
