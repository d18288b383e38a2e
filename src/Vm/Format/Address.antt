-- ===== src/Vm/Format/Address.antt =====
-- VMproject/pgtables.h: the macros that take addresses apart, for the three paging modes and the four
-- sizes of pages. Those of long mode that VMproject/on_demand.c uses are in Vm/PageTable.
use cs.Prelude.{ℕ, ◌+◌, ◌*◌, ◌/◌, ◌%◌, ◌^◌, ◌<◌, ◌≡◌, arith, u32, u64}
use cs.Vm.PageTable.{
  pml_index, pdp_index, pd_index, pt_index, page_offset, page_addr, page_to_base_addr,
  base_to_page_addr,
}

abbrev pub max_pde32_entries : ℕ
max_pde32_entries = 1024

abbrev pub max_pte32_entries : ℕ
max_pte32_entries = 1024

abbrev pub max_pdpe32pae_entries : ℕ
max_pdpe32pae_entries = 4

abbrev pub max_pde32pae_entries : ℕ
max_pde32pae_entries = 512

abbrev pub max_pte32pae_entries : ℕ
max_pte32pae_entries = 512

abbrev pub max_pml4e64_entries : ℕ
max_pml4e64_entries = 512

abbrev pub max_pdpe64_entries : ℕ
max_pdpe64_entries = 512

abbrev pub max_pde64_entries : ℕ
max_pde64_entries = 512

abbrev pub max_pte64_entries : ℕ
max_pte64_entries = 512

-- `((u32)x >> n) & mask`, where the mask has its low bits set.
abbrev pub pde32_index : ℕ → ℕ
pde32_index x = u32 x / 2 ^ 22 % 1024

abbrev pub pte32_index : ℕ → ℕ
pte32_index x = u32 x / 2 ^ 12 % 1024

abbrev pub pdpe32pae_index : ℕ → ℕ
pdpe32pae_index x = u32 x / 2 ^ 30 % 4

abbrev pub pde32pae_index : ℕ → ℕ
pde32pae_index x = u32 x / 2 ^ 21 % 512

abbrev pub pte32pae_index : ℕ → ℕ
pte32pae_index x = u32 x / 2 ^ 12 % 512

abbrev pub page_to_base_addr_2mb : ℕ → ℕ
page_to_base_addr_2mb x = x / 2 ^ 21

abbrev pub base_to_page_addr_2mb : ℕ → ℕ
base_to_page_addr_2mb x = u64 (x * 2 ^ 21)

abbrev pub page_offset_2mb : ℕ → ℕ
page_offset_2mb x = x % 2 ^ 21

abbrev pub page_addr_2mb : ℕ → ℕ
page_addr_2mb x = x / 2 ^ 21 * 2 ^ 21

abbrev pub page_to_base_addr_4mb : ℕ → ℕ
page_to_base_addr_4mb x = x / 2 ^ 22

abbrev pub base_to_page_addr_4mb : ℕ → ℕ
base_to_page_addr_4mb x = u64 (x * 2 ^ 22)

abbrev pub page_offset_4mb : ℕ → ℕ
page_offset_4mb x = x % 2 ^ 22

abbrev pub page_addr_4mb : ℕ → ℕ
page_addr_4mb x = x / 2 ^ 22 * 2 ^ 22

abbrev pub page_to_base_addr_1gb : ℕ → ℕ
page_to_base_addr_1gb x = x / 2 ^ 30

abbrev pub base_to_page_addr_1gb : ℕ → ℕ
base_to_page_addr_1gb x = u64 (x * 2 ^ 30)

abbrev pub page_offset_1gb : ℕ → ℕ
page_offset_1gb x = x % 2 ^ 30

abbrev pub page_addr_1gb : ℕ → ℕ
page_addr_1gb x = x / 2 ^ 30 * 2 ^ 30

abbrev pub page_size_4kb : ℕ
page_size_4kb = 4096

abbrev pub page_size_2mb : ℕ
page_size_2mb = 4096 * 512

abbrev pub page_size_4mb : ℕ
page_size_4mb = 4096 * 1024

abbrev pub page_size_1gb : ℕ
page_size_1gb = 0x40000000

-- The masks 0xfffff000 and 0xffffffe0.
abbrev pub cr3_to_pde32_pa : ℕ → ℕ
cr3_to_pde32_pa x = u32 x / 2 ^ 12 * 2 ^ 12

abbrev pub cr3_to_pdpe32pae_pa : ℕ → ℕ
cr3_to_pdpe32pae_pa x = u32 x / 2 ^ 5 * 2 ^ 5

-- Each index of an address is below the number of entries of its table, in every mode; the indices
-- and the offset in the page give back the address, as far as the mode reads it.
pub index-address :
    (x : ℕ)
    → ((pde32_index x < max_pde32_entries)
        × (pte32_index x < max_pte32_entries)
        × (pde32_index x * page_size_4mb + pte32_index x * page_size_4kb + page_offset x ≡ u32 x))
      × ((pdpe32pae_index x < max_pdpe32pae_entries)
          × (pde32pae_index x < max_pde32pae_entries)
          × (pte32pae_index x < max_pte32pae_entries)
          × (pdpe32pae_index x * page_size_1gb
                + pde32pae_index x * page_size_2mb
                + pte32pae_index x * page_size_4kb
                + page_offset x
              ≡ u32 x))
      × ((pml_index x < max_pml4e64_entries)
          × (pdp_index x < max_pdpe64_entries)
          × (pd_index x < max_pde64_entries)
          × (pt_index x < max_pte64_entries)
          × (pml_index x * 2 ^ 39
                + pdp_index x * page_size_1gb
                + pd_index x * page_size_2mb
                + pt_index x * page_size_4kb
                + page_offset x
              ≡ x % 2 ^ 48))
unfolding u32
index-address x = (
  (omega arith, omega arith, omega arith),
  (omega arith, omega arith, omega arith, omega arith),
  (omega arith, omega arith, omega arith, omega arith, omega arith),
)

-- For a page of any size, an address is the address of its page plus its offset, which is below the
-- size of the page, and the number of the page gives back the address of the page.
page-address :
    (x : ℕ)
    → x < 2 ^ 64
    → ((page_addr x + page_offset x ≡ x)
        × (page_offset x < page_size_4kb)
        × (base_to_page_addr (page_to_base_addr x) ≡ page_addr x))
      × ((page_addr_2mb x + page_offset_2mb x ≡ x)
          × (page_offset_2mb x < page_size_2mb)
          × (base_to_page_addr_2mb (page_to_base_addr_2mb x) ≡ page_addr_2mb x))
      × ((page_addr_4mb x + page_offset_4mb x ≡ x)
          × (page_offset_4mb x < page_size_4mb)
          × (base_to_page_addr_4mb (page_to_base_addr_4mb x) ≡ page_addr_4mb x))
      × ((page_addr_1gb x + page_offset_1gb x ≡ x)
          × (page_offset_1gb x < page_size_1gb)
          × (base_to_page_addr_1gb (page_to_base_addr_1gb x) ≡ page_addr_1gb x))
unfolding u64
page-address x h = (
  (omega arith, omega arith, omega arith),
  (omega arith, omega arith, omega arith),
  (omega arith, omega arith, omega arith),
  (omega arith, omega arith, omega arith),
)
