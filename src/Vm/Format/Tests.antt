-- ===== src/Vm/Format/Tests.antt =====
-- VMproject/pgtables.h: the laws of the structures at concrete words, and the numbers of their bits.
use cs.Prelude.{ℕ, ◌+◌, ◌*◌, ◌%◌, ◌^◌, ◌<◌, ◌≡◌, refl, if◌then◌else◌, ◌==◌, [], ◌∷◌, map, u32}
use cs.Vm.PageTable.{
  Kernel, fill, clear_accessed, pml_index, pdp_index, pd_index, pt_index, page_offset,
}
use cs.Vm.Release.{absent}
use cs.Vm.Format.{present, accessed, total}
use cs.Vm.Format.Legacy.{
  gen_pt, pde32, pde32_4mb, pte32, pdpe32pae, pde32pae, pde32pae_2mb, pte32pae, pf_error_code,
}
use cs.Vm.Format.Long.{pml4e64, pdpe64, pdpe64_1gb, pde64, pde64_2mb, pte64}
use cs.Vm.Format.View.{pt_level, point_to}
use cs.Vm.Format.Store.{clear, entries, store_word, store-fields}
use cs.Vm.Format.Address.{
  pde32_index, pte32_index, pdpe32pae_index, pde32pae_index, pte32pae_index, page_size_4kb,
  page_size_2mb, page_size_4mb, page_size_1gb, max_pde32_entries, max_pte32_entries,
  max_pdpe32pae_entries, max_pde32pae_entries, max_pte32pae_entries, max_pml4e64_entries,
  max_pdpe64_entries, max_pde64_entries, max_pte64_entries, index-address,
}

-- The structures of 32 bits and those of 64 bits are as long as they should be.
words_32 : map total (pde32 ∷ pde32_4mb ∷ pte32 ∷ pf_error_code ∷ []) ≡ 32 ∷ 32 ∷ 32 ∷ 32 ∷ []
unfolding total
words_32 = refl

words_64 :
    map total (pdpe32pae ∷ pde32pae ∷ pde32pae_2mb ∷ pte32pae ∷ pml4e64 ∷ pdpe64 ∷ [])
    ≡ 64 ∷ 64 ∷ 64 ∷ 64 ∷ 64 ∷ 64 ∷ []
unfolding total
words_64 = refl

words_64_more : map total (pdpe64_1gb ∷ pde64 ∷ pde64_2mb ∷ pte64 ∷ []) ≡ 64 ∷ 64 ∷ 64 ∷ 64 ∷ []
unfolding total
words_64_more = refl

gen_pt_bits : total gen_pt ≡ 3
unfolding total
gen_pt_bits = refl

-- A base address of 41 bits loses its highest one.
abbrev flat : Kernel
flat = record { va = λ a. a; pa = λ a. a; cr3 = 0x1000 }

abbrev one_word : ℕ → ℕ
one_word a = if a == 0x5008 then 0x8000000000000020 else 0

store-fields_example :
    ((fill flat 0x5008 0x7000 (record { mem = entries one_word; pages = [] })).mem 0x5008
      ≡ entries (store_word one_word 0x5008 (point_to pt_level 0x7000 (one_word 0x5008))) 0x5008)
    × ((clear_accessed 0x5008 (record { mem = entries one_word; pages = [] })).mem 0x5008
        ≡ entries (store_word one_word 0x5008 (clear pt_level accessed (one_word 0x5008))) 0x5008)
    × (absent (entries one_word) 0x5008 0x5008
        ≡ entries (store_word one_word 0x5008 (clear pt_level present (one_word 0x5008))) 0x5008)
store-fields_example = store-fields flat pt_level 0x5008 0x7000 one_word [] 0x5008

index-address_example :
    ((pde32_index 0x100000c123 < max_pde32_entries)
      × (pte32_index 0x100000c123 < max_pte32_entries)
      × (pde32_index 0x100000c123 * page_size_4mb
            + pte32_index 0x100000c123 * page_size_4kb
            + page_offset 0x100000c123
          ≡ u32 0x100000c123))
    × ((pdpe32pae_index 0x100000c123 < max_pdpe32pae_entries)
        × (pde32pae_index 0x100000c123 < max_pde32pae_entries)
        × (pte32pae_index 0x100000c123 < max_pte32pae_entries)
        × (pdpe32pae_index 0x100000c123 * page_size_1gb
              + pde32pae_index 0x100000c123 * page_size_2mb
              + pte32pae_index 0x100000c123 * page_size_4kb
              + page_offset 0x100000c123
            ≡ u32 0x100000c123))
    × ((pml_index 0x100000c123 < max_pml4e64_entries)
        × (pdp_index 0x100000c123 < max_pdpe64_entries)
        × (pd_index 0x100000c123 < max_pde64_entries)
        × (pt_index 0x100000c123 < max_pte64_entries)
        × (pml_index 0x100000c123 * 2 ^ 39
              + pdp_index 0x100000c123 * page_size_1gb
              + pd_index 0x100000c123 * page_size_2mb
              + pt_index 0x100000c123 * page_size_4kb
              + page_offset 0x100000c123
            ≡ 0x100000c123 % 2 ^ 48))
index-address_example = index-address 0x100000c123
