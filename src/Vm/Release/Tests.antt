-- ===== src/Vm/Release/Tests.antt =====
-- VMproject/on_demand.c: runs of the loop of `petmem_free_vspace`.
use cs.Prelude.{ℕ, ◌≡◌, refl, true, [], if◌then◌else◌, ◌==◌, u64, inl, arith}
use cs.Vm.PageTable.{Entry, zero_entry, Kernel, Paging}
use cs.Vm.Release.{Sweep, sweep_start, swept, oops, release_pages}
use cs.Vm.Release.Leaf.{Leads, Cleared}
use cs.Vm.Release.Block.{release_pages-Cleared, release_pages-oops}

abbrev flat : Kernel
flat = record { va = λ a. a; pa = λ a. a; cr3 = 4096 }

abbrev to_page : ℕ → Entry
to_page n = record zero_entry { present = true; base_addr = n }

-- One table of each level at 4096, 8192, 12288 and 16384; the entries 5, 6 and 7 of the last one
-- are present.
abbrev tables : ℕ → Entry
tables a =
    if a == 4096
    then to_page 2
    else if a == 8192
    then to_page 3
    else if a == 12288
    then to_page 4
    else if a == 16424
    then to_page 20
    else if a == 16432
    then to_page 21
    else if a == 16440
    then to_page 22
    else zero_entry

abbrev before : Paging
before = record { mem = tables; pages = [] }

before-Leads : Leads flat (sweep_start flat before 20480) 16384
unfolding sweep_start u64
before-Leads = record {
  pdp_entry = 8192;
  pd_entry = 12288;
  pml_present = refl;
  pdp_at = refl;
  pdp_present = refl;
  pd_at = refl;
  pd_present = refl;
  table = refl;
  out = (inl (omega arith), inl (omega arith), inl (omega arith));
}

release_pages-Cleared_example :
    (s' : Sweep) × (release_pages 9 flat before 20480 4096 ≡ swept s')
    × Cleared flat 16384 5 2 (sweep_start flat before 20480) s'
release_pages-Cleared_example =
    release_pages-Cleared 9 flat before 20480 4096 16384 before-Leads (omega arith) (omega arith)

abbrev one_table : Paging
one_table = record { mem = λ a. if a == 4096 then to_page 2 else zero_entry; pages = [] }

release_pages-oops_example : release_pages 9 flat one_table 20480 4096 ≡ oops
unfolding u64
release_pages-oops_example =
    release_pages-oops 8 flat one_table 20480 4096 refl refl (λ e. omega (arith, e))
