-- ===== src/Vm/Device/Tests.antt =====
-- Runs of the calls of VMproject/main.c, and the theorem on them there.
use cs.Prelude.{◌≡◌, refl, true, false, none, some, [], ◌∷◌, u64, u64_sub}
use cs.Vm.MemMap.{init_process, alloc_vspace}
use cs.Vm.MemMap.Chain.{IsValid}
use cs.Vm.PageTable.{Kernel, zero_entry}
use cs.Vm.Pool.{Buddy, Arch, fine}
use cs.Vm.Ioctl.{rounded_size, num_pages, lazy_alloc}
use cs.Vm.Device.{
  Device, Request, returns, ok, efault, command, run_command, petmem_ioctl, petmem_open,
}
use cs.Vm.Device.Session.{opened, called, Session-IsValid}

-- An allocator that makes no pool.
abbrev no_pools : Buddy Unit
no_pools = record {
  buddy_init = λ _ _ _. none;
  buddy_alloc = λ p _. some (p, 0);
  buddy_free = λ p _ _. some p;
  base_addr = λ _. 0;
  pool_order = λ _. 0;
}

abbrev no_arch : Arch
no_arch = record { va = λ x. x; pa = λ x. x; fls = λ _. 0; get_order = λ _. 0 }

abbrev flat : Kernel
flat = record { va = λ x. x; pa = λ x. x; cr3 = 0x1000 }

abbrev new_file : Device Unit
new_file = petmem_open true 1 (record { mem = λ _. zero_entry; pages = [] }) []

-- LAZY_ALLOC of 5000 bytes.
abbrev alloc_5000 : Request
alloc_5000 = record {
  arg = 0;
  copied_in = true;
  copied_out = true;
  new_map = 2;
  base_addr = 0;
  pages = 0;
  size = 5000;
  fault_addr = 0;
  error_code = 0;
}

abbrev with_5000 : Device Unit
with_5000 = record {
  map = record {
    head_allocated = true;
    nodes =
        record { at = 1; start = 0x1000000000; size = 0x2000; allocated = true }
        ∷ record { at = 2; start = 0x1000002000; size = 0x1fffffe000; allocated = false }
        ∷ [];
  };
  paging = record { mem = λ _. zero_entry; pages = [] };
  pools = [];
}

allocates :
    petmem_ioctl no_pools no_arch flat 0 30 new_file alloc_5000
    ≡ fine (with_5000, record { code = ok; addr = some 0x1000000000 })
unfolding petmem_ioctl run_command command petmem_open lazy_alloc rounded_size num_pages
    init_process alloc_vspace u64 u64_sub
allocates = refl

-- An argument that cannot be copied changes nothing.
uncopied :
    petmem_ioctl no_pools no_arch flat 0 50 with_5000 (record alloc_5000 { copied_in = false })
    ≡ fine (with_5000, returns efault)
unfolding petmem_ioctl run_command command
uncopied = refl

Session-IsValid_example : IsValid with_5000.map
Session-IsValid_example = Session-IsValid no_pools no_arch flat (
    called 0 30 alloc_5000 (opened true 1 (record { mem = λ _. zero_entry; pages = [] }) [])
      allocates)
