-- ===== src/Vm/Harness/Tests.antt =====
-- Runs of VMproject/user/harness.c, and its theorems there.
use mathlib.Core.Bool.{false≢true}
use cs.Prelude.{
  ℕ, ◌≡◌, refl, true, false, none, some, [], ◌∷◌, ◌==◌, if◌then◌else◌, arith, u32, u64, u64_sub,
}
use cs.Vm.MemMap.{MemMap, init_process, alloc_vspace}
use cs.Vm.MemMap.Valid.{init, Reach-IsValid}
use cs.Vm.PageTable.{Entry, Kernel, Paging, zero_entry}
use cs.Vm.PageTable.Mmu.{translate}
use cs.Vm.PageTable.Own.{Own, KeepsPages}
use cs.Vm.Pool.{Buddy, Arch, fine}
use cs.Vm.Ioctl.{rounded_size, num_pages, lazy_alloc}
use cs.Vm.Device.{Device, command, run_command, petmem_ioctl}
use cs.Vm.Harness.{Library, init_petmem, Env, sigsegv, goes_on, pet_malloc, segv_handler}
use cs.Vm.Harness.Touch.{pet_malloc-segv_handler}

abbrev zeroed : Library ℕ ℕ
zeroed = record { fd = some 0; dfl_segv_action = 1; segv_action = 2 }

-- No device: the handler is set all the same, and -1 is returned.
no_device :
    init_petmem 7 none zeroed
    ≡ (record { fd = none; dfl_segv_action = 2; segv_action = 7 }, 0xffffffff)
unfolding init_petmem
no_device = refl

abbrev no_pools : Buddy Unit
no_pools = record {
  buddy_init = λ _ _ _. none;
  buddy_alloc = λ p _. some (p, 0);
  buddy_free = λ p _ _. some p;
  base_addr = λ _. 0;
  pool_order = λ _. 0;
}

abbrev no_arch : Arch
no_arch = record { va = λ x. x; pa = λ x. x; fls = λ _. 0; get_order = λ _. 0 }

abbrev flat : Kernel
flat = record { va = λ x. x; pa = λ x. x; cr3 = 0x1000 }

abbrev copies : Env
copies = record { copied_in = true; copied_out = true; new_map = 2 }

abbrev fresh : MemMap
fresh = init_process true 1

abbrev after_5000 : MemMap
after_5000 = record {
  head_allocated = true;
  nodes =
      record { at = 1; start = 0x1000000000; size = 0x2000; allocated = true }
      ∷ record { at = 2; start = 0x1000002000; size = 0x1fffffe000; allocated = false }
      ∷ [];
}

abbrev empty_tables : Paging
empty_tables = record { mem = λ _. zero_entry; pages = 0x2000 ∷ 0x3000 ∷ 0x4000 ∷ 0x5000 ∷ [] }

flat-KeepsPages : KeepsPages flat
flat-KeepsPages x h = h

empty_tables-Own : Own flat empty_tables
empty_tables-Own = record {
  pages = omega arith;
  unused = (
    λ a h. absurd (false≢true h),
    (
      λ a h. absurd (false≢true h),
      (λ a h. absurd (false≢true h), (λ a h. absurd (false≢true h), tt)),
    ),
  );
  distinct = omega arith;
  root = omega arith;
}

abbrev before : Device Unit
before = record { map = fresh; paging = empty_tables; pools = [] }

abbrev after : Device Unit
after = record { map = after_5000; paging = empty_tables; pools = [] }

mallocs : pet_malloc no_pools no_arch flat 0 before copies 5000 ≡ fine (after, 0x1000000000)
unfolding pet_malloc petmem_ioctl run_command command lazy_alloc rounded_size num_pages init_process
    alloc_vspace u64 u64_sub
mallocs = refl

pet_malloc-segv_handler_example :
    (d'' : Device Unit) × (segv_handler no_pools no_arch flat 0 after copies sigsegv 0x1000001387 1
      ≡ fine (goes_on d''))
    × ((p : ℕ) × (translate flat d''.paging.mem 0x1000001387 ≡ some p))
    × ((b p : ℕ)
        → translate flat empty_tables.mem b ≡ some p
        → translate flat d''.paging.mem b ≡ some p)
    × Own flat d''.paging
    × (d''.map ≡ after_5000)
unfolding u32
pet_malloc-segv_handler_example =
    pet_malloc-segv_handler no_pools no_arch flat 0 before after copies copies 5000 0x1000000000
      0x1000001387 1 (Reach-IsValid (init true 1)) flat-KeepsPages empty_tables-Own (omega arith)
      (omega arith) mallocs (λ e. omega (arith, e)) refl refl (λ e. omega (arith, e))

-- The tables of the block, with its first page.
abbrev to_page : ℕ → Entry
to_page n = record zero_entry { present = true; base_addr = n }

abbrev tables : Paging
tables = record {
  mem = λ a.
      if a == 0x1000
      then to_page 2
      else if a == 0x2200
      then to_page 3
      else if a == 0x3000
      then to_page 4
      else if a == 0x4000
      then to_page 20
      else zero_entry;
  pages = [];
}

abbrev used : Device Unit
used = record { map = after_5000; paging = tables; pools = [] }

abbrev freed : MemMap
freed = record {
  head_allocated = true;
  nodes = record { at = 2; start = 0x1000000000; size = 0x2000000000; allocated = false } ∷ [];
}
