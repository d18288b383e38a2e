-- ===== src/Vm/Device.antt =====
-- VMproject/main.c: `petmem_open` and the dispatch of `petmem_ioctl`, for one open file and the pools
-- of the module. The numbers of the ioctls are those of VMproject/petmem.h.
pub mod Session
pub mod Touch
mod Tests
use cs.Prelude.{
  ℕ, ◌%◌, ◌^◌, Bool, true, false, Option, none, some, List, [], ◌∷◌, ◌==◌, if◌then◌else◌, u32,
}
use cs.Vm.MemMap.{MemMap, init_process, free_region}
use cs.Vm.PageTable.{Kernel, Paging, handle_pagefault}
use cs.Vm.Release.{Swept, swept, oops, out_of_fuel, Sweep, release_pages}
use cs.Vm.Pool.{Buddy, Arch, Ran, fine, bug, add_memory}
use cs.Vm.Pool as Pool
use cs.Vm.Ioctl.{Reply, answered, no_room, fault, lazy_alloc}

-- What a call finds: the list of regions of the file, the page tables, and the pools of the module.
pub record Device (Mempool : Type 0) : Type 0 where
  pub map : MemMap
  pub paging : Paging
  pub pools : List Mempool

-- The cases of the switch.
pub data Command : Type 0 where
  add_memory_cmd : Command
  lazy_alloc_cmd : Command
  lazy_free_cmd : Command
  lazy_dump_state : Command
  page_fault_cmd : Command
  invalidate_page : Command
  print_pml : Command
  unhandled : Command

-- ALLOCATE, RELEASE_MEMORY and FREE fall through to PRINT_PML.
unfoldable pub command : ℕ → Command
command n =
    if n == 1
    then add_memory_cmd
    else if n == 30
    then lazy_alloc_cmd
    else if n == 31
    then lazy_free_cmd
    else if n == 32
    then lazy_dump_state
    else if n == 50
    then page_fault_cmd
    else if n == 51
    then invalidate_page
    else if n == 10
    then print_pml
    else if n == 2
    then print_pml
    else if n == 11
    then print_pml
    else if n == 52
    then print_pml
    else unhandled

-- The argument of a call: the number itself, and what is copied from the user's memory there. Whether
-- the two copies succeed, and the address that kmalloc returns, come with it.
pub record Request : Type 0 where
  pub arg : ℕ
  pub copied_in : Bool
  pub copied_out : Bool
  pub new_map : ℕ
  pub base_addr : ℕ
  pub pages : ℕ
  pub size : ℕ
  pub fault_addr : ℕ
  pub error_code : ℕ

-- The values that a call returns: 0, 1 and -EFAULT.
pub data Code : Type 0 where
  ok : Code
  failed : Code
  efault : Code

-- The return value, and the address that the user finds in its request if one was written there.
pub record Answer : Type 0 where
  pub code : Code
  pub addr : Option ℕ

abbrev pub returns : Code → Answer
returns c = record { code = c; addr = none }

abbrev pub answer_of : Reply → Answer
answer_of (answered a) = record { code = ok; addr = some a }
answer_of no_room = returns ok
answer_of fault = returns efault

module _ {Mempool : Type 0} (buddy : Buddy Mempool) (arch : Arch) (k : Kernel) where
  abbrev pub Called : Type 0
  Called = Ran (Device Mempool × Answer)

  -- The device after the pools were extended.
  abbrev with_pools : Device Mempool → Ran (List Mempool) → Called
  with_pools d (fine pools) = fine (record d { pools = pools }, returns ok)
  with_pools d bug = bug
  with_pools d Pool.out_of_fuel = Pool.out_of_fuel

  -- The device after pages were released. The pages still to be handed out are an order given
  -- beforehand, in which a page that is freed may come again.
  abbrev after_sweep : Device Mempool → Swept → Called
  after_sweep d (swept s) =
      fine (record d { paging = record (d.paging) { mem = s.mem } }, returns ok)
  after_sweep d oops = bug
  after_sweep d out_of_fuel = Pool.out_of_fuel

  -- The ioctl LAZY_FREE, with the fuel of the loop that frees the pages.
  pub lazy_free : ℕ → Device Mempool → ℕ → Called
  lazy_free fuel d vaddr = elim (free_region d.map vaddr) [
    | none ↦ fine (d, returns ok)
    | some (map', start, size) ↦
        after_sweep (record d { map = map' }) (release_pages fuel k d.paging start size)
  ]

  -- The ioctl PAGE_FAULT.
  pub page_fault : Device Mempool → ℕ → ℕ → Device Mempool × Answer
  page_fault d addr error_code =
      let (s, handled) = handle_pagefault k d.map addr (u32 error_code) d.paging in
      (record d { paging = s }, returns (if handled then ok else failed))

  unfoldable pub run_command : ℕ → Command → Device Mempool → Request → Called
  run_command fuel add_memory_cmd d r =
      if r.copied_in
      then with_pools d (add_memory buddy arch r.base_addr r.pages d.pools)
      else fine (d, returns efault)
  run_command fuel lazy_alloc_cmd d r =
      if r.copied_in
      then (let (map', reply) = lazy_alloc r.copied_out d.map r.size r.new_map in
          fine (record d { map = map' }, answer_of reply))
      else fine (d, returns efault)
  run_command fuel lazy_free_cmd d r = lazy_free fuel d r.arg
  run_command fuel lazy_dump_state d r = fine (d, returns ok)
  run_command fuel page_fault_cmd d r =
      if r.copied_in
      then fine (page_fault d r.fault_addr r.error_code)
      else fine (d, returns efault)
  run_command fuel invalidate_page d r = fine (d, returns ok)
  run_command fuel print_pml d r = fine (d, returns ok)
  run_command fuel unhandled d r = fine (d, returns ok)

  -- `petmem_ioctl`
  unfoldable pub petmem_ioctl : ℕ → ℕ → Device Mempool → Request → Called
  petmem_ioctl fuel ioctl d r = run_command fuel (command ioctl) d r

-- `petmem_open`
pub petmem_open : {Mempool : Type 0} → Bool → ℕ → Paging → List Mempool → Device Mempool
petmem_open garbage map paging pools = record {
  map = init_process garbage map;
  paging = paging;
  pools = pools;
}
