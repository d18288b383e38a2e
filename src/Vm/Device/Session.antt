-- ===== src/Vm/Device/Session.antt =====
-- The calls that a process makes of the device of VMproject/main.c, from the opening on.
use cs.Prelude.{ℕ, ◌≡◌, subst, Bool, Bool-cases, Option-cases, inl, inr, some, List, arith}
use cs.Vm.MemMap.{MemMap, free_region, free_vspace}
use cs.Vm.MemMap.Chain.{IsValid}
use cs.Vm.MemMap.Valid.{init_process-IsValid, alloc_vspace-IsValid, free_vspace-IsValid}
use cs.Vm.MemMap.{alloc_vspace}
use cs.Vm.PageTable.{Kernel, Paging}
use cs.Vm.Release.{Swept, swept, oops, out_of_fuel, release_pages}
use cs.Vm.Pool.{Buddy, Arch, Ran, fine, bug, add_memory}
use cs.Vm.Pool as Pool
use cs.Vm.Ioctl.{num_pages, lazy_alloc}
use cs.Vm.Device.{
  Device, Command, Request, Answer, command, with_pools, after_sweep, lazy_free, page_fault,
  run_command, petmem_ioctl, petmem_open, add_memory_cmd, lazy_alloc_cmd, lazy_free_cmd,
  lazy_dump_state, page_fault_cmd, invalidate_page, print_pml, unhandled,
}

-- Where a call ends, the list of regions is as required.
abbrev Ends : {Mempool : Type 0} → (MemMap → Type 0) → Ran (Device Mempool × Answer) → Type 0
Ends P (fine r) = P r.0.map
Ends P bug = Unit
Ends P Pool.out_of_fuel = Unit

lazy_alloc-IsValid :
    (copied : Bool) (map : MemMap) (size new : ℕ)
    → IsValid map
    → IsValid (lazy_alloc copied map size new).0
unfolding lazy_alloc
lazy_alloc-IsValid copied map size new v =
    elim (Option-cases (alloc_vspace map (num_pages size) new)) [
      | inl e ↦ rw (e, lazy_alloc) v
      | inr ((map', a), e) ↦
          rw (e, lazy_alloc) (alloc_vspace-IsValid map map' (num_pages size) new a v e)
    ]

free_region-IsValid :
    (map map' : MemMap) (vaddr start size : ℕ)
    → IsValid map
    → free_region map vaddr ≡ some (map', start, size)
    → IsValid map'
unfolding free_vspace
free_region-IsValid map map' vaddr start size v e =
    let f : free_vspace map vaddr ≡ map' = ground (arith, e) in
    subst IsValid f (free_vspace-IsValid map vaddr v)

module _ {Mempool : Type 0} (buddy : Buddy Mempool) (arch : Arch) (k : Kernel) where
  with_pools-Ends :
      (d : Device Mempool) (m : Ran (List Mempool))
      → IsValid d.map
      → Ends IsValid (with_pools buddy arch k d m)
  with_pools-Ends d (fine pools) v = v
  with_pools-Ends d bug v = tt
  with_pools-Ends d Pool.out_of_fuel v = tt

  after_sweep-Ends :
      (d : Device Mempool) (m : Swept) → IsValid d.map → Ends IsValid (after_sweep buddy arch k d m)
  after_sweep-Ends d (swept s) v = v
  after_sweep-Ends d oops v = tt
  after_sweep-Ends d out_of_fuel v = tt

  lazy_free-Ends :
      (fuel : ℕ) (d : Device Mempool) (vaddr : ℕ)
      → IsValid d.map
      → Ends IsValid (lazy_free buddy arch k fuel d vaddr)
  unfolding lazy_free
  lazy_free-Ends fuel d vaddr v = elim (Option-cases (free_region d.map vaddr)) [
    | inl e ↦ rw (e, lazy_free, Ends) v
    | inr ((map', start, size), e) ↦
        let v' = free_region-IsValid d.map map' vaddr start size v e in
        rw (e, lazy_free, Ends)
          (after_sweep-Ends (record d { map = map' }) (release_pages fuel k d.paging start size) v')
  ]

  run_command-Ends :
      (fuel : ℕ) (c : Command) (d : Device Mempool) (r : Request)
      → IsValid d.map
      → Ends IsValid (run_command buddy arch k fuel c d r)
  unfolding run_command page_fault
  run_command-Ends fuel add_memory_cmd d r v = elim (Bool-cases r.copied_in) [
    | inl e ↦ rw e (with_pools-Ends d (add_memory buddy arch r.base_addr r.pages d.pools) v)
    | inr e ↦ rw e v
  ]
  run_command-Ends fuel lazy_alloc_cmd d r v = elim (Bool-cases r.copied_in) [
    | inl e ↦ rw e (lazy_alloc-IsValid r.copied_out d.map r.size r.new_map v)
    | inr e ↦ rw e v
  ]
  run_command-Ends fuel lazy_free_cmd d r v = lazy_free-Ends fuel d r.arg v
  run_command-Ends fuel lazy_dump_state d r v = v
  run_command-Ends fuel page_fault_cmd d r v = elim (Bool-cases r.copied_in) [
    | inl e ↦ rw e v
    | inr e ↦ rw e v
  ]
  run_command-Ends fuel invalidate_page d r v = v
  run_command-Ends fuel print_pml d r v = v
  run_command-Ends fuel unhandled d r v = v

  -- What a process that opened the device can make of it by calls of any number and argument, each
  -- with the fuel that it needs.
  pub data Session : Device Mempool → Type 0 where
    opened :
        (garbage : Bool) (map : ℕ) (paging : Paging) (pools : List Mempool)
        → Session (petmem_open garbage map paging pools)
    called :
        {d d' : Device Mempool} {a : Answer} (fuel ioctl : ℕ) (r : Request)
        → Session d
        → petmem_ioctl buddy arch k fuel ioctl d r ≡ fine (d', a)
        → Session d'

  -- After any calls of the device that return, whatever their numbers, arguments and failures of
  -- copying, the list of regions is valid: it tiles the region in whole pages.
  pub Session-IsValid : {d : Device Mempool} → Session d → IsValid d.map
  unfolding petmem_ioctl petmem_open
  Session-IsValid (opened garbage map paging pools) = init_process-IsValid garbage map
  Session-IsValid (called {d} {d'} {a} fuel ioctl r s e) =
      subst (Ends IsValid) e (run_command-Ends fuel (command ioctl) d r (Session-IsValid s))
