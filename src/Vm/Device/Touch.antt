-- ===== src/Vm/Device/Touch.antt =====
-- The ioctls LAZY_ALLOC, LAZY_FREE and PAGE_FAULT of VMproject/main.c one after the other.
use cs.Prelude.{
  ℕ, ◌≡◌, refl, sym, ◌∙◌, ap, Bool, true, false, Bool-cases, inl, inr, some, arith, if◌then◌else◌,
  if_true, u32,
}
use cs.Vm.MemMap.{MemMap, free_region}
use cs.Vm.PageTable.{Kernel, Paging, handle_pagefault}
use cs.Vm.Release.{Sweep, Swept, swept, oops, out_of_fuel, release_pages}
use cs.Vm.Pool.{Buddy, Arch, fine}
use cs.Vm.Ioctl.{Reply, answered, no_room, fault, lazy_alloc}
use cs.Vm.Device.{
  Device, Request, Answer, returns, ok, failed, efault, answer_of, Called, command, lazy_free,
  after_sweep, page_fault, run_command, petmem_ioctl,
}

answered-addr : (q : Reply) (a : ℕ) → (answer_of q).addr ≡ some a → q ≡ answered a
answered-addr (answered b) a e = ground (arith, e)
answered-addr no_room a e = ground (arith, e)
answered-addr fault a e = ground (arith, e)

module _ {Mempool : Type 0} (buddy : Buddy Mempool) (arch : Arch) (k : Kernel) where
  alloc_step :
      (d d' : Device Mempool) (map' : MemMap) (q : Reply) (w : Answer) (a : ℕ)
      → ◌≡◌ {A = Called buddy arch k} (fine (record d { map = map' }, answer_of q)) (fine (d', w))
      → w.addr ≡ some a
      → (map' ≡ d'.map) × (q ≡ answered a) × (d'.paging ≡ d.paging)
  alloc_step d d' map' q w a e h =
      let n : answer_of q ≡ w = ground (arith, e) in
      (ground (arith, e), answered-addr q a (ap (λ (v : Answer). v.addr) n ∙ h), ground (arith, e))

  -- A call of LAZY_ALLOC that writes an address comes from an allocation.
  pub alloc-lazy_alloc :
      (fuel : ℕ) (d d' : Device Mempool) (r : Request) (w : Answer) (a : ℕ)
      → petmem_ioctl buddy arch k fuel 30 d r ≡ fine (d', w)
      → w.addr ≡ some a
      → (lazy_alloc r.copied_out d.map r.size r.new_map ≡ (d'.map, answered a))
        × (d'.paging ≡ d.paging)
  unfolding petmem_ioctl run_command command
  alloc-lazy_alloc fuel d d' r w a e h = elim (Bool-cases r.copied_in) [
    | inl c ↦
        let l = lazy_alloc r.copied_out d.map r.size r.new_map in
        let s : petmem_ioctl buddy arch k fuel 30 d r
            ≡ fine (record d { map = l.0 }, answer_of l.1) =
          if_true _ _ c in
        let (m, q, g) = alloc_step d d' l.0 l.1 w a (sym s ∙ e) h in (ground (arith, m, q), g)
    | inr c ↦ absurd (ground (arith, c, e, h))
  ]

  swept_map :
      (d d' : Device Mempool) (m : Swept) (w : Answer)
      → after_sweep buddy arch k d m ≡ fine (d', w)
      → d'.map ≡ d.map
  swept_map d d' (swept s) w e = ground (arith, e)
  swept_map d d' oops w e = ground (arith, e)
  swept_map d d' out_of_fuel w e = ground (arith, e)

  -- A call of LAZY_FREE that returns took the node out of the list, if it found one.
  pub free-free_region :
      (fuel : ℕ) (d d' : Device Mempool) (r : Request) (w : Answer) (map' : MemMap) (start size : ℕ)
      → petmem_ioctl buddy arch k fuel 31 d r ≡ fine (d', w)
      → free_region d.map r.arg ≡ some (map', start, size)
      → d'.map ≡ map'
  unfolding petmem_ioctl run_command command lazy_free
  free-free_region fuel d d' r w map' start size e f =
      swept_map (record d { map = map' }) d' (release_pages fuel k d.paging start size) w
        (ground (arith, e, f))

  fault-page_fault :
      (fuel : ℕ) (d : Device Mempool) (r : Request)
      → r.copied_in ≡ true
      → petmem_ioctl buddy arch k fuel 50 d r
        ≡ fine (page_fault buddy arch k d r.fault_addr r.error_code)
  unfolding petmem_ioctl run_command command
  fault-page_fault fuel d r c = rw c refl

  -- A fault is answered by what the handler does.
  pub fault-handles :
      (fuel : ℕ) (d : Device Mempool) (r : Request)
      → r.copied_in ≡ true
      → (s : Paging) → (b : Bool)
      → handle_pagefault k d.map r.fault_addr (u32 r.error_code) d.paging ≡ (s, b)
      → petmem_ioctl buddy arch k fuel 50 d r
        ≡ fine (record d { paging = s }, returns (if b then ok else failed))
  unfolding page_fault
  fault-handles fuel d r c s b e =
      fault-page_fault fuel d r c
      ∙ ap {A = Paging × Bool}
          (λ (q : Paging × Bool).
            fine (record d { paging = q.0 }, returns (if q.1 then ok else failed)))
          e

  pub fault-uncopied :
      (fuel : ℕ) (d : Device Mempool) (r : Request)
      → r.copied_in ≡ false
      → petmem_ioctl buddy arch k fuel 50 d r ≡ fine (d, returns efault)
  unfolding petmem_ioctl run_command command
  fault-uncopied fuel d r c = rw c refl

  -- A call of LAZY_FREE returns if the loop that frees the pages ends.
  pub free-returns :
      (fuel : ℕ) (d : Device Mempool) (r : Request) (map' : MemMap) (start size : ℕ) (s : Sweep)
      → free_region d.map r.arg ≡ some (map', start, size)
      → release_pages fuel k d.paging start size ≡ swept s
      → petmem_ioctl buddy arch k fuel 31 d r
        ≡ fine (record d { map = map'; paging = record (d.paging) { mem = s.mem } }, returns ok)
  unfolding petmem_ioctl run_command command lazy_free
  free-returns fuel d r map' start size s f e = ground (arith, f, e)
