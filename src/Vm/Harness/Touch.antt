-- ===== src/Vm/Harness/Touch.antt =====
-- A program that allocates memory by VMproject/user/harness.c, uses it and frees it.
use cs.Prelude.{
  ℕ, ◌+◌, ◌^◌, ◌≤◌, ◌<◌, ◌≡◌, ◌≢◌, refl, sym, ◌∙◌, ap, subst, Bool, true, Option-cases, inl, inr,
  some, length, arith, u32,
}
use cs.Vm.MemMap.{region_start, region_end, MemMap}
use cs.Vm.MemMap.Chain.{IsValid}
use cs.Vm.MemMap.Mapped.{is_mapped, within}
use cs.Vm.PageTable.{pml_index, Kernel, Paging, handle_pagefault}
use cs.Vm.PageTable.Mmu.{translate}
use cs.Vm.PageTable.Own.{Own, KeepsPages}
use cs.Vm.PageTable.Fault.{handle_pagefault-translates}
use cs.Vm.Pool.{Buddy, Arch, Ran, fine, bug, out_of_fuel, ◌>>=◌}
use cs.Vm.Ioctl.Rounding.{lazy_alloc-is_mapped}
use cs.Vm.Device.{Device, Answer, petmem_ioctl}
use cs.Vm.Device.Touch.{alloc-lazy_alloc, fault-handles}
use cs.Vm.Harness.{Env, request, addr_in, sigsegv, goes_on, pet_malloc, segv_handler}

bind-fine :
    {A B : Type 0} (m : Ran A) (f : A → B) (b : B)
    → (m >>= λ r. fine (f r)) ≡ fine b
    → (a : A) × (m ≡ fine a) × (f a ≡ b)
bind-fine (fine a) f b e = (a, refl, ground (arith, e))
bind-fine bug f b e = ground (arith, e)
bind-fine out_of_fuel f b e = ground (arith, e)

addr_in-some : (w : Answer) (a : ℕ) → addr_in w ≡ a → a ≢ 0 → w.addr ≡ some a
addr_in-some w a e h = elim (Option-cases w.addr) [
  | inl n ↦ absurd (ground (arith, n, e, h))
  | inr (b, n) ↦ ground (arith, n, e)
]

-- The region lies in the first 512 GB.
region-pml_index : (a : ℕ) → region_start ≤ a → a < region_end → pml_index a ≡ 0
region-pml_index a l h = omega (arith, l, h)

module _ {Mempool : Type 0} (buddy : Buddy Mempool) (arch : Arch) (k : Kernel) (fuel : ℕ) where
  -- An address other than 0 is an answer of LAZY_ALLOC.
  pet_malloc-answered :
      (d d' : Device Mempool) (env : Env) (size addr : ℕ)
      → pet_malloc buddy arch k fuel d env size ≡ fine (d', addr)
      → addr ≢ 0
      → (w : Answer) × (petmem_ioctl buddy arch k fuel 30 d (record (request env) { size = size })
          ≡ fine (d', w))
        × (w.addr ≡ some addr)
  unfolding pet_malloc
  pet_malloc-answered d d' env size addr e h =
      let m = petmem_ioctl buddy arch k fuel 30 d (record (request env) { size = size }) in
      let ((d₁, w), g, q) = bind-fine m (λ r. (r.0, addr_in r.1)) (d', addr) e in
      let a : addr_in w ≡ addr = ap (λ (z : Device Mempool × ℕ). z.1) q in
      let b : d₁ ≡ d' = ap (λ (z : Device Mempool × ℕ). z.0) q in
      (w, g ∙ ap (λ z. fine (z, w)) b, addr_in-some w addr a h)

  -- The handler at an address that is mapped.
  segv_handler-translates :
      (d : Device Mempool) (env : Env) (si_addr si_code : ℕ)
      → KeepsPages k
      → Own k d.paging
      → pml_index si_addr ≡ 0
      → 4 ≤ length d.paging.pages
      → env.copied_in ≡ true
      → u32 si_code ≢ 2
      → is_mapped d.map si_addr ≡ true
      → (d' : Device Mempool) × (segv_handler buddy arch k fuel d env sigsegv si_addr si_code
          ≡ fine (goes_on d'))
        × ((p : ℕ) × (translate k d'.paging.mem si_addr ≡ some p))
        × ((b p : ℕ) → translate k d.paging.mem b ≡ some p → translate k d'.paging.mem b ≡ some p)
        × Own k d'.paging
        × (d'.map ≡ d.map)
  unfolding segv_handler
  segv_handler-translates d env si_addr si_code kp o low room c n m =
      let (r, t, x, o') =
        handle_pagefault-translates k d.map si_addr (u32 si_code) d.paging kp o low room n m in
      let s = (handle_pagefault k d.map si_addr (u32 si_code) d.paging).0 in
      let f =
        fault-handles buddy arch k fuel d
          (record (request env) { fault_addr = si_addr; error_code = si_code }) c s true
          (ap {A = Bool} (λ z. (s, z)) r) in
      (record d { paging = s }, ground (arith, f), t, x, o', refl)

  -- On a valid list of regions, with at least four pages in stock, all of them aligned, distinct, in no
  -- table and with physical addresses of 52 bits that lead back to them (`Own`), and `va` keeping the
  -- alignment of pages: where `pet_malloc` of `size` bytes,
  -- `size + 4095` below 2 ^ 64, returns an address other than NULL, a fault of the program at any of
  -- the `size` bytes from there on, with a code other than 2, is handled if the kernel can copy the
  -- argument. The program goes on, and the processor then translates the address; what it translated
  -- before the allocation it translates as before, and the pages in stock are unused.
  pub pet_malloc-segv_handler :
      (d d' : Device Mempool) (env env' : Env) (size addr si_addr si_code : ℕ)
      → IsValid d.map
      → KeepsPages k
      → Own k d.paging
      → 4 ≤ length d.paging.pages
      → size + 4095 < 2 ^ 64
      → pet_malloc buddy arch k fuel d env size ≡ fine (d', addr)
      → addr ≢ 0
      → env'.copied_in ≡ true
      → within addr size si_addr ≡ true
      → u32 si_code ≢ 2
      → (d'' : Device Mempool) × (segv_handler buddy arch k fuel d' env' sigsegv si_addr si_code
          ≡ fine (goes_on d''))
        × ((p : ℕ) × (translate k d''.paging.mem si_addr ≡ some p))
        × ((b p : ℕ) → translate k d.paging.mem b ≡ some p → translate k d''.paging.mem b ≡ some p)
        × Own k d''.paging
        × (d''.map ≡ d'.map)
  pet_malloc-segv_handler d d' env env' size addr si_addr si_code v kp o room fits e h c i n =
      let (w, g, q) = pet_malloc-answered d d' env size addr e h in
      let (l, p) =
        alloc-lazy_alloc buddy arch k fuel d d' (record (request env) { size = size }) w addr g q in
      let (mapped, _) =
        lazy_alloc-is_mapped env.copied_out d.map d'.map size env.new_map addr v fits l in
      let (lo, hi, _, m) = mapped si_addr i in
      let (d'', f, t, x, o', z) =
        segv_handler-translates d' env' si_addr si_code kp (subst (Own k) (sym p) o)
          (region-pml_index si_addr lo hi) (subst (λ (s : Paging). 4 ≤ length s.pages) (sym p) room)
          c n m in
      (
        d'',
        f,
        t,
        λ b u y. x b u (subst (λ (s : Paging). translate k s.mem b ≡ some u) (sym p) y),
        o',
        z,
      )
