-- ===== src/Vm/Ioctl/Rounding.antt =====
-- The ioctl LAZY_ALLOC of VMproject/main.c maps the bytes that were asked for.
use cs.Prelude.{
  ℕ, ◌+◌, ◌*◌, ◌^◌, ◌≤◌, ◌<◌, ◌≡◌, ◌∙◌, Bool, true, false, some, u64, arith, Option-cases, inl, inr,
}
use cs.Vm.MemMap.{region_start, region_end, page_size, MemMap, alloc_vspace}
use cs.Vm.MemMap.Chain.{IsValid}
use cs.Vm.MemMap.Mapped.{is_mapped, within}
use cs.Vm.MemMap.Valid.{alloc_vspace-is_mapped}
use cs.Vm.Ioctl.{rounded_size, num_pages, answered, lazy_alloc}

num_pages-bounds :
    (size : ℕ)
    → size + 4095 < 2 ^ 64
    → (size ≤ page_size * num_pages size) × (page_size * num_pages size < size + 4096)
unfolding rounded_size num_pages u64
num_pages-bounds size h = omega arith

-- An answer comes from an allocation.
lazy_alloc-answered :
    (copied : Bool) (map map' : MemMap) (size new addr : ℕ)
    → lazy_alloc copied map size new ≡ (map', answered addr)
    → alloc_vspace map (num_pages size) new ≡ some (map', addr)
unfolding lazy_alloc
lazy_alloc-answered copied map map' size new addr e =
    elim (Option-cases (alloc_vspace map (num_pages size) new)) [
      | inl h ↦ absurd (ground (arith, h, e))
      | inr (r, h) ↦ ground (arith, h, e)
    ]

-- On a valid map, when a request of `size` bytes, with `size + 4095` below 2 ^ 64, is answered with an
-- address, then each of the `size` bytes from there on lies in the region, is mapped afterwards and
-- was not before, and no byte before the address, or from `addr + size + 4095` on, changes.
pub lazy_alloc-is_mapped :
    (copied : Bool) (map map' : MemMap) (size new addr : ℕ)
    → IsValid map
    → size + 4095 < 2 ^ 64
    → lazy_alloc copied map size new ≡ (map', answered addr)
    → ((a : ℕ)
        → within addr size a ≡ true
        → (region_start ≤ a)
          × (a < region_end)
          × (is_mapped map a ≡ false)
          × (is_mapped map' a ≡ true))
      × ((a : ℕ) → within addr (size + 4095) a ≡ false → is_mapped map' a ≡ is_mapped map a)
lazy_alloc-is_mapped copied map map' size new addr v h e =
    let b = num_pages-bounds size h in
    let (lo, hi, f, m) =
      alloc_vspace-is_mapped map map' (num_pages size) new addr v
        (lazy_alloc-answered copied map map' size new addr e) in
    (
      λ a w.
          let w' : within addr (page_size * num_pages size) a ≡ true = ground (arith, w, b) in
          (ground (arith, w, lo), ground (arith, w', hi), f a w', m a ∙ ground (arith, w')),
      λ a w. m a ∙ ground (arith, w, b),
    )
