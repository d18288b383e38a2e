-- ===== src/Vm/MemMap/Valid.antt =====
-- The memory map of VMproject/on_demand.c as a whole: what holds of it after any sequence of
-- allocations and releases, and what each of them does.

use cs.Prelude.{
  ℕ, ◌+◌, ◌*◌, ◌≤◌, ◌≡◌, refl, sym, ◌∙◌, ap, ap₂, subst, true, false, not, ◌&&◌, ◌||◌, inl, inr,
  Bool, some, [], arith, Option-cases, u64,
}
use cs.Vm.MemMap.{
  region_start, region_end, page_size, MemMap, init_process, alloc_nodes, alloc_vspace, Cut,
  find_allocated, find_address, release, free_region, free_vspace,
}
use cs.Vm.MemMap.Chain.{Chain, IsValid}
use cs.Vm.MemMap.Alloc.{Allocs, alloc_nodes-Allocs, Allocs-Chain}
use cs.Vm.MemMap.Free.{IsCut, find_allocated-IsCut, release-Chain}
use cs.Vm.MemMap.Mapped.{
  is_mapped, within, any_covers, find_node-any_covers, Allocs-any_covers, Allocs-fresh,
  Allocs-bounds,
}
use cs.Vm.MemMap.Unmapped.{release-unmaps}

pub init_process-IsValid : (garbage : Bool) (map : ℕ) → IsValid (init_process garbage map)
unfolding init_process u64
init_process-IsValid garbage map = (refl, refl, refl, (refl, refl))

is_mapped-any_covers : (map : MemMap) (a : ℕ) → is_mapped map a ≡ any_covers map.nodes a
unfolding find_address
is_mapped-any_covers map a = find_node-any_covers map.nodes a

-- A successful allocation is a run of the search over the nodes.
pub alloc_vspace-Allocs :
    (map map' : MemMap) (k new v : ℕ)
    → alloc_vspace map k new ≡ some (map', v)
    → Allocs k new map.nodes map'.nodes v
unfolding alloc_vspace
alloc_vspace-Allocs map map' k new v e = elim (Option-cases (alloc_nodes map.nodes k new)) [
  | inl f ↦ ground arith
  | inr (q, f) ↦
      subst (λ (r : MemMap × ℕ). Allocs k new map.nodes r.0.nodes r.1)
        {x = (record map { nodes = q.0 }, q.1)} {y = (map', v)} (ground arith)
        (alloc_nodes-Allocs k new map.nodes q f)
]

-- A successful release is a cut at an allocated node.
pub free_region-release :
    (map map' : MemMap) (vaddr start size : ℕ)
    → IsValid map
    → free_region map vaddr ≡ some (map', start, size)
    → (k : Cut) × IsCut vaddr k
      × (find_allocated [] map.nodes vaddr ≡ some k)
      × (map'.nodes ≡ release map.head_allocated k)
      × (k.cursor.start ≡ start)
      × (k.cursor.size ≡ size)
unfolding free_region
free_region-release map map' vaddr start size h e =
    elim (Option-cases (find_allocated [] map.nodes vaddr)) [
      | inl f ↦ ground arith
      | inr (k, f) ↦ (
        k,
        find_allocated-IsCut region_start [] map.nodes vaddr k refl h f,
        f,
        ground arith,
        ground arith,
        ground arith,
      )
    ]

-- An allocation keeps the map valid.
pub alloc_vspace-IsValid :
    (map map' : MemMap) (k new v : ℕ)
    → IsValid map
    → alloc_vspace map k new ≡ some (map', v)
    → IsValid map'
alloc_vspace-IsValid map map' k new v h e =
    Allocs-Chain region_start false (alloc_vspace-Allocs map map' k new v e) h

-- So does a release, of any address.
pub free_vspace-IsValid : (map : MemMap) (vaddr : ℕ) → IsValid map → IsValid (free_vspace map vaddr)
unfolding free_vspace
free_vspace-IsValid map vaddr h = elim (Option-cases (free_region map vaddr)) [
  | inl e ↦ rw (e, free_vspace) h
  | inr ((map', start, size), e) ↦
      let (k, c, f, r, s, t) = free_region-release map map' vaddr start size h e in
      rw (e, free_vspace)
        (subst (Chain region_start false) (sym r) (release-Chain map.head_allocated vaddr k c))
]

-- The maps of a process: what `LAZY_ALLOC` and `LAZY_FREE` make of the initial one.
pub data Reach : MemMap → Type 0 where
  init : (garbage : Bool) (map : ℕ) → Reach (init_process garbage map)
  alloc :
      {map map' : MemMap} {v : ℕ} (k new : ℕ)
      → Reach map
      → alloc_vspace map k new ≡ some (map', v)
      → Reach map'
  free : {map : MemMap} (vaddr : ℕ) → Reach map → Reach (free_vspace map vaddr)

-- Every map that a process can reach is valid: its nodes tile the region from `PETMEM_REGION_START`
-- to `PETMEM_REGION_END` in order, in whole pages, no two neighbours are free, and the last is.
pub Reach-IsValid : {map : MemMap} → Reach map → IsValid map
Reach-IsValid (init garbage map) = init_process-IsValid garbage map
Reach-IsValid {map = map'} (alloc {map} {v = v} k new r e) =
    alloc_vspace-IsValid map map' k new v (Reach-IsValid r) e
Reach-IsValid (free {map} vaddr r) = free_vspace-IsValid map vaddr (Reach-IsValid r)

-- On a valid map an allocation of `k` pages returns a block of the region that was not mapped,
-- and maps the block and nothing else.
pub alloc_vspace-is_mapped :
    (map map' : MemMap) (k new v : ℕ)
    → IsValid map
    → alloc_vspace map k new ≡ some (map', v)
    → (region_start ≤ v)
      × (v + page_size * k ≤ region_end)
      × ((a : ℕ) → within v (page_size * k) a ≡ true → is_mapped map a ≡ false)
      × ((a : ℕ) → is_mapped map' a ≡ (is_mapped map a || within v (page_size * k) a))
alloc_vspace-is_mapped map map' k new v h e =
    let al = alloc_vspace-Allocs map map' k new v e in
    let b = Allocs-bounds region_start false al h in
    (
      b.0,
      b.1,
      λ a w. is_mapped-any_covers map a ∙ Allocs-fresh region_start false al h a w,
      λ a.
          is_mapped-any_covers map' a
          ∙ Allocs-any_covers region_start false al h a
          ∙ ap (λ q. q || within v (page_size * k) a) (sym (is_mapped-any_covers map a)),
    )

-- On a valid map a release that finds a node unmaps that node's block and nothing else; the block
-- starts at the address that was given.
pub free_region-is_mapped :
    (map map' : MemMap) (vaddr start size : ℕ)
    → IsValid map
    → free_region map vaddr ≡ some (map', start, size)
    → (start ≡ vaddr)
      × ((a : ℕ) → is_mapped map' a ≡ (is_mapped map a && not (within start size a)))
free_region-is_mapped map map' vaddr start size h e =
    let (k, c, f, r, s, t) = free_region-release map map' vaddr start size h e in
    (
      sym s ∙ c.starts,
      λ a.
          is_mapped-any_covers map' a
          ∙ ap (λ l. any_covers l a) r
          ∙ release-unmaps map.head_allocated map.nodes k a c f
          ∙ ap₂ (λ p q. p && not q) (sym (is_mapped-any_covers map a))
              (ap₂ (λ p q. within p q a) s t),
    )
