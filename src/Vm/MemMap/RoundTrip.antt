-- ===== src/Vm/MemMap/RoundTrip.antt =====
-- VMproject/on_demand.c: a block that is allocated and at once released leaves the regions of the
-- map as they were.
use cs.Prelude.{
  ℕ, ◌+◌, ◌≤◌, ◌<◌, ◌≡◌, refl, sym, ◌∙◌, ap, ap₂, true, false, not, ◌&&◌, inl, inr, Bool, some,
  none, Option, List, [], ◌∷◌, map, arith, Option-cases, u64, u64-eq_of_lt, rejoin, All, if_true,
  if_false, ◌==◌,
}
use cs.Vm.MemMap.{
  region_start, region_end, Node, MemMap, taken, left_over, alloc_vspace, Cut, find_allocated,
  merge_prev, has_prev, merge_next, release, free_region, free_vspace,
}
use cs.Vm.MemMap.Chain.{Chain, last_free, Chain-le, IsValid}
use cs.Vm.MemMap.Alloc.{Allocs, here, there, Split, fits-Split}
use cs.Vm.MemMap.Mapped.{Allocs-bounds}
use cs.Vm.MemMap.Valid.{alloc_vspace-Allocs}

-- What a node says of the region; the node's own address is left out.
abbrev pub Region : Type 0
Region = ℕ × ℕ × Bool

abbrev pub region : Node → Region
region n = (n.start, n.size, n.allocated)

abbrev pub regions : List Node → List Region
regions = map region

-- No block of the list is an allocation of zero pages.
abbrev pub NoEmptyBlock : List Node → Type 0
NoEmptyBlock = All (λ n. n.allocated ≡ true → 0 < n.size)

free_result : Bool → List Node → List Node → Option Cut → List Node
free_result garbage seen ns none = rejoin seen ns
free_result garbage seen ns (some k) = release garbage k

-- The list after a release, with the search at a place in it.
free_nodes : Bool → List Node → List Node → ℕ → List Node
free_nodes garbage seen ns vaddr = free_result garbage seen ns (find_allocated seen ns vaddr)

regions-rejoin :
    (before ys zs : List Node)
    → regions ys ≡ regions zs
    → regions (rejoin before ys) ≡ regions (rejoin before zs)
regions-rejoin [] ys zs e = e
regions-rejoin (p ∷ ps) ys zs e = regions-rejoin ps (p ∷ ys) (p ∷ zs) (ap (λ l. region p ∷ l) e)

-- The node before a free node is not free, so it is not combined with.
merge_prev-id :
    (seen : List Node) (c : Node) → last_free seen ≡ false → merge_prev seen c ≡ (seen, c)
unfolding merge_prev
merge_prev-id [] c e = refl
merge_prev-id (p ∷ ps) c e = ground arith

found_taken :
    (seen ns : List Node) (n : Node) (k new : ℕ)
    → find_allocated seen (taken n k ∷ left_over n k new ∷ ns) n.start
      ≡ some (record { before = seen; cursor = taken n k; after = left_over n k new ∷ ns })
unfolding find_allocated taken
found_taken seen ns n k new = if_true {b = n.start == n.start && true} _ _ (ground arith)

-- The free node in front takes the block back: it is the node that was split.
same_region :
    (n : Node) (k new : ℕ)
    → Split n k new
    → n.start + n.size ≤ region_end
    → ◌≡◌ {A = Region}
        (n.start, u64 ((left_over n k new).size + (taken n k).size), (left_over n k new).allocated)
        (region n)
unfolding left_over
same_region n k new s top =
    let e =
      u64-eq_of_lt ((left_over n k new).size + (taken n k).size)
        (omega (arith, s.size_left, s.size_taken)) in
    ap₂ (λ z b. (n.start, z, b)) (omega (arith, e, s.size_left, s.size_taken)) (sym s.was_free)

free_nodes-taken :
    (garbage : Bool) (seen ns : List Node) (n : Node) (k new : ℕ)
    → Split n k new
    → n.start + n.size ≤ region_end
    → last_free seen ≡ false
    → regions (free_nodes garbage seen (taken n k ∷ left_over n k new ∷ ns) n.start)
      ≡ regions (rejoin seen (n ∷ ns))
unfolding free_nodes free_result release merge_next taken left_over
free_nodes-taken garbage seen ns n k new s top e =
    ap (λ o. regions (free_result garbage seen (taken n k ∷ left_over n k new ∷ ns) o))
      (found_taken seen ns n k new)
    ∙ ap (λ m. regions (merge_next garbage (has_prev seen) m (left_over n k new ∷ ns)))
        (merge_prev-id seen (record n { size = (taken n k).size; allocated = false }) e)
    ∙ regions-rejoin seen
        (record (left_over n k new) {
          start = n.start;
          size = u64 ((left_over n k new).size + (taken n k).size);
        }
          ∷ ns)
        (n ∷ ns) (ap (λ r. r ∷ regions ns) (same_region n k new s top))

starts_before :
    (n : Node) (v pos k : ℕ)
    → n.start ≡ pos
    → (n.allocated ≡ true → 0 < n.size)
    → pos + n.size ≤ v
    → (n.start == v && n.allocated) ≡ false
starts_before n v pos k e ne b = ground (arith)

result_seen :
    (garbage : Bool) (seen : List Node) (n : Node) (ns : List Node) (v : ℕ)
    → free_result garbage seen (n ∷ ns) (find_allocated (n ∷ seen) ns v)
      ≡ free_nodes garbage (n ∷ seen) ns v
unfolding free_nodes free_result
result_seen garbage seen n ns v = elim (Option-cases (find_allocated (n ∷ seen) ns v)) [
  | inl e ↦ rw e
  | inr (k, e) ↦ rw e
]

free_nodes-Allocs :
    {k new v : ℕ} {ns ns' : List Node} (garbage : Bool) (pos : ℕ) (seen : List Node)
    → 0 < k
    → Allocs k new ns ns' v
    → Chain pos (last_free seen) ns
    → NoEmptyBlock ns
    → regions (free_nodes garbage seen ns' v) ≡ regions (rejoin seen ns)
unfolding free_nodes find_allocated
free_nodes-Allocs {k} {new} garbage pos seen lt (here n ns f) h ne =
    let top : n.start + n.size ≤ region_end =
      omega (arith, Chain-le (pos + n.size) (not n.allocated) ns h.3) in
    let s : Split n k new = fits-Split n k new top f in
    free_nodes-taken garbage seen ns n k new s top (ground (arith, s.was_free))
free_nodes-Allocs {k} {new} {v} garbage pos seen lt (there {ns} {ns'} n f al) h ne =
    let ih = free_nodes-Allocs garbage (pos + n.size) (n ∷ seen) lt al h.3 ne.1 in
    let miss : (n.start == v && n.allocated) ≡ false =
      starts_before n v pos k h.0 ne.0 (Allocs-bounds (pos + n.size) (not n.allocated) al h.3).0 in
    ap (λ o. regions (free_result garbage seen (n ∷ ns') o)) (if_false _ _ miss)
    ∙ ap regions (result_seen garbage seen n ns' v)
    ∙ ih

free_vspace-nodes :
    (m : MemMap) (vaddr : ℕ)
    → (free_vspace m vaddr).nodes ≡ free_nodes m.head_allocated [] m.nodes vaddr
unfolding free_vspace free_nodes free_result free_region
free_vspace-nodes m vaddr = elim (Option-cases (find_allocated [] m.nodes vaddr)) [
  | inl e ↦ ground arith
  | inr (k, e) ↦ ground arith
]

-- On a valid map with no empty block, an allocation of at least one page that succeeds and is at
-- once released leaves the regions as they were: starts, sizes and which of them are allocated.
pub free_vspace-alloc_vspace :
    (m m' : MemMap) (k new v : ℕ)
    → IsValid m
    → NoEmptyBlock m.nodes
    → 0 < k
    → alloc_vspace m k new ≡ some (m', v)
    → regions (free_vspace m' v).nodes ≡ regions m.nodes
free_vspace-alloc_vspace m m' k new v h ne lt e =
    ap regions (free_vspace-nodes m' v)
    ∙ free_nodes-Allocs m'.head_allocated region_start [] lt (alloc_vspace-Allocs m m' k new v e) h
        ne
