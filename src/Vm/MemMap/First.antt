-- ===== src/Vm/MemMap/First.antt =====
-- The list part of `petmem_free_vspace` in VMproject/on_demand.c, for the first block of the list.
use cs.Prelude.{◌+◌, ◌≡◌, true, false, Bool, some, List, ◌∷◌, arith, u64}
use cs.Vm.MemMap.{Node, MemMap, find_allocated, release, merge_prev, merge_next, free_region}

abbrev pub map_of : Bool → List Node → MemMap
map_of garbage xs = record { head_allocated = garbage; nodes = xs }

module _ (garbage : Bool) (n m : Node) (ns : List Node) (held : n.allocated ≡ true) where
  -- An allocated node with an allocated one behind it is combined with nothing.
  pub free_region-held :
      m.allocated ≡ true
      → free_region (map_of garbage (n ∷ m ∷ ns)) n.start
        ≡ some (map_of garbage (record n { allocated = false } ∷ m ∷ ns), n.start, n.size)
  unfolding free_region find_allocated release merge_prev merge_next
  free_region-held e = ground arith

  -- With a free one behind it, it is gone.
  pub free_region-loose :
      m.allocated ≡ false
      → free_region (map_of garbage (n ∷ m ∷ ns)) n.start
        ≡ some (
          map_of garbage (record m { start = n.start; size = u64 (m.size + n.size) } ∷ ns),
          n.start,
          n.size,
        )
  unfolding free_region find_allocated release merge_prev merge_next
  free_region-loose e = ground arith
