-- ===== src/Vm/MemMap/Chain.antt =====
-- The invariant of the node list of VMproject/on_demand.c: the nodes tile the region in order, in
-- whole pages, with no two free neighbours and a free node at the end.
use cs.Prelude.{
  ℕ, ◌+◌, ◌%◌, ◌≤◌, ◌≡◌, refl, sym, subst, Bool, true, false, not, ◌&&◌, List, [], ◌∷◌, arith,
  rejoin,
}
use cs.Vm.MemMap.{region_start, region_end, page_size, Node, MemMap}

-- The nodes from a position to the end of the region; `free` tells whether a free node precedes.
abbrev pub Chain : ℕ → Bool → List Node → Type 0
Chain pos free [] = (pos ≡ region_end) × (free ≡ true)
Chain pos free (n ∷ ns) =
    (n.start ≡ pos)
    × (n.size % page_size ≡ 0)
    × ((free && not n.allocated) ≡ false)
    × Chain (pos + n.size) (not n.allocated) ns

abbrev pub last_free : List Node → Bool
last_free [] = false
last_free (p ∷ ps) = not p.allocated

-- The nodes from the start of the region to a position, nearest first.
abbrev pub ChainTo : ℕ → List Node → Type 0
ChainTo pos [] = pos ≡ region_start
ChainTo pos (p ∷ ps) =
    (p.start + p.size ≡ pos)
    × (p.size % page_size ≡ 0)
    × ((last_free ps && not p.allocated) ≡ false)
    × ChainTo p.start ps

abbrev pub IsValid : MemMap → Type 0
IsValid map = Chain region_start false map.nodes

pub Chain-le : (pos : ℕ) (free : Bool) (ns : List Node) → Chain pos free ns → pos ≤ region_end
Chain-le pos free [] h = omega arith
Chain-le pos free (n ∷ ns) h = omega (arith, Chain-le (pos + n.size) (not n.allocated) ns h.3)

pub Chain-rejoin :
    (pos : ℕ) (before ys : List Node)
    → ChainTo pos before
    → Chain pos (last_free before) ys
    → Chain region_start false (rejoin before ys)
Chain-rejoin pos [] ys b h = subst (λ p. Chain p false ys) b h
Chain-rejoin pos (p ∷ ps) ys b h =
    Chain-rejoin p.start ps (p ∷ ys) b.3
      (refl, b.1, b.2, subst (λ q. Chain q (not p.allocated) ys) (sym b.0) h)
