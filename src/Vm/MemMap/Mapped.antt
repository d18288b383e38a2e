-- ===== src/Vm/MemMap/Mapped.antt =====
-- Which addresses the node list of VMproject/on_demand.c covers, and how an allocation and a
-- release change that.
use cs.Prelude.{
  ℕ, ◌+◌, ◌*◌, ◌≤◌, ◌<◌, ◌≡◌, refl, true, false, not, ◌&&◌, ◌||◌, Bool, some, none, List, [], ◌∷◌,
  arith, Option, u64-eq_of_lt, rejoin, ltb, leb,
}
use cs.Vm.MemMap.{
  region_end, page_size, Node, MemMap, covers, find_node, find_address, fits, taken, left_over,
}
use cs.Vm.MemMap.Chain.{Chain, ChainTo, Chain-le}
use cs.Vm.MemMap.Alloc.{Allocs, here, there, Split, fits-Split}

abbrev pub is_some {ℓ} : {A : Type ℓ} → Option A → Bool
is_some none = false
is_some (some a) = true

-- Does some allocated node cover the address?
abbrev pub is_mapped : MemMap → ℕ → Bool
is_mapped map a = is_some (find_address map a)

-- Is the address among the `size` bytes from `start` on?
abbrev pub within : ℕ → ℕ → ℕ → Bool
within start size a = leb start a && ltb a (start + size)

abbrev pub any_covers : List Node → ℕ → Bool
any_covers [] a = false
any_covers (n ∷ ns) a = covers n a || any_covers ns a

pub find_node-any_covers : (ns : List Node) (a : ℕ) → is_some (find_node ns a) ≡ any_covers ns a
unfolding find_node
find_node-any_covers [] a = refl
find_node-any_covers (n ∷ ns) a = ground (arith, find_node-any_covers ns a)

pub covers-within :
    (n : Node) (a : ℕ)
    → n.start + n.size ≤ region_end
    → covers n a ≡ (n.allocated && within n.start n.size a)
unfolding covers
covers-within n a h = rw (u64-eq_of_lt (n.start + n.size) (omega arith))

pub covers-free : (n : Node) (a : ℕ) → n.allocated ≡ false → covers n a ≡ false
unfolding covers
covers-free n a h = rw h

-- Nodes from a position on cover nothing before it, and those up to it nothing after.
pub Chain-below :
    (pos : ℕ) (free : Bool) (ns : List Node) (a : ℕ)
    → Chain pos free ns
    → a < pos
    → any_covers ns a ≡ false
Chain-below pos free [] a h lt = refl
Chain-below pos free (n ∷ ns) a h lt = ground (
  arith,
  covers-within n a,
  Chain-le (pos + n.size) (not n.allocated) ns h.3,
  Chain-below (pos + n.size) (not n.allocated) ns a h.3,
)

pub ChainTo-above :
    (pos : ℕ) (ps : List Node) (a : ℕ)
    → ChainTo pos ps
    → pos ≤ region_end
    → pos ≤ a
    → any_covers ps a ≡ false
ChainTo-above pos [] a h top le = refl
ChainTo-above pos (p ∷ ps) a h top le =
    ground (arith, covers-within p a, ChainTo-above p.start ps a h.3)

pub any_covers-rejoin :
    (before ys : List Node) (a : ℕ)
    → any_covers (rejoin before ys) a ≡ (any_covers before a || any_covers ys a)
any_covers-rejoin [] ys a = refl
any_covers-rejoin (p ∷ ps) ys a = ground (arith, any_covers-rejoin ps (p ∷ ys) a)

-- The block that an allocation returns lies in the rest of the region.
pub Allocs-bounds :
    {k new v : ℕ} {ns ns' : List Node} (pos : ℕ) (free : Bool)
    → Allocs k new ns ns' v
    → Chain pos free ns
    → (pos ≤ v) × (v + page_size * k ≤ region_end)
Allocs-bounds {k} {new} pos free (here n ns f) h =
    let top = Chain-le (pos + n.size) (not n.allocated) ns h.3 in
    let s : Split n k new = fits-Split n k new (omega arith) f in
    (omega arith, omega (arith, s.within))
Allocs-bounds pos free (there n f a) h =
    let b = Allocs-bounds (pos + n.size) (not n.allocated) a h.3 in (omega (arith, b.0), b.1)

end_of :
    (n : Node) (ns : List Node) (pos : ℕ) (free : Bool)
    → Chain pos free (n ∷ ns)
    → n.start + n.size ≤ region_end
end_of n ns pos free h = omega (arith, Chain-le (pos + n.size) (not n.allocated) ns h.3)

fitting :
    (n : Node) (ns : List Node) (k new pos : ℕ) (free : Bool)
    → Chain pos free (n ∷ ns)
    → fits n k ≡ true
    → Split n k new
fitting n ns k new pos free h f = fits-Split n k new (end_of n ns pos free h) f

left_over-free : (n : Node) (k new : ℕ) → (left_over n k new).allocated ≡ false
unfolding left_over
left_over-free n k new = refl

covers-taken :
    (n : Node) (k new a : ℕ)
    → Split n k new
    → n.start + n.size ≤ region_end
    → covers (taken n k) a ≡ within n.start (page_size * k) a
unfolding taken covers
covers-taken n k new a s top =
    rw (s.size_taken, u64-eq_of_lt (n.start + page_size * k) (omega (arith, s.within)))

pub Allocs-any_covers :
    {k new v : ℕ} {ns ns' : List Node} (pos : ℕ) (free : Bool)
    → Allocs k new ns ns' v
    → Chain pos free ns
    → (a : ℕ) → any_covers ns' a ≡ (any_covers ns a || within v (page_size * k) a)
Allocs-any_covers {k} {new} pos free (here n ns f) h a =
    let s = fitting n ns k new pos free h f in
    ground (
      arith,
      covers-taken n k new a s (end_of n ns pos free h),
      covers-free n a s.was_free,
      covers-free (left_over n k new) a (left_over-free n k new),
    )
Allocs-any_covers pos free (there n f al) h a =
    ground (arith, Allocs-any_covers (pos + n.size) (not n.allocated) al h.3 a)

pub Allocs-fresh :
    {k new v : ℕ} {ns ns' : List Node} (pos : ℕ) (free : Bool)
    → Allocs k new ns ns' v
    → Chain pos free ns
    → (a : ℕ) → within v (page_size * k) a ≡ true
    → any_covers ns a ≡ false
Allocs-fresh {k} {new} pos free (here n ns f) h a w =
    let s = fitting n ns k new pos free h f in
    ground (
      arith,
      covers-free n a s.was_free,
      s.within,
      Chain-below (pos + n.size) (not n.allocated) ns a h.3,
    )
Allocs-fresh {k} {new} {v} pos free (there {ns} {ns'} n f al) h a w = ground (
  arith,
  end_of n ns pos free h,
  covers-within n a,
  Allocs-bounds (pos + n.size) (not n.allocated) al h.3,
  Allocs-fresh (pos + n.size) (not n.allocated) al h.3 a,
)
