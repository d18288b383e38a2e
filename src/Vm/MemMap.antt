-- ===== src/Vm/MemMap.antt =====
-- VMproject/on_demand.c and on_demand.h: the list of `struct mem_map` nodes that describes a
-- process's virtual region. A node carries its address (`at`), which is what the code's pointers
-- compare; the list links are the order of the nodes. `kmalloc` is outside: the address that it
-- returns is an argument.
pub mod Chain
pub mod Alloc
pub mod Free
pub mod First
pub mod Mapped
pub mod Unmapped
pub mod Valid
pub mod RoundTrip
mod Tests
use mathlib.Core.Option
use cs.Prelude.{
  ℕ, zero, suc, ◌+◌, ◌-◌, ◌*◌, ◌/◌, Bool, true, false, not, ◌&&◌, Option, none, some, List, [], ◌∷◌,
  ltb, leb, ◌==◌, if◌then◌else◌, length, rejoin, u64, u64_sub,
}

abbrev pub region_start : ℕ
region_start = 0x1000000000

abbrev pub region_end : ℕ
region_end = 0x3000000000

abbrev pub page_size : ℕ
page_size = 4096

-- A node other than the list head; `head` is 0 in all of these.
pub record Node : Type 0 where
  pub at : ℕ
  pub start : ℕ
  pub size : ℕ
  pub allocated : Bool

-- The node `map0` that only heads the list. The code sets its `head` and its link, and leaves
-- `allocated` as `kmalloc` found it.
pub record MemMap : Type 0 where
  pub head_allocated : Bool
  pub nodes : List Node

-- `petmem_init_process`: `garbage` is what the fresh `map0->allocated` holds.
unfoldable pub init_process : (garbage : Bool) (map : ℕ) → MemMap
init_process garbage map = record {
  head_allocated = garbage;
  nodes =
      record {
        at = map;
        start = region_start;
        size = u64 (region_end - region_start);
        allocated = false;
      }
      ∷ [];
}

unfoldable pub covers : Node → ℕ → Bool
covers n vaddr = n.allocated && (leb n.start vaddr && ltb vaddr (u64 (n.start + n.size)))

unfoldable pub find_node : List Node → ℕ → Option Node
unfolding covers
find_node [] vaddr = none
find_node (n ∷ ns) vaddr = if covers n vaddr then some n else find_node ns vaddr

-- `petmem_find_address`: `none` is NULL.
unfoldable pub find_address : MemMap → ℕ → Option Node
find_address map vaddr = find_node map.nodes vaddr

pub fits : Node → ℕ → Bool
fits n num_pages = not n.allocated && leb num_pages (n.size / page_size)

-- The node taken for an allocation, and the node made of what is left of it.
pub taken : Node → ℕ → Node
taken n num_pages = record n { size = u64 (page_size * num_pages); allocated = true }

pub left_over : Node → ℕ → ℕ → Node
unfolding taken
left_over n num_pages new_map = record {
  at = new_map;
  start = u64 (n.start + (taken n num_pages).size);
  size = u64_sub n.size (taken n num_pages).size;
  allocated = false;
}

-- The first fit. `none` when the loop ends at the head.
pub alloc_nodes : List Node → ℕ → ℕ → Option (List Node × ℕ)
unfolding fits left_over
alloc_nodes [] num_pages new_map = none
alloc_nodes (n ∷ ns) num_pages new_map =
    if fits n num_pages
    then some (taken n num_pages ∷ left_over n num_pages new_map ∷ ns, n.start)
    else Option.map (λ r. (n ∷ r.0, r.1)) (alloc_nodes ns num_pages new_map)

-- `petmem_alloc_vspace`: `none` is NULL, with the map as it was.
unfoldable pub alloc_vspace : MemMap → ℕ → ℕ → Option (MemMap × ℕ)
unfolding alloc_nodes
alloc_vspace map num_pages new_map =
    Option.map (λ r. (record map { nodes = r.0 }, r.1)) (alloc_nodes map.nodes num_pages new_map)

-- A place in the list: the nodes before the cursor, nearest first, and those after it.
pub record Cut : Type 0 where
  pub before : List Node
  pub cursor : Node
  pub after : List Node

-- The search of `petmem_free_vspace`; `none` is its `found==0`.
pub find_allocated : List Node → List Node → ℕ → Option Cut
find_allocated seen [] vaddr = none
find_allocated seen (n ∷ ns) vaddr =
    if n.start == vaddr && n.allocated
    then some (record { before = seen; cursor = n; after = ns })
    else find_allocated (n ∷ seen) ns vaddr

-- `Combine with cursor_prev`: the list head is never combined with.
pub merge_prev : List Node → Node → List Node × Node
merge_prev [] c = ([], c)
merge_prev (p ∷ ps) c =
    if p.allocated then (p ∷ ps, c) else (ps, record p { size = u64 (p.size + c.size) })

-- The test `cursor_next!=cursor_prev` for a cursor that is the last node: then the next is the
-- list head, and so is the previous one if the cursor was the only node.
pub has_prev : List Node → Bool
has_prev [] = false
has_prev (p ∷ ps) = true

-- `combine with cursor_next`. Past the last node it is `map0->allocated` that is read, and a
-- cursor that is combined with the list head is gone.
pub merge_next : Bool → Bool → List Node × Node → List Node → List Node
merge_next head_allocated prev (before, c) [] =
    if not head_allocated && prev then rejoin before [] else rejoin before (c ∷ [])
merge_next head_allocated prev (before, c) (n ∷ ns) =
    if n.allocated
    then rejoin before (c ∷ n ∷ ns)
    else rejoin before (record n { start = c.start; size = u64 (n.size + c.size) } ∷ ns)

pub release : Bool → Cut → List Node
unfolding merge_prev has_prev merge_next
release head_allocated k =
    merge_next head_allocated (has_prev k.before)
      (merge_prev k.before (record (k.cursor) { allocated = false })) k.after

-- What `petmem_free_vspace` does to the list, with the `free_start` and `free_size` that it hands
-- to the walk of the page tables; `none` is its return for an address that is not mapped.
unfoldable pub free_region : MemMap → ℕ → Option (MemMap × ℕ × ℕ)
unfolding find_allocated release
free_region map vaddr =
    Option.map
      (λ (k : Cut).
        (record map { nodes = release map.head_allocated k }, k.cursor.start, k.cursor.size))
      (find_allocated [] map.nodes vaddr)

-- The map after `petmem_free_vspace`.
unfoldable pub free_vspace : MemMap → ℕ → MemMap
unfolding free_region
free_vspace map vaddr = elim (free_region map vaddr) [ none ↦ map | some r ↦ r.0 ]
