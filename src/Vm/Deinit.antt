-- ===== src/Vm/Deinit.antt =====
-- `petmem_deinit_process` of VMproject/on_demand.c, which releases what a process holds when it closes
-- the device: for each allocated block both halves of `petmem_free_vspace`, the list of Vm/MemMap and
-- the page tables of Vm/Release.
pub mod Cases
mod Tests
use mathlib.Core.Option
use cs.Prelude.{ℕ, zero, suc, Option, none, some, List, [], ◌∷◌, ◌==◌, if◌then◌else◌, length}
use cs.Vm.PageTable.{Kernel, Paging}
use cs.Vm.MemMap.{Node, MemMap, free_region}
use cs.Vm.Release.{Sweep, Swept, swept, oops, release_pages}

-- `list_del`: `none` for a node that is in no list, whose links are poison.
pub list_del : ℕ → List Node → Option (List Node)
list_del p [] = none
list_del p (n ∷ ns) = if n.at == p then some ns else Option.map (λ r. n ∷ r) (list_del p ns)

abbrev pub first_at : List Node → Option ℕ
first_at [] = none
first_at (n ∷ ns) = some n.at

-- The node at an address, and the address of the next one; `none` there is the list head.
pub node_at : ℕ → List Node → Option (Node × Option ℕ)
node_at p [] = none
node_at p (n ∷ ns) = if n.at == p then some (n, first_at ns) else node_at p ns

-- The list and the page tables after the call, or a pointer that stops the kernel: NULL in the walk
-- of the page tables, or the poison in a node that is in no list.
pub data Outcome : Type 0 where
  done : MemMap → Paging → Outcome
  fault : Outcome
  out_of_fuel : Outcome

infixl 5 ◌>>=◌
abbrev pub ◌>>=◌ : Outcome → (MemMap → Paging → Outcome) → Outcome
done map s >>= f = f map s
fault >>= f = fault
out_of_fuel >>= f = out_of_fuel

abbrev pub after_walk : MemMap → Paging → Swept → Outcome
after_walk map s (swept w) = done map (record s { mem = w.mem })
after_walk map s oops = fault
after_walk map s cs.Vm.Release.out_of_fuel = out_of_fuel

-- `petmem_free_vspace` with both its halves; the fuel is that of the walk.
pub free_block : ℕ → Kernel → MemMap → Paging → ℕ → Outcome
unfolding free_region
free_block fuel k map s vaddr = elim (free_region map vaddr) [
  | none ↦ done map s
  | some (map', start, size) ↦ after_walk map' s (release_pages fuel k s start size)
]

-- `list_del(&cursor->list)`, for the cursor at an address.
abbrev pub unlink : ℕ → MemMap → Paging → Outcome
unlink p map s = elim (list_del p map.nodes) [
  | none ↦ fault
  | some ns ↦ done (record map { nodes = ns }) s
]

-- The body of the loop, for the node that stands at an address.
pub deinit_step : ℕ → Kernel → MemMap → Paging → ℕ → Node → Outcome
unfolding free_block list_del
deinit_step fuel k map s p n =
    (if n.allocated then free_block fuel k map s n.start else done map s) >>= unlink p

-- The loop from the cursor at an address on.
pub deinit_loop : ℕ → ℕ → Kernel → MemMap → Paging → Option ℕ → Outcome
unfolding node_at deinit_step
deinit_loop turns fuel k map s none = done map s
deinit_loop zero fuel k map s (some p) = out_of_fuel
deinit_loop (suc turns) fuel k map s (some p) = elim (node_at p map.nodes) [
  | none ↦ fault
  | some (n, next) ↦
      deinit_step fuel k map s p n >>= λ map' s'. deinit_loop turns fuel k map' s' next
]

-- One turn for each node is enough.
pub deinit_process : ℕ → Kernel → MemMap → Paging → Outcome
unfolding deinit_loop
deinit_process fuel k map s = deinit_loop (length map.nodes) fuel k map s (first_at map.nodes)
