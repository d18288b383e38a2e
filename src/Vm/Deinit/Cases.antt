-- ===== src/Vm/Deinit/Cases.antt =====
-- `petmem_deinit_process` of VMproject/on_demand.c: the loop ends well on a list with nothing allocated,
-- and on no other.
use mathlib.Core.Bool.{false≢true}
use cs.Prelude.{
  ℕ, ◌+◌, ◌≡◌, ◌≢◌, refl, ◌∙◌, true, false, not, ◌||◌, inl, inr, Bool, some, ◌⊎◌, none, List, [],
  ◌∷◌, arith, Bool-cases, All, length, u64,
}
use cs.Vm.PageTable.{Kernel, Paging}
use cs.Vm.MemMap.{region_start, Node, MemMap, free_region}
use cs.Vm.MemMap.First.{map_of, free_region-held, free_region-loose}
use cs.Vm.MemMap.Chain.{Chain, IsValid}
use cs.Vm.Release.{Swept, swept, oops, release_pages}
use cs.Vm.Deinit.{
  Outcome, done, fault, out_of_fuel, ◌>>=◌, list_del, first_at, node_at, after_walk, free_block,
  unlink, deinit_step, deinit_loop, deinit_process,
}

abbrev pub any_allocated : List Node → Bool
any_allocated [] = false
any_allocated (n ∷ ns) = n.allocated || any_allocated ns

abbrev pub LastFree : List Node → Type 0
LastFree [] = ⊥
LastFree (n ∷ []) = n.allocated ≡ false
LastFree (n ∷ m ∷ ns) = LastFree (m ∷ ns)

abbrev pub NotAt : ℕ → List Node → Type 0
NotAt p = All (λ n. n.at ≢ p)

-- The nodes stand at different addresses.
abbrev pub Distinct : List Node → Type 0
Distinct [] = Unit
Distinct (n ∷ ns) = NotAt n.at ns × Distinct ns

list_del-NotAt : (p : ℕ) (ns : List Node) → NotAt p ns → list_del p ns ≡ none
unfolding list_del
list_del-NotAt p [] h = refl
list_del-NotAt p (n ∷ ns) h = ground (arith, h.0, list_del-NotAt p ns h.1)

list_del-head : (n : Node) (ns : List Node) → list_del n.at (n ∷ ns) ≡ some ns
unfolding list_del
list_del-head n ns = ground arith

-- The kernel stops, or the walk of the page tables has not ended in its turns.
abbrev pub NeverReturns : Outcome → Type 0
NeverReturns o = (o ≡ fault) ⊎ (o ≡ out_of_fuel)

after_walk-then :
    (map : MemMap) (s : Paging) (w : Swept) (f : MemMap → Paging → Outcome)
    → ((s' : Paging) → NeverReturns (f map s'))
    → NeverReturns (after_walk map s w >>= f)
after_walk-then map s (swept w) f h = h (record s { mem = w.mem })
after_walk-then map s oops f h = inl refl
after_walk-then map s cs.Vm.Release.out_of_fuel f h = inr refl

Chain-LastFree :
    (pos : ℕ) (n : Node) (ns : List Node) (free : Bool)
    → Chain pos free (n ∷ ns)
    → LastFree (n ∷ ns)
Chain-LastFree pos n [] free h = ground (arith, h.3.1)
Chain-LastFree pos n (m ∷ ns) free h = Chain-LastFree (pos + n.size) m ns (not n.allocated) h.3

Chain-any : (pos : ℕ) (ns : List Node) → Chain pos false ns → LastFree ns
Chain-any pos [] h = absurd (false≢true h.1)
Chain-any pos (n ∷ ns) h = Chain-LastFree pos n ns false h

bind_assoc :
    (o : Outcome) (f g : MemMap → Paging → Outcome)
    → ((o >>= f) >>= g) ≡ (o >>= λ map s. f map s >>= g)
bind_assoc (done map s) f g = refl
bind_assoc fault f g = refl
bind_assoc out_of_fuel f g = refl

module _ (fuel : ℕ) (k : Kernel) (garbage : Bool) where
  abbrev loop : List Node → Paging → Outcome
  loop ns s = deinit_loop (length ns) fuel k (map_of garbage ns) s (first_at ns)

  loop-cons :
      (n : Node) (ns : List Node) (s : Paging)
      → loop (n ∷ ns) s ≡ (
          deinit_step fuel k (map_of garbage (n ∷ ns)) s n.at n >>= λ map' s'.
          deinit_loop (length ns) fuel k map' s' (first_at ns))
  unfolding deinit_loop node_at
  loop-cons n ns s = ground arith

  -- A free node is unlinked, and the cursor goes on.
  loop-free :
      (n : Node) (ns : List Node) (s : Paging) → n.allocated ≡ false → loop (n ∷ ns) s ≡ loop ns s
  unfolding deinit_step list_del
  loop-free n ns s e = loop-cons n ns s ∙ ground arith

  -- The body of the loop for an allocated node, of which the list part of the release leaves `ns`.
  step-allocated :
      (n : Node) (map : MemMap) (ns : List Node) (s : Paging)
      → n.allocated ≡ true
      → free_region map n.start ≡ some (map_of garbage ns, n.start, n.size)
      → deinit_step fuel k map s n.at n
        ≡ (after_walk (map_of garbage ns) s (release_pages fuel k s n.start n.size) >>= unlink n.at)
  unfolding deinit_step free_block
  step-allocated n map ns s e f = rw (e, free_block, f) refl

  -- So is an allocated node with an allocated one behind it, if the walk ends.
  loop-held :
      (n m : Node) (ns : List Node) (s : Paging)
      → n.allocated ≡ true
      → m.allocated ≡ true
      → ((s' : Paging) → NeverReturns (loop (m ∷ ns) s'))
      → NeverReturns (loop (n ∷ m ∷ ns) s)
  loop-held n m ns s e f h =
      let left = record n { allocated = false } ∷ m ∷ ns in
      let step =
        step-allocated n (map_of garbage (n ∷ m ∷ ns)) left s e
          (free_region-held garbage n m ns e f) in
      rw (loop-cons n (m ∷ ns) s, step, bind_assoc)
        (after_walk-then (map_of garbage left) s (release_pages fuel k s n.start n.size) _
          (λ s'. rw (◌>>=◌, list_del-head (record n { allocated = false }) (m ∷ ns)) (h s')))

  -- An allocated node with a free one behind it is gone when `list_del` comes to it.
  loop-loose :
      (n m : Node) (ns : List Node) (s : Paging)
      → n.allocated ≡ true
      → m.allocated ≡ false
      → NotAt n.at (m ∷ ns)
      → NeverReturns (loop (n ∷ m ∷ ns) s)
  loop-loose n m ns s e f d =
      let left = record m { start = n.start; size = u64 (m.size + n.size) } ∷ ns in
      let step =
        step-allocated n (map_of garbage (n ∷ m ∷ ns)) left s e
          (free_region-loose garbage n m ns e f) in
      rw (loop-cons n (m ∷ ns) s, step, bind_assoc)
        (after_walk-then (map_of garbage left) s (release_pages fuel k s n.start n.size) _
          (λ s'. rw (◌>>=◌, list_del-NotAt n.at left d) (inl refl)))

  loop-all_free :
      (ns : List Node) (s : Paging)
      → any_allocated ns ≡ false
      → loop ns s ≡ done (map_of garbage []) s
  unfolding deinit_loop
  loop-all_free [] s h = refl
  loop-all_free (n ∷ ns) s h = loop-free n ns s (ground arith) ∙ loop-all_free ns s (ground arith)

  loop-allocated :
      (ns : List Node) (s : Paging)
      → Distinct ns
      → LastFree ns
      → any_allocated ns ≡ true
      → NeverReturns (loop ns s)
  loop-allocated [] s d l h = absurd (false≢true h)
  loop-allocated (n ∷ []) s d l h = absurd (ground (arith, l, h))
  loop-allocated (n ∷ m ∷ ns) s d l h = elim (Bool-cases n.allocated) [
    | inr loose ↦ rw (loop-free n (m ∷ ns) s loose) (loop-allocated (m ∷ ns) s d.1 l (ground arith))
    | inl held ↦ elim (Bool-cases m.allocated) [
      | inl held' ↦
          loop-held n m ns s held held' (λ s'. loop-allocated (m ∷ ns) s' d.1 l (ground arith))
      | inr loose ↦ loop-loose n m ns s held loose d.0
    ]
  ]

-- On a valid map whose nodes stand at different addresses, `petmem_deinit_process` empties the list and
-- leaves the page tables as they were if no block is allocated. If some block is, it never returns,
-- whatever the page tables are: the kernel stops, at a NULL pointer in the walk of a release or at a
-- node that is unlinked twice, or a walk has not ended in the turns that it is given.
pub deinit_process-cases :
    (fuel : ℕ) (k : Kernel) (map : MemMap) (s : Paging)
    → IsValid map
    → Distinct map.nodes
    → ((any_allocated map.nodes ≡ false)
        × (deinit_process fuel k map s ≡ done (record map { nodes = [] }) s))
      ⊎ ((any_allocated map.nodes ≡ true)
          × ((deinit_process fuel k map s ≡ fault) ⊎ (deinit_process fuel k map s ≡ out_of_fuel)))
unfolding deinit_process
deinit_process-cases fuel k map s h d = elim (Bool-cases (any_allocated map.nodes)) [
  | inl e ↦ inr (
    e,
    loop-allocated fuel k map.head_allocated map.nodes s d (Chain-any region_start map.nodes h) e,
  )
  | inr e ↦ inl (e, loop-all_free fuel k map.head_allocated map.nodes s e)
]
