-- ===== src/Vm/MemMap/Alloc.antt =====
-- The search of `petmem_alloc_vspace` in VMproject/on_demand.c: which node a successful run takes,
-- and that the list stays a chain.
use mathlib.Core.Path.{subst₂}
use cs.Prelude.{
  ℕ, ◌+◌, ◌*◌, ◌≤◌, ◌≡◌, refl, ap, subst, true, false, not, inl, inr, Bool, some, List, [], ◌∷◌,
  arith, Bool-cases, Option-cases, u64, u64_sub, u64-eq_of_lt, u64_sub-eq_of_le,
}
use cs.Vm.MemMap.{region_end, page_size, Node, fits, taken, left_over, alloc_nodes}
use cs.Vm.MemMap.Chain.{Chain, Chain-le}

-- What a fitting free node is split into, with the sizes out of the wrap-around.
pub record Split (n : Node) (k new : ℕ) : Type 0 where
  pub was_free : n.allocated ≡ false
  pub within : page_size * k ≤ n.size
  pub size_taken : (taken n k).size ≡ page_size * k
  pub start_left : (left_over n k new).start ≡ n.start + page_size * k
  pub size_left : (left_over n k new).size + page_size * k ≡ n.size

fits-within :
    (n : Node) (k : ℕ) → fits n k ≡ true → (n.allocated ≡ false) × (page_size * k ≤ n.size)
unfolding fits
fits-within n k h = ground arith

pub fits-Split :
    (n : Node) (k new : ℕ) → n.start + n.size ≤ region_end → fits n k ≡ true → Split n k new
unfolding taken left_over
fits-Split n k new b h =
    let (f, w) = fits-within n k h in
    let e : u64 (page_size * k) ≡ page_size * k = u64-eq_of_lt (page_size * k) (omega arith) in
    record {
      was_free = f;
      within = w;
      size_taken = e;
      start_left = rw e (u64-eq_of_lt (n.start + page_size * k) (omega arith));
      size_left =
          omega
            (arith, ap (u64_sub n.size) e, u64_sub-eq_of_le n.size (page_size * k) w (omega arith));
    }

-- A run of the search for a fit that succeeds: which node it takes.
pub data Allocs (k new : ℕ) : List Node → List Node → ℕ → Type 0 where
  here :
      (n : Node) (ns : List Node)
      → fits n k ≡ true
      → Allocs k new (n ∷ ns) (taken n k ∷ left_over n k new ∷ ns) n.start
  there :
      {ns ns' : List Node} {v : ℕ} (n : Node)
      → fits n k ≡ false
      → Allocs k new ns ns' v
      → Allocs k new (n ∷ ns) (n ∷ ns') v

pub alloc_nodes-Allocs :
    (k new : ℕ) (ns : List Node) (r : List Node × ℕ)
    → alloc_nodes ns k new ≡ some r
    → Allocs k new ns r.0 r.1
unfolding alloc_nodes
alloc_nodes-Allocs k new [] r e = cc
alloc_nodes-Allocs k new (n ∷ ns) r e = elim (Bool-cases (fits n k)) [
  | inl hit ↦
      subst (λ (q : List Node × ℕ). Allocs k new (n ∷ ns) q.0 q.1) (ground arith) (here n ns hit)
  | inr miss ↦ elim (Option-cases (alloc_nodes ns k new)) [
    | inl f ↦ ground arith
    | inr (q, f) ↦
        subst (λ (q : List Node × ℕ). Allocs k new (n ∷ ns) q.0 q.1) (ground arith)
          (there n miss (alloc_nodes-Allocs k new ns q f))
  ]
]

pub Allocs-Chain :
    {k new v : ℕ} {ns ns' : List Node} (pos : ℕ) (free : Bool)
    → Allocs k new ns ns' v
    → Chain pos free ns
    → Chain pos free ns'
unfolding taken left_over
Allocs-Chain {k} {new} pos free (here n ns f) h =
    let s : Split n k new =
      fits-Split n k new (omega (arith, Chain-le (pos + n.size) (not n.allocated) ns h.3)) f in
    (
      h.0,
      omega (arith, s.size_taken),
      ground arith,
      (
        omega (arith, s.start_left, s.size_taken),
        omega (arith, s.size_left),
        refl,
        subst₂ (λ p b. Chain p b ns) (omega (arith, s.size_taken, s.size_left)) (rw s.was_free) h.3,
      ),
    )
Allocs-Chain pos free (there n f a) h =
    (h.0, h.1, h.2, Allocs-Chain (pos + n.size) (not n.allocated) a h.3)
