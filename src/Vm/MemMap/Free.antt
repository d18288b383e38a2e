-- ===== src/Vm/MemMap/Free.antt =====
-- The list part of `petmem_free_vspace` in VMproject/on_demand.c: what its search finds, and that
-- the list stays a chain when the node is combined with its free neighbours.
use mathlib.Core.Path.{subst₂}
use mathlib.Core.Bool.{false≢true}
use cs.Prelude.{
  ℕ, ◌+◌, ◌%◌, ◌≡◌, refl, sym, ap, subst, true, false, not, ◌&&◌, ◌==◌, inl, inr, Bool, some, List,
  [], ◌∷◌, arith, Bool-cases, u64, u64-eq_of_lt, rejoin, if_true, if_false, ◌∙◌,
}
use cs.Vm.MemMap.{
  region_start, page_size, Node, Cut, find_allocated, merge_prev, has_prev, merge_next, release,
}
use cs.Vm.MemMap.Chain.{Chain, ChainTo, last_free, Chain-le, Chain-rejoin}

-- A cut of a chain at an allocated node.
pub record IsCut (vaddr : ℕ) (k : Cut) : Type 0 where
  pub starts : k.cursor.start ≡ vaddr
  pub was_allocated : k.cursor.allocated ≡ true
  pub reaches : ChainTo k.cursor.start k.before
  pub goes_on : Chain k.cursor.start (last_free k.before) (k.cursor ∷ k.after)

found :
    (n : Node) (seen ns : List Node) (vaddr : ℕ)
    → n.start ≡ vaddr
    → n.allocated ≡ true
    → (pos : ℕ) → ChainTo pos seen
    → Chain pos (last_free seen) (n ∷ ns)
    → IsCut vaddr (record { before = seen; cursor = n; after = ns })
found n seen ns vaddr e a pos b h = record {
  starts = e;
  was_allocated = a;
  reaches = subst (λ q. ChainTo q seen) (sym h.0) b;
  goes_on = (refl, h.1, h.2, subst (λ q. Chain (q + n.size) (not n.allocated) ns) (sym h.0) h.3);
}

pub find_allocated-IsCut :
    (pos : ℕ) (seen ns : List Node) (vaddr : ℕ) (k : Cut)
    → ChainTo pos seen
    → Chain pos (last_free seen) ns
    → find_allocated seen ns vaddr ≡ some k
    → IsCut vaddr k
unfolding find_allocated
find_allocated-IsCut pos seen [] vaddr k b h e = cc
find_allocated-IsCut pos seen (n ∷ ns) vaddr k b h e =
    elim (Bool-cases (n.start == vaddr && n.allocated)) [
      | inl hit ↦
          subst (IsCut vaddr) (ground arith)
            (found n seen ns vaddr (ground arith) (ground arith) pos b h)
      | inr miss ↦
          find_allocated-IsCut (pos + n.size) (n ∷ seen) ns vaddr k
            (omega arith, h.1, h.2, subst (λ q. ChainTo q seen) (sym h.0) b) h.3 (ground arith)
    ]

-- The nodes before the cursor and the cursor once it is combined with a free node before it.
pub record Merged (after : List Node) (m : List Node × Node) : Type 0 where
  pub reaches : ChainTo m.1.start m.0
  pub paged : m.1.size % page_size ≡ 0
  pub is_free : m.1.allocated ≡ false
  pub apart : last_free m.0 ≡ false
  pub goes_on : Chain (m.1.start + m.1.size) false after

merge_prev-Merged :
    (before after : List Node) (c : Node)
    → ChainTo c.start before
    → Chain c.start (last_free before) (c ∷ after)
    → c.allocated ≡ true
    → Merged after (merge_prev before (record c { allocated = false }))
unfolding merge_prev
merge_prev-Merged [] after c b h a = record {
  reaches = b;
  paged = h.1;
  is_free = refl;
  apart = refl;
  goes_on = subst (λ q. Chain (c.start + c.size) (not q) after) a h.3;
}
merge_prev-Merged (p ∷ ps) after c b h a = elim (Bool-cases p.allocated) [
  | inl held ↦ subst (Merged after) (sym (if_true _ _ held)) (record {
    reaches = b;
    paged = h.1;
    is_free = refl;
    apart = ap not held;
    goes_on = subst (λ q. Chain (c.start + c.size) (not q) after) a h.3;
  })
  | inr loose ↦
      let e : u64 (p.size + c.size) ≡ p.size + c.size =
        u64-eq_of_lt _ (omega (arith, Chain-le (c.start + c.size) (not c.allocated) after h.3)) in
      subst (Merged after) (sym (if_false _ _ loose ∙ ap (λ z. (ps, record p { size = z })) e))
        (record {
          reaches = b.3;
          paged = omega (arith, b.1, h.1);
          is_free = loose;
          apart = ground arith;
          goes_on = subst₂ (λ q r. Chain q (not r) after) (omega arith) a h.3;
        })
]

merge_next-Chain :
    (garbage prev : Bool) (m : List Node × Node) (after : List Node)
    → Merged after m
    → Chain region_start false (merge_next garbage prev m after)
unfolding merge_next
merge_next-Chain garbage prev (before, c) [] m = absurd (false≢true m.goes_on.1)
merge_next-Chain garbage prev (before, c) (n ∷ ns) m = elim (Bool-cases n.allocated) [
  | inl held ↦ subst (Chain region_start false) (sym (if_true _ _ held)) (
      Chain-rejoin c.start before (c ∷ n ∷ ns) m.reaches
        (refl, m.paged, rw m.apart, (m.goes_on.0, m.goes_on.1, ground arith, m.goes_on.3)))
  | inr loose ↦
      let e : u64 (n.size + c.size) ≡ n.size + c.size =
        u64-eq_of_lt _ (omega (arith, Chain-le _ _ ns m.goes_on.3)) in
      subst (λ q. Chain region_start false q)
        (sym (
          if_false _ _ loose
          ∙ ap (λ z. rejoin before (record n { start = c.start; size = z } ∷ ns)) e))
        (Chain-rejoin c.start before (_ ∷ ns) m.reaches (
          refl,
          omega (arith, m.paged, m.goes_on.1),
          rw m.apart,
          subst (λ q. Chain q (not n.allocated) ns) (omega arith) m.goes_on.3,
        ))
]

pub release-Chain :
    (garbage : Bool) (vaddr : ℕ) (k : Cut)
    → IsCut vaddr k
    → Chain region_start false (release garbage k)
unfolding release
release-Chain garbage vaddr k c =
    merge_next-Chain garbage (has_prev k.before)
      (merge_prev k.before (record (k.cursor) { allocated = false })) k.after
      (merge_prev-Merged k.before k.after k.cursor c.reaches c.goes_on c.was_allocated)
