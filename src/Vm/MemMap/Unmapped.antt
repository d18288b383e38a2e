-- ===== src/Vm/MemMap/Unmapped.antt =====
-- `petmem_free_vspace` in VMproject/on_demand.c: which addresses the node list covers after the
-- found node is combined with its neighbours.
use cs.Prelude.{
  ℕ, ◌+◌, ◌≤◌, ◌<◌, ◌≡◌, refl, sym, ◌∙◌, ap, ap₂, true, false, not, ◌&&◌, ◌||◌, Bool, some, List,
  [], ◌∷◌, arith, rejoin, u64,
}
use cs.Vm.MemMap.{Node, Cut, covers, find_allocated, merge_prev, has_prev, merge_next, release}
use cs.Vm.MemMap.Chain.{Chain-le}
use cs.Vm.MemMap.Free.{IsCut}
use cs.Vm.MemMap.Mapped.{
  any_covers, within, covers-free, covers-within, any_covers-rejoin, Chain-below, ChainTo-above,
}

pub find_allocated-rejoin :
    (seen ns : List Node) (vaddr : ℕ) (k : Cut)
    → find_allocated seen ns vaddr ≡ some k
    → rejoin seen ns ≡ rejoin k.before (k.cursor ∷ k.after)
unfolding find_allocated
find_allocated-rejoin seen [] vaddr k e = cc
find_allocated-rejoin seen (n ∷ ns) vaddr k e =
    ground (arith, find_allocated-rejoin (n ∷ seen) ns vaddr k)

merge_prev-any_covers :
    (before : List Node) (c : Node) (a : ℕ)
    → any_covers (merge_prev before c).0 a ≡ any_covers before a
unfolding merge_prev
merge_prev-any_covers [] c a = refl
merge_prev-any_covers (p ∷ ps) c a = ground (arith, covers-free p a)

merge_prev-free :
    (before : List Node) (c : Node)
    → c.allocated ≡ false
    → (merge_prev before c).1.allocated ≡ false
unfolding merge_prev
merge_prev-free [] c e = e
merge_prev-free (p ∷ ps) c e = ground arith

merge_next-any_covers :
    (garbage prev : Bool) (before : List Node) (c : Node) (after : List Node) (a : ℕ)
    → c.allocated ≡ false
    → any_covers (merge_next garbage prev (before, c) after) a
      ≡ (any_covers before a || any_covers after a)
unfolding merge_next
merge_next-any_covers garbage prev before c [] a e =
    ground
      (arith, any_covers-rejoin before [] a, any_covers-rejoin before (c ∷ []) a, covers-free c a)
merge_next-any_covers garbage prev before c (n ∷ ns) a e = ground (
  arith,
  any_covers-rejoin before (c ∷ n ∷ ns) a,
  any_covers-rejoin before (record n { start = c.start; size = u64 (n.size + c.size) } ∷ ns) a,
  covers-free c a,
  covers-free n a,
  covers-free (record n { start = c.start; size = u64 (n.size + c.size) }) a,
)

pub release-any_covers :
    (garbage : Bool) (k : Cut) (a : ℕ)
    → any_covers (release garbage k) a ≡ (any_covers k.before a || any_covers k.after a)
unfolding release
release-any_covers garbage k a =
    let c = record (k.cursor) { allocated = false } in
    let m = merge_prev k.before c in
    merge_next-any_covers garbage (has_prev k.before) m.0 m.1 k.after a
      (merge_prev-free k.before c refl)
    ∙ ap (λ b. b || any_covers k.after a) (merge_prev-any_covers k.before c a)

within-bounds : (start size a : ℕ) → within start size a ≡ true → (start ≤ a) × (a < start + size)
within-bounds start size a h = ground arith

-- The cursor covers its block, and the rest of the list covers nothing of it.
pub covers-cursor :
    {vaddr : ℕ} (k : Cut) (a : ℕ)
    → IsCut vaddr k
    → covers k.cursor a ≡ within k.cursor.start k.cursor.size a
covers-cursor k a c =
    covers-within k.cursor a (Chain-le _ _ k.after c.goes_on.3)
    ∙ ap (λ b. b && within k.cursor.start k.cursor.size a) c.was_allocated

pub rest-apart :
    {vaddr : ℕ} (k : Cut) (a : ℕ)
    → IsCut vaddr k
    → within k.cursor.start k.cursor.size a ≡ true
    → (any_covers k.before a || any_covers k.after a) ≡ false
rest-apart k a c w =
    let b = within-bounds k.cursor.start k.cursor.size a w in
    let top = Chain-le _ _ k.after c.goes_on.3 in
    ap₂ ◌||◌ (ChainTo-above k.cursor.start k.before a c.reaches (omega arith) b.0)
      (Chain-below _ _ k.after a c.goes_on.3 b.1)

carve : (p q w : Bool) → (w ≡ true → (p || q) ≡ false) → (p || q) ≡ ((p || (w || q)) && not w)
carve p q true h = ground (arith, h refl)
carve p q false h = ground arith

any_covers-cut :
    {vaddr : ℕ} (ns : List Node) (k : Cut) (a : ℕ)
    → IsCut vaddr k
    → find_allocated [] ns vaddr ≡ some k
    → any_covers ns a
      ≡ (any_covers k.before a || (within k.cursor.start k.cursor.size a || any_covers k.after a))
any_covers-cut {vaddr} ns k a c e =
    ap (λ l. any_covers l a) (find_allocated-rejoin [] ns vaddr k e)
    ∙ any_covers-rejoin k.before (k.cursor ∷ k.after) a
    ∙ ap (λ b. any_covers k.before a || (b || any_covers k.after a)) (covers-cursor k a c)

-- A release takes the cursor's block out, and no other address.
pub release-unmaps :
    {vaddr : ℕ} (garbage : Bool) (ns : List Node) (k : Cut) (a : ℕ)
    → IsCut vaddr k
    → find_allocated [] ns vaddr ≡ some k
    → any_covers (release garbage k) a
      ≡ (any_covers ns a && not (within k.cursor.start k.cursor.size a))
release-unmaps garbage ns k a c e =
    release-any_covers garbage k a
    ∙ carve (any_covers k.before a) (any_covers k.after a) _ (rest-apart k a c)
    ∙ ap (λ b. b && not (within k.cursor.start k.cursor.size a)) (sym (any_covers-cut ns k a c e))
