-- ===== src/Vm/Pool/Blocks.antt =====
-- `petmem_alloc_pages` and `petmem_free_pages` of VMproject/main.c over several pools.
use cs.Prelude.{
  ℕ, ◌^◌, ◌≤◌, ◌<◌, ◌≡◌, ◌≢◌, refl, sym, subst, some, List, [], ◌∷◌, ◌==◌, arith, All, All-map,
  Bool-cases, Option-cases, inl, inr,
}
use cs.Vm.Pool.{
  Buddy, Arch, Ran, fine, bug, out_of_fuel, KeepsPlace, ◌>>=◌, checked, page_order, alloc_from,
  alloc_pages, free_to, free_pages,
}

-- What holds of the result, if there is one.
abbrev After {ℓ κ} : {A : Type ℓ} → (A → Type κ) → Ran A → Type κ
After P (fine a) = P a
After P bug = Unit
After P out_of_fuel = Unit

After-bind {ℓ κ μ ν} :
    {A : Type ℓ} {B : Type κ} (P : A → Type μ) (Q : B → Type ν) (m : Ran A) (f : A → B)
    → After P m
    → ((a : A) → P a → Q (f a))
    → After Q (m >>= λ a. fine (f a))
After-bind P Q (fine a) f h k = k a h
After-bind P Q bug f h k = tt
After-bind P Q out_of_fuel f h k = tt

module _ {Mempool : Type 0} (buddy : Buddy Mempool) (arch : Arch) where
  -- If what the first pool answers, a block or NULL, does not translate to 0, then
  -- `petmem_alloc_pages` asks no other pool, and returns the translation, also where it is of NULL.
  pub alloc_pages-first :
      (num_pages : ℕ) (p : Mempool) (ps : List Mempool)
      → ((r : Mempool × ℕ)
          → buddy.buddy_alloc p (page_order buddy arch num_pages) ≡ some r
          → arch.pa r.1 ≢ 0)
      → alloc_pages buddy arch num_pages (p ∷ ps) ≡ (
          checked (buddy.buddy_alloc p (page_order buddy arch num_pages)) >>= λ r.
          fine (r.0 ∷ ps, arch.pa r.1))
  unfolding alloc_pages alloc_from
  alloc_pages-first num_pages p ps h =
      elim (Option-cases (buddy.buddy_alloc p (page_order buddy arch num_pages))) [
        | inl e ↦ ground (arith, e)
        | inr (r, e) ↦ ground (arith, e, h r e)
      ]

  free_to-misses :
      (addr order : ℕ) (pools : List Mempool)
      → All (λ p. addr < buddy.base_addr p) pools
      → free_to buddy arch addr order pools ≡ fine pools
  unfolding free_to
  free_to-misses addr order [] a = refl
  free_to-misses addr order (p ∷ ps) a =
      let r = free_to-misses addr order ps a.1 in ground (arith, a.0, r)

  -- The pools of ADD_MEMORY have virtual base addresses, in the upper half of the address space, and
  -- the addresses that `petmem_alloc_pages` returns are physical, in the lower half.
  abbrev Apart : List Mempool × ℕ → Type 0
  Apart r = All (λ p. 2 ^ 47 ≤ buddy.base_addr p) r.0 × (r.1 < 2 ^ 47)

  module _ (keeps : KeepsPlace buddy)
      (low : (p : Mempool) (o : ℕ) (r : Mempool × ℕ)
        → buddy.buddy_alloc p o ≡ some r
        → arch.pa r.1 < 2 ^ 47) where
    alloc_from-Apart :
        (order : ℕ) (pools : List Mempool) (paddr : ℕ)
        → All (λ p. 2 ^ 47 ≤ buddy.base_addr p) pools
        → paddr < 2 ^ 47
        → After Apart (alloc_from buddy arch order pools paddr)
    unfolding alloc_from
    alloc_from-Apart order [] paddr a l = (tt, l)
    alloc_from-Apart order (p ∷ ps) paddr a l = elim (Option-cases (buddy.buddy_alloc p order)) [
      | inl e ↦
          let o : alloc_from buddy arch order (p ∷ ps) paddr ≡ bug = ground (arith, e) in
          subst (After Apart) (sym o) tt
      | inr ((p', block), e) ↦
          let b : 2 ^ 47 ≤ buddy.base_addr p' = omega (arith, (keeps.alloc_place order e).0, a.0) in
          elim (Bool-cases (arch.pa block == 0)) [
            | inr h ↦
                let o : alloc_from buddy arch order (p ∷ ps) paddr ≡ fine (p' ∷ ps, arch.pa block) =
                  ground (arith, e, h) in
                subst (After Apart) (sym o) ((b, a.1), low p order (p', block) e)
            | inl h ↦
                let o : alloc_from buddy arch order (p ∷ ps) paddr ≡ (
                    alloc_from buddy arch order ps (arch.pa block) >>= λ q. fine (p' ∷ q.0, q.1)) =
                  ground (arith, e, h) in
                subst (After Apart) (sym o) (
                  After-bind Apart Apart (alloc_from buddy arch order ps (arch.pa block))
                    (λ q. (p' ∷ q.0, q.1))
                    (alloc_from-Apart order ps (arch.pa block) a.1 (low p order (p', block) e))
                    (λ q k. ((b, k.0), k.1)))
          ]
    ]

    -- A pool keeps the place that it was made with, the translation of what a pool answers is below
    -- 2 ^ 47, and the base addresses of the pools are not. What `petmem_alloc_pages` returned, `petmem_free_pages` does
    -- not give back: no pool changes, and no BUG_ON is met.
    pub free_pages-alloc_pages :
        (num_pages addr : ℕ) (pools pools' : List Mempool)
        → All (λ p. 2 ^ 47 ≤ buddy.base_addr p) pools
        → alloc_pages buddy arch num_pages pools ≡ fine (pools', addr)
        → free_pages buddy arch addr num_pages pools' ≡ fine pools'
    unfolding alloc_pages free_pages
    free_pages-alloc_pages num_pages addr pools pools' a e =
        let order = page_order buddy arch num_pages in
        let (b, l) = subst (After Apart) e (alloc_from-Apart order pools 0 a (omega arith)) in
        free_to-misses addr order pools' (
          All-map (λ p. 2 ^ 47 ≤ buddy.base_addr p) (λ p. addr < buddy.base_addr p) pools'
            (λ p k. omega (arith, k, l)) b)
