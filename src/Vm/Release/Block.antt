-- ===== src/Vm/Release/Block.antt =====
-- The release of the pages of a block in `petmem_free_vspace` of VMproject/on_demand.c.
use cs.Prelude.{
  ℕ, suc, ◌+◌, ◌*◌, ◌/◌, ◌%◌, ◌^◌, ◌<◌, ◌≡◌, ◌≢◌, refl, ◌∙◌, ap, true, false, Option, none, some,
  if_true, if_false, u32, u64, u64_sub, arith,
}
use cs.Vm.PageTable.{pdp_index, pt_index, Kernel, Paging, pml_slot}
use cs.Vm.Release.{
  ◌>>=◌, Sweep, sweep_start, entry_in, visit_pdp, visit, cascade, free_table, prune, prune_tables,
  sweep_turn, swept, oops, sweep, int_pages, release_pages,
}
use cs.Vm.Release.Leaf.{Leads, Cleared, sweep-Cleared}

int_pages-small : (size : ℕ) → size / 4096 < 2 ^ 31 → int_pages size ≡ size / 4096
unfolding int_pages u32
int_pages-small size h =
    let e : size / 4096 % 2 ^ 32 ≡ size / 4096 = omega (arith, h) in ground (arith, e, h)

-- For a block whose three upper entries are present, lead to the table at `b` and do not lie in it:
-- where one entry more than the block has pages fits before the last of the table, the loop ends.
-- It empties the entries of the block and the one after them, frees the pages that were there, in
-- their order, and changes nothing else.
pub release_pages-Cleared :
    (fuel : ℕ) (k : Kernel) (s : Paging) (start size b : ℕ)
    → Leads k (sweep_start k s start) b
    → pt_index start + (size / 4096 + 1) < 512
    → size / 4096 + 1 < fuel
    → (s' : Sweep) × (release_pages fuel k s start size ≡ swept s')
      × Cleared k b (pt_index start) (size / 4096 + 1) (sweep_start k s start) s'
unfolding release_pages sweep_start
release_pages-Cleared fuel k s start size b l h f =
    let e : int_pages size ≡ size / 4096 = int_pages-small size (omega (arith, h)) in
    let (s', g, c) =
      sweep-Cleared (size / 4096 + 1) fuel (size / 4096) l h (omega arith) (omega (arith, h)) f in
    (s', ap (λ n. sweep fuel k n (sweep_start k s start)) e ∙ g, c)

-- The state where the entry of the second level is not present.
abbrev skipped : ℕ → Sweep → Sweep
skipped slot s = record s {
  pdp_cur = some slot;
  pages_covered = u64 (s.pages_covered + u64_sub 512 s.pd * u64_sub 512 s.pt);
  pdp = s.pdp + 1;
  pd = 0;
  pd_mine = true;
  pt = 0;
  pt_mine = true;
}

visit-skipped :
    (k : Kernel) (s : Sweep)
    → (s.mem s.pml_cur).present ≡ true
    → (s.mem (entry_in k (s.mem s.pml_cur) s.pdp)).present ≡ false
    → visit k s ≡ skipped (entry_in k (s.mem s.pml_cur) s.pdp) s
unfolding visit visit_pdp
visit-skipped k s h a = if_true _ _ h ∙ if_false _ _ a

prune-null :
    (index_old : ℕ) (cur : Option ℕ) (s : Sweep)
    → index_old ≢ 0
    → prune index_old 0 cur none true s ≡ none
unfolding prune free_table
prune-null index_old cur s h = ground (arith, h)

prune_tables-null :
    (old s : Sweep)
    → s.pt ≡ 0
    → s.pt_mine ≡ true
    → s.pd_cur ≡ none
    → old.pt ≢ 0
    → prune_tables old s ≡ none
unfolding prune_tables
prune_tables-null old s e m d h =
    ap
      (λ x. x >>= λ s₁. prune old.pd s₁.pd s₁.pd_cur s₁.pdp_cur s₁.pd_mine s₁ >>= λ s₂.
        prune old.pdp s₂.pdp s₂.pdp_cur (some s₂.pml_cur) s₂.pdp_mine s₂)
      (ap (λ i. prune old.pt i s.pt_cur s.pd_cur s.pt_mine s) e
        ∙ ap (λ q. prune old.pt 0 s.pt_cur q s.pt_mine s) d
        ∙ ap (λ q. prune old.pt 0 s.pt_cur none q s) m
        ∙ prune-null old.pt s.pt_cur s h)

-- Where the entry of the first level is present, that of the second is not, and the block does not
-- begin at the start of a page table, the release stops the kernel: in its first turn it writes
-- through the pointer to an entry of the third level, which is NULL.
pub release_pages-oops :
    (fuel : ℕ) (k : Kernel) (s : Paging) (start size : ℕ)
    → (s.mem (pml_slot k start)).present ≡ true
    → (s.mem (entry_in k (s.mem (pml_slot k start)) (pdp_index start))).present ≡ false
    → pt_index start ≢ 0
    → release_pages (suc fuel) k s start size ≡ oops
unfolding release_pages sweep_start sweep sweep_turn cascade
release_pages-oops fuel k s start size h a p =
    let o = sweep_start k s start in
    let t : sweep_turn k o ≡ none =
      ap (λ x. prune_tables o (cascade x)) (visit-skipped k o h a)
      ∙ prune_tables-null o (cascade (skipped _ o)) refl refl refl p in
    ground (arith, t)
