-- ===== src/Vm/Release/Leaf.antt =====
-- The loop of `petmem_free_vspace` in VMproject/on_demand.c, where the block that is released lies
-- in one page table and its three upper entries are present.
use cs.Prelude.{
  ℕ, zero, suc, ◌+◌, ◌*◌, ◌%◌, ◌^◌, ◌≤◌, ◌<◌, ◌≡◌, ◌≢◌, refl, ◌∙◌, ap, Bool, true, false, Option,
  some, List, ◌∷◌, ◌==◌, if◌then◌else◌, if_true, u64-eq_of_lt, arith, ◌⊎◌, inl, inr, Bool-cases,
  dec_lt,
}
use cs.Vm.PageTable.{base_to_page_addr, Entry, sizeof_entry, Kernel, store}
use cs.Vm.Release.{
  ◌>>=◌, Sweep, entry_in, absent, visit_page, visit_pd, visit_pdp, visit, cascade, prune,
  prune_tables, sweep_turn, swept, sweep,
}

abbrev Outside : ℕ → ℕ → Type 0
Outside b x = (x < b) ⊎ (b + 4096 ≤ x)

-- The three upper entries are present and lead to the table at `b`, in which none of them lies.
pub record Leads (k : Kernel) (s : Sweep) (b : ℕ) : Type 0 where
  pub pdp_entry : ℕ
  pub pd_entry : ℕ
  pub pml_present : (s.mem s.pml_cur).present ≡ true
  pub pdp_at : entry_in k (s.mem s.pml_cur) s.pdp ≡ pdp_entry
  pub pdp_present : (s.mem pdp_entry).present ≡ true
  pub pd_at : entry_in k (s.mem pdp_entry) s.pd ≡ pd_entry
  pub pd_present : (s.mem pd_entry).present ≡ true
  pub table : k.va (base_to_page_addr (s.mem pd_entry).base_addr) ≡ b
  pub out : Outside b s.pml_cur × Outside b pdp_entry × Outside b pd_entry

-- The entry `i` of the table at `b`.
abbrev pub slot : ℕ → ℕ → ℕ
slot b i = b + i * sizeof_entry

abbrev pub page_at : Kernel → (ℕ → Entry) → ℕ → ℕ
page_at k mem a = k.va (base_to_page_addr (mem a).base_addr)

-- The state after a turn at the entry `s.pt` of the table.
abbrev turned : Kernel → ℕ → ℕ → ℕ → Sweep → Sweep
turned k b pdp_entry pd_entry s =
    let here = (s.mem (slot b s.pt)).present in
    record s {
      pdp_cur = some pdp_entry;
      pd_cur = some pd_entry;
      pt_cur = some (slot b s.pt);
      pt = s.pt + 1;
      pages_covered = s.pages_covered + 1;
      mem = if here then absent s.mem (slot b s.pt) else s.mem;
      freed = if here then page_at k s.mem (slot b s.pt) ∷ s.freed else s.freed;
    }

prune-still :
    (index_old index : ℕ) (cur parent : Option ℕ) (mine : Bool) (s : Sweep)
    → (index ≡ index_old + 1) ⊎ (index ≡ index_old)
    → prune index_old index cur parent mine s ≡ some s
unfolding prune
prune-still index_old index cur parent mine s (inl e) = ground (arith, e)
prune-still index_old index cur parent mine s (inr e) = ground (arith, e)

-- No table is freed in a turn that goes to the next entry.
sweep_turn-still :
    (k : Kernel) (s t : Sweep)
    → cascade (visit k s) ≡ t
    → t.pt ≡ s.pt + 1
    → t.pd ≡ s.pd
    → t.pdp ≡ s.pdp
    → sweep_turn k s ≡ some t
unfolding sweep_turn prune_tables
sweep_turn-still k s t e p d q =
    let a = prune-still s.pt t.pt t.pt_cur t.pd_cur t.pt_mine t (inl p) in
    let b = prune-still s.pd t.pd t.pd_cur t.pdp_cur t.pd_mine t (inr d) in
    let c = prune-still s.pdp t.pdp t.pdp_cur (some t.pml_cur) t.pdp_mine t (inr q) in
    ap (prune_tables s) e
    ∙ ap
        (λ m. m >>= λ s₁. prune s.pd s₁.pd s₁.pd_cur s₁.pdp_cur s₁.pd_mine s₁ >>= λ s₂.
          prune s.pdp s₂.pdp s₂.pdp_cur (some s₂.pml_cur) s₂.pdp_mine s₂)
        a
    ∙ ap (λ m. m >>= λ s₂. prune s.pdp s₂.pdp s₂.pdp_cur (some s₂.pml_cur) s₂.pdp_mine s₂) b
    ∙ c

module _ {k : Kernel} {s : Sweep} {b : ℕ} (l : Leads k s b) (room : s.pt + 1 < 512) where
  same_above : (x : ℕ) → Outside b x → (turned k b l.pdp_entry l.pd_entry s).mem x ≡ s.mem x
  unfolding store
  same_above x o = ground (arith, o, room)

  turned-Leads : Leads k (turned k b l.pdp_entry l.pd_entry s) b
  turned-Leads =
      let (o₁, o₂, o₃) = l.out in
      let e₁ = same_above s.pml_cur o₁ in
      let e₂ = same_above l.pdp_entry o₂ in
      let e₃ = same_above l.pd_entry o₃ in
      record {
        pdp_entry = l.pdp_entry;
        pd_entry = l.pd_entry;
        pml_present = ap (λ e. e.present) e₁ ∙ l.pml_present;
        pdp_at = ap (λ e. entry_in k e s.pdp) e₁ ∙ l.pdp_at;
        pdp_present = ap (λ e. e.present) e₂ ∙ l.pdp_present;
        pd_at = ap (λ e. entry_in k e s.pd) e₂ ∙ l.pd_at;
        pd_present = ap (λ e. e.present) e₃ ∙ l.pd_present;
        table = ap (λ e. k.va (base_to_page_addr e.base_addr)) e₃ ∙ l.table;
        out = l.out;
      }

  at_pdp : visit k s ≡ visit_pdp k l.pdp_entry s
  unfolding visit
  at_pdp = if_true _ _ l.pml_present ∙ ap (λ v. visit_pdp k v s) l.pdp_at

  at_pd :
      visit_pdp k l.pdp_entry s ≡ visit_pd k l.pd_entry (record s { pdp_cur = some l.pdp_entry })
  unfolding visit_pdp
  at_pd =
      if_true _ _ l.pdp_present
      ∙ ap (λ v. visit_pd k v (record s { pdp_cur = some l.pdp_entry })) l.pd_at

  abbrev below : Sweep
  below = record s { pdp_cur = some l.pdp_entry; pd_cur = some l.pd_entry }

  at_page :
      visit_pd k l.pd_entry (record s { pdp_cur = some l.pdp_entry })
      ≡ visit_page k (slot b s.pt) below
  unfolding visit_pd
  at_page =
      if_true _ _ l.pd_present ∙ ap (λ v. visit_page k (v + s.pt * sizeof_entry) below) l.table

  page-turned :
      s.pages_covered + 1 < 2 ^ 64
      → visit_page k (slot b s.pt) below ≡ turned k b l.pdp_entry l.pd_entry s
  unfolding visit_page
  page-turned h = elim (Bool-cases (s.mem (slot b s.pt)).present) [
    | inl e ↦ rw (e, u64-eq_of_lt (s.pages_covered + 1) h) refl
    | inr e ↦ rw (e, u64-eq_of_lt (s.pages_covered + 1) h) refl
  ]

  cascade-turned :
      cascade (turned k b l.pdp_entry l.pd_entry s) ≡ turned k b l.pdp_entry l.pd_entry s
  unfolding cascade
  cascade-turned = let m : ((s.pt + 1) % 512 == 0) ≡ false = ground (arith, room) in rw m refl

  sweep_turn-turned :
      s.pages_covered + 1 < 2 ^ 64 → sweep_turn k s ≡ some (turned k b l.pdp_entry l.pd_entry s)
  sweep_turn-turned h =
      sweep_turn-still k s (turned k b l.pdp_entry l.pd_entry s)
        (ap cascade (at_pdp ∙ at_pd ∙ at_page ∙ page-turned h) ∙ cascade-turned) refl refl refl

-- The pages of `n` entries from `i` on that are present, in front of `freed`, the latest first.
abbrev pub pages_in : Kernel → (ℕ → Entry) → ℕ → ℕ → ℕ → List ℕ → List ℕ
pages_in k mem b i zero freed = freed
pages_in k mem b i (suc n) freed =
    pages_in k mem b (i + 1) n
      (if (mem (slot b i)).present then page_at k mem (slot b i) ∷ freed else freed)

-- The entries from `i` on, `n` of them, are emptied and their pages freed; nothing else changes.
pub record Cleared (k : Kernel) (b i n : ℕ) (s s' : Sweep) : Type 0 where
  pub gone : (j : ℕ) → i ≤ j → j < i + n → (s'.mem (slot b j)).present ≡ false
  pub kept : (a : ℕ) → ((j : ℕ) → i ≤ j → j < i + n → a ≢ slot b j) → s'.mem a ≡ s.mem a
  pub freed : s'.freed ≡ pages_in k s.mem b i n s.freed

pages_in-same :
    (k : Kernel) (mem mem' : ℕ → Entry) (b i n : ℕ) (freed : List ℕ)
    → ((j : ℕ) → i ≤ j → mem' (slot b j) ≡ mem (slot b j))
    → pages_in k mem' b i n freed ≡ pages_in k mem b i n freed
pages_in-same k mem mem' b i zero freed h = refl
pages_in-same k mem mem' b i (suc n) freed h =
    ap
      (λ e.
        pages_in k mem' b (i + 1) n
          (if e.present then k.va (base_to_page_addr e.base_addr) ∷ freed else freed))
      (h i (omega arith))
    ∙ pages_in-same k mem mem' b (i + 1) n _ (λ j l. h j (omega (arith, l)))

turned-gone :
    (k : Kernel) (b p d : ℕ) (s : Sweep) → ((turned k b p d s).mem (slot b s.pt)).present ≡ false
unfolding store
turned-gone k b p d s = ground arith

turned-kept :
    (k : Kernel) (b p d : ℕ) (s : Sweep) (a : ℕ)
    → a ≢ slot b s.pt
    → (turned k b p d s).mem a ≡ s.mem a
unfolding store
turned-kept k b p d s a h = ground (arith, h)

turned-Cleared :
    (k : Kernel) (b p d n : ℕ) (s s' : Sweep)
    → Cleared k b (s.pt + 1) n (turned k b p d s) s'
    → Cleared k b s.pt (suc n) s s'
turned-Cleared k b p d n s s' c = record {
  gone = λ j l m. elim (dec_lt s.pt j) [
    | yes q ↦ c.gone j (omega (arith, q)) (omega (arith, m))
    | no q ↦
        let e : j ≡ s.pt = omega (arith, q, l) in
        ap (λ v. (s'.mem (slot b v)).present) e
        ∙ ap (λ v. v.present) (c.kept (slot b s.pt) (λ v o _ g. omega (arith, o, g)))
        ∙ turned-gone k b p d s
  ];
  kept = λ a h.
      c.kept a (λ j l m. h j (omega (arith, l)) (omega (arith, m)))
      ∙ turned-kept k b p d s a (h s.pt (omega arith) (omega arith));
  freed =
      c.freed
      ∙ pages_in-same k s.mem (turned k b p d s).mem b (s.pt + 1) n _
          (λ j l. turned-kept k b p d s (slot b j) (λ g. omega (arith, g, l)));
}

-- The three upper entries are present, lead to the table at `b` and do not lie in it, and the block
-- begins at its entry `s.pt`. If `num_pages + 1` entries from there on are not the last ones of the
-- table, the loop ends after as many turns; it empties these entries, one more than the block has
-- pages, frees the pages that were there, in their order, and changes nothing else.
pub sweep-Cleared :
    (r fuel num_pages : ℕ) {k : Kernel} {s : Sweep} {b : ℕ}
    → Leads k s b
    → s.pt + r < 512
    → s.pages_covered + r ≡ num_pages + 1
    → num_pages + 1 < 2 ^ 64
    → r < fuel
    → (s' : Sweep) × (sweep fuel k num_pages s ≡ swept s') × Cleared k b s.pt r s s'
unfolding sweep
sweep-Cleared r zero num_pages l h e w f = absurd (omega (arith, f))
sweep-Cleared zero (suc fuel) num_pages {k} {s} {b} l h e w f = (
  s,
  ground (arith, e),
  record { gone = λ j p q. absurd (omega (arith, p, q)); kept = λ a _. refl; freed = refl },
)
sweep-Cleared (suc r) (suc fuel) num_pages {k} {s} {b} l h e w f =
    let room : s.pt + 1 < 512 = omega (arith, h) in
    let t = sweep_turn-turned l room (omega (arith, e, w)) in
    let (s', g, c) =
      sweep-Cleared r fuel num_pages (turned-Leads l room) (omega (arith, h)) (omega (arith, e)) w
        (omega (arith, f)) in
    (s', ground (arith, e, t, g), turned-Cleared k b l.pdp_entry l.pd_entry r s s' c)
