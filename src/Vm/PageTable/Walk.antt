-- ===== src/Vm/PageTable/Walk.antt =====
-- `walk_page_table` of VMproject/on_demand.c with `hard` set: it never returns NULL, and the slot
-- that it returns is the one that the processor comes to.
use cs.Prelude.{
  ℕ, suc, ◌+◌, ◌*◌, ◌/◌, ◌%◌, ◌^◌, ◌≤◌, ◌<◌, ◌≡◌, ◌≢◌, refl, sym, ◌∙◌, ap, subst, true, false, not,
  ◌&&◌, inl, inr, none, some, List, [], ◌∷◌, arith, Bool-cases, All, All-map, All-zip, length, u64,
  if_true, if_false,
}
use cs.Vm.PageTable.{
  pml_index, pdp_index, pd_index, pt_index, base_to_page_addr, cr3_to_pml4e64_pa, Entry, Kernel,
  Paging, Walk, in_page, fill, clear_accessed, descend, pml_slot, pdp_slot, pd_slot, pt_slot,
  last_slot, walk_page_table, ◌>>=◌,
}
use cs.Vm.PageTable.Mmu.{
  Extends, Extends-refl, Extends-trans, table_at, table_at-Extends, mmu_slot, mmu_slot_of,
}
use cs.Vm.PageTable.Own.{
  Own, IsTable, IsPage, KeepsPages, Unused, points_to, slot-in_page, clear_accessed-Extends,
  clear_accessed-Own, length-clear_accessed, clear_accessed-IsTable, stocked, filled,
  filled-present, filled-points_to, filled-IsTable, filled-Extends, filled-Own,
}

-- The slot lies in no page of the stock.
abbrev pub SlotOut : Paging → ℕ → Type 0
SlotOut s slot = All (λ q. in_page q slot ≡ false) s.pages

pub table-SlotOut :
    {k : Kernel} (s : Paging) (table i : ℕ)
    → Own k s
    → IsTable s table
    → i < 512
    → SlotOut s (table + i * 8)
table-SlotOut {k} s table i o t lt =
    All-zip (IsPage k) (λ q. q ≢ table) _ s.pages
      (λ q p ne. slot-in_page q table i p.aligned t.aligned ne lt) o.pages t.apart

points_to-aligned : (k : Kernel) (e : Entry) → KeepsPages k → points_to k e % 4096 ≡ 0
unfolding u64
points_to-aligned k e h = h (base_to_page_addr e.base_addr) (omega arith)

-- What one level of a hard walk gives.
pub record Descended (k : Kernel) (s : Paging) (slot : ℕ) (w : Walk) : Type 0 where
  pub table : ℕ
  pub returns : w.1 ≡ some table
  pub own : Own k w.0
  pub extends : Extends s.mem w.0.mem
  pub entry : table_at k w.0.mem slot ≡ some table
  pub is_table : IsTable w.0 table
  pub stock : length s.pages ≤ suc (length w.0.pages)

descend-present :
    (k : Kernel) (s : Paging) (slot : ℕ)
    → KeepsPages k
    → Own k s
    → (s.mem slot).present ≡ true
    → Descended k s slot (s, some (points_to k (s.mem slot)))
descend-present k s slot kp o h = record {
  table = points_to k (s.mem slot);
  returns = refl;
  own = o;
  extends = Extends-refl s.mem;
  entry = if_true _ _ h;
  is_table = record {
    aligned = points_to-aligned k (s.mem slot) kp;
    apart = All-map (Unused k s.mem) _ s.pages (λ q u e. (u slot h).1 (sym e)) o.unused;
  };
  stock = omega arith;
}

descend-absent :
    (k : Kernel) (mem : ℕ → Entry) (page : ℕ) (rest : List ℕ) (slot : ℕ)
    → Own k (stocked k mem page rest slot)
    → All (λ q. in_page q slot ≡ false) rest
    → (mem slot).present ≡ false
    → Descended k
        (stocked k mem page rest slot)
        slot
        (filled k mem page rest slot, some (points_to k ((filled k mem page rest slot).mem slot)))
unfolding fill
descend-absent k mem page rest slot o out h = record {
  table = points_to k ((filled k mem page rest slot).mem slot);
  returns = refl;
  own = filled-Own k mem page rest slot o out;
  extends = filled-Extends k mem page rest slot o h;
  entry = if_true _ _ (filled-present k mem page rest slot);
  is_table =
      subst (IsTable (filled k mem page rest slot)) (sym (filled-points_to k mem page rest slot o))
        (filled-IsTable k mem page rest slot o);
  stock = omega arith;
}

pub descend-Descended :
    (k : Kernel) (mem : ℕ → Entry) (pages : List ℕ) (slot : ℕ)
    → let s : Paging = record { mem = mem; pages = pages } in
      KeepsPages k
      → Own k s
      → SlotOut s slot
      → 0 < length pages
      → Descended k s slot (descend k true slot s)
unfolding descend
descend-Descended k mem [] slot kp o out lt = absurd (omega arith)
descend-Descended k mem (page ∷ rest) slot kp o out lt = elim (Bool-cases (mem slot).present) [
  | inl h ↦ subst (Descended k _ slot) (sym (if_true _ _ h)) (descend-present k _ slot kp o h)
  | inr h ↦
      subst (Descended k _ slot) (sym (if_false _ _ h))
        (descend-absent k mem page rest slot o out.1 h)
]

bind-some : (w : Walk) (t : ℕ) (f : ℕ → Paging → Walk) → w.1 ≡ some t → (w >>= f) ≡ f t w.0
bind-some (s, none) t f e = cc
bind-some (s, some a) t f e = let q : a ≡ t = cc in ap (λ b. f b s) q

-- What a hard walk gives.
pub record Walked (k : Kernel) (s : Paging) (addr : ℕ) (w : Walk) : Type 0 where
  pub slot : ℕ
  pub returns : w.1 ≡ some slot
  pub own : Own k w.0
  pub extends : Extends s.mem w.0.mem
  pub found : mmu_slot k w.0.mem addr ≡ some slot
  pub out : SlotOut w.0 slot
  pub stock : length s.pages ≤ 3 + length w.0.pages

root-IsTable :
    (k : Kernel) (s : Paging) → KeepsPages k → Own k s → IsTable s (k.va (cr3_to_pml4e64_pa k.cr3))
root-IsTable k s kp o = record { aligned = kp _ (omega arith); apart = o.root }

-- The first slot, where the index is 0 and the scaling does not matter.
low-slot :
    (k : Kernel) (addr : ℕ)
    → pml_index addr ≡ 0
    → pml_slot k addr ≡ k.va (cr3_to_pml4e64_pa k.cr3) + pml_index addr * 8
low-slot k addr low = omega arith

index-lt : (x : ℕ) → x % 512 < 512
index-lt x = omega arith

level :
    (k : Kernel) (s : Paging) (table i : ℕ)
    → KeepsPages k
    → Own k s
    → IsTable s table
    → i < 512
    → 0 < length s.pages
    → Descended k s (table + i * 8) (descend k true (table + i * 8) s)
level k s table i kp o t lt room =
    descend-Descended k s.mem s.pages (table + i * 8) kp o (table-SlotOut s table i o t lt) room

-- A level that is taken after the accessed bit of some entry is cleared.
cleared_level :
    (k : Kernel) (p : ℕ) (s : Paging) (table i : ℕ)
    → KeepsPages k
    → Own k s
    → IsTable s table
    → i < 512
    → 0 < length s.pages
    → Descended k s (table + i * 8) (descend k true (table + i * 8) (clear_accessed p s))
cleared_level k p s table i kp o t lt room =
    let c = clear_accessed p s in
    let len = length-clear_accessed p s in
    let w = descend k true (table + i * 8) c in
    let d =
      level k c table i kp (clear_accessed-Own k p s o) (clear_accessed-IsTable p s table t) lt
        (omega (arith, len)) in
    record {
      table = d.table;
      returns = d.returns;
      own = d.own;
      extends = Extends-trans s.mem c.mem w.0.mem (clear_accessed-Extends p s) d.extends;
      entry = d.entry;
      is_table = d.is_table;
      stock = omega (arith, len, d.stock);
    }

-- From the three levels to the slot of the fourth.
last-Walked :
    (k : Kernel) (s s₃ : Paging) (addr pdp pd pt : ℕ)
    → Own k s₃
    → IsTable s₃ pt
    → Extends s.mem s₃.mem
    → length s.pages ≤ 3 + length s₃.pages
    → table_at k s₃.mem (k.va (cr3_to_pml4e64_pa k.cr3) + pml_index addr * 8) ≡ some pdp
    → table_at k s₃.mem (pdp_slot pdp addr) ≡ some pd
    → table_at k s₃.mem (pd_slot pd addr) ≡ some pt
    → Walked k s addr (last_slot true addr pt s₃)
unfolding last_slot
last-Walked k s s₃ addr pdp pd pt o t x st e f g =
    subst (Walked k s addr)
      (sym (if_false {b = not (s₃.mem (pt_slot pt addr)).present && false} _ _ (ground arith)))
      (record {
        slot = pt_slot pt addr;
        returns = refl;
        own = o;
        extends = x;
        found = mmu_slot_of k s₃.mem addr pdp pd pt e f g;
        out = table-SlotOut s₃ pt (pt_index addr) o t (omega arith);
        stock = st;
      })

pub walk_page_table-Walked :
    (k : Kernel) (s : Paging) (addr : ℕ)
    → KeepsPages k
    → Own k s
    → pml_index addr ≡ 0
    → 3 ≤ length s.pages
    → Walked k s addr (walk_page_table k addr true s)
unfolding walk_page_table
walk_page_table-Walked k s addr kp o low room =
    let pml = pml_slot k addr in
    let root = k.va (cr3_to_pml4e64_pa k.cr3) in
    let w₁ = descend k true pml (clear_accessed pml s) in
    let d₁ : Descended k s (root + pml_index addr * 8) w₁ =
      subst
        (λ q. Descended k s (root + pml_index addr * 8) (descend k true q (clear_accessed pml s)))
        (sym (low-slot k addr low))
        (cleared_level k pml s root (pml_index addr) kp o (root-IsTable k s kp o)
          (index-lt (addr / 2 ^ 39)) (omega arith)) in
    let w₂ = descend k true (pdp_slot d₁.table addr) w₁.0 in
    let d₂ : Descended k w₁.0 (pdp_slot d₁.table addr) w₂ =
      level k w₁.0 d₁.table (pdp_index addr) kp d₁.own d₁.is_table (index-lt (addr / 2 ^ 30))
        (omega (arith, d₁.stock)) in
    let w₃ = descend k true (pd_slot d₂.table addr) (clear_accessed pml w₂.0) in
    let d₃ : Descended k w₂.0 (pd_slot d₂.table addr) w₃ =
      cleared_level k pml w₂.0 d₂.table (pd_index addr) kp d₂.own d₂.is_table
        (index-lt (addr / 2 ^ 21)) (omega (arith, d₁.stock, d₂.stock)) in
    let x₂ = Extends-trans w₁.0.mem w₂.0.mem w₃.0.mem d₂.extends d₃.extends in
    subst (Walked k s addr)
      (sym (
        bind-some w₁ d₁.table _ d₁.returns
        ∙ bind-some w₂ d₂.table _ d₂.returns
        ∙ bind-some w₃ d₃.table _ d₃.returns))
      (last-Walked k s w₃.0 addr d₁.table d₂.table d₃.table d₃.own d₃.is_table
        (Extends-trans s.mem w₁.0.mem w₃.0.mem d₁.extends x₂)
        (omega (arith, d₁.stock, d₂.stock, d₃.stock))
        (table_at-Extends k w₁.0.mem w₃.0.mem _ d₁.table x₂ d₁.entry)
        (table_at-Extends k w₂.0.mem w₃.0.mem _ d₂.table d₃.extends d₂.entry) d₃.entry)
