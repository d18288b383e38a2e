-- ===== src/Vm/PageTable/Mmu.antt =====
-- What the processor makes of the page tables: the reference for the walk of VMproject/on_demand.c.
-- Each level's entry stands at its table's address plus 8 times the index.
use cs.Prelude.{
  ℕ, ◌+◌, ◌*◌, ◌≡◌, refl, ◌∙◌, ap, true, Option, none, some, arith, if◌then◌else◌, if_true,
}
use cs.Vm.PageTable.{
  pml_index, pdp_index, pd_index, pt_index, page_offset, base_to_page_addr, cr3_to_pml4e64_pa,
  Entry, sizeof_entry, Kernel,
}

infixl 5 ◌>>=◌
abbrev ◌>>=◌ : {A B : Type 0} → Option A → (A → Option B) → Option B
none >>= f = none
some a >>= f = f a

-- The table that the entry at a slot points to, if it is present.
abbrev pub table_at : Kernel → (ℕ → Entry) → ℕ → Option ℕ
table_at k mem slot =
    if (mem slot).present then some (k.va (base_to_page_addr (mem slot).base_addr)) else none

-- The slot of the entry for an address in the last level.
abbrev pub mmu_slot : Kernel → (ℕ → Entry) → ℕ → Option ℕ
mmu_slot k mem addr =
    table_at k mem (k.va (cr3_to_pml4e64_pa k.cr3) + pml_index addr * sizeof_entry) >>= λ pdp.
    table_at k mem (pdp + pdp_index addr * sizeof_entry) >>= λ pd.
    table_at k mem (pd + pd_index addr * sizeof_entry) >>= λ pt.
    some (pt + pt_index addr * sizeof_entry)

abbrev pub page_at : Kernel → (ℕ → Entry) → ℕ → ℕ → Option ℕ
page_at k mem addr slot =
    if (mem slot).present
    then some (base_to_page_addr (mem slot).base_addr + page_offset addr)
    else none

-- The physical address for a virtual one; `none` is a page fault.
abbrev pub translate : Kernel → (ℕ → Entry) → ℕ → Option ℕ
translate k mem addr = mmu_slot k mem addr >>= λ slot. page_at k mem addr slot

-- An entry as the processor sees it; the accessed bit aside.
pub record Kept (e e' : Entry) : Type 0 where
  pub present : e'.present ≡ e.present
  pub writable : e'.writable ≡ e.writable
  pub user_page : e'.user_page ≡ e.user_page
  pub base_addr : e'.base_addr ≡ e.base_addr

-- No entry that is present changes.
abbrev pub Extends : (ℕ → Entry) → (ℕ → Entry) → Type 0
Extends mem mem' = (a : ℕ) → (mem a).present ≡ true → Kept (mem a) (mem' a)

pub Kept-refl : (e : Entry) → Kept e e
Kept-refl e = record { present = refl; writable = refl; user_page = refl; base_addr = refl }

pub Extends-refl : (mem : ℕ → Entry) → Extends mem mem
Extends-refl mem a h = Kept-refl (mem a)

pub Extends-trans : (m₁ m₂ m₃ : ℕ → Entry) → Extends m₁ m₂ → Extends m₂ m₃ → Extends m₁ m₃
Extends-trans m₁ m₂ m₃ f g a h = ground (arith, f a, g a)

pub table_at-Extends :
    (k : Kernel) (mem mem' : ℕ → Entry) (slot t : ℕ)
    → Extends mem mem'
    → table_at k mem slot ≡ some t
    → table_at k mem' slot ≡ some t
table_at-Extends k mem mem' slot t x e = ground (arith, x slot)

>>=-eq-some :
    {A B : Type 0} (o : Option A) (f : A → Option B) (b : B)
    → (o >>= f) ≡ some b
    → (a : A) × (o ≡ some a) × (f a ≡ some b)
>>=-eq-some none f b e = cc
>>=-eq-some (some a) f b e = (a, refl, e)

table_at-bind :
    {B : Type 0} (k : Kernel) (mem mem' : ℕ → Entry) (slot : ℕ) (f f' : ℕ → Option B) (b : B)
    → Extends mem mem'
    → ((t : ℕ) → f t ≡ some b → f' t ≡ some b)
    → (table_at k mem slot >>= f) ≡ some b
    → (table_at k mem' slot >>= f') ≡ some b
table_at-bind k mem mem' slot f f' b x g e =
    let (t, p, q) = >>=-eq-some (table_at k mem slot) f b e in
    ap (λ o. o >>= f') (table_at-Extends k mem mem' slot t x p) ∙ g t q

-- A slot that the processor finds it still finds.
pub mmu_slot-Extends :
    (k : Kernel) (mem mem' : ℕ → Entry) (addr slot : ℕ)
    → Extends mem mem'
    → mmu_slot k mem addr ≡ some slot
    → mmu_slot k mem' addr ≡ some slot
mmu_slot-Extends k mem mem' addr slot x = table_at-bind k mem mem' _ _ _ slot x λ pdp.
    table_at-bind k mem mem' _ _ _ slot x λ pd. table_at-bind k mem mem' _ _ _ slot x λ pt h. h

page_at-Extends :
    (k : Kernel) (mem mem' : ℕ → Entry) (addr slot p : ℕ)
    → Extends mem mem'
    → page_at k mem addr slot ≡ some p
    → page_at k mem' addr slot ≡ some p
page_at-Extends k mem mem' addr slot p x e = ground (arith, x slot)

-- What the processor translates it still translates, to the same address.
pub translate-Extends :
    (k : Kernel) (mem mem' : ℕ → Entry) (addr p : ℕ)
    → Extends mem mem'
    → translate k mem addr ≡ some p
    → translate k mem' addr ≡ some p
translate-Extends k mem mem' addr p x e =
    let (slot, f, g) = >>=-eq-some (mmu_slot k mem addr) _ p e in
    ap (λ o. o >>= λ slot. page_at k mem' addr slot) (mmu_slot-Extends k mem mem' addr slot x f)
    ∙ page_at-Extends k mem mem' addr slot p x g

-- The slot from the three tables above it.
pub mmu_slot_of :
    (k : Kernel) (mem : ℕ → Entry) (addr pdp pd pt : ℕ)
    → table_at k mem (k.va (cr3_to_pml4e64_pa k.cr3) + pml_index addr * sizeof_entry) ≡ some pdp
    → table_at k mem (pdp + pdp_index addr * sizeof_entry) ≡ some pd
    → table_at k mem (pd + pd_index addr * sizeof_entry) ≡ some pt
    → mmu_slot k mem addr ≡ some (pt + pt_index addr * sizeof_entry)
mmu_slot_of k mem addr pdp pd pt e f g =
    ap
      (λ o. o >>= (λ pdp. table_at k mem (pdp + pdp_index addr * sizeof_entry) >>= λ pd.
        table_at k mem (pd + pd_index addr * sizeof_entry) >>= λ pt.
        some (pt + pt_index addr * sizeof_entry)))
      e
    ∙ ap
        (λ o. o >>= (λ pd. table_at k mem (pd + pd_index addr * sizeof_entry) >>= λ pt.
          some (pt + pt_index addr * sizeof_entry)))
        f
    ∙ ap (λ o. o >>= (λ pt. some (pt + pt_index addr * sizeof_entry))) g

-- The translation from the slot of the last level.
pub translate_of :
    (k : Kernel) (mem : ℕ → Entry) (addr slot : ℕ)
    → mmu_slot k mem addr ≡ some slot
    → (mem slot).present ≡ true
    → translate k mem addr ≡ some (base_to_page_addr (mem slot).base_addr + page_offset addr)
translate_of k mem addr slot e h = ap (λ o. o >>= λ slot. page_at k mem addr slot) e ∙ if_true _ _ h

-- A translation comes from a present entry.
pub translate-slot :
    (k : Kernel) (mem : ℕ → Entry) (addr p : ℕ)
    → translate k mem addr ≡ some p
    → (slot : ℕ) × (mmu_slot k mem addr ≡ some slot)
      × ((mem slot).present ≡ true)
      × (base_to_page_addr (mem slot).base_addr + page_offset addr ≡ p)
translate-slot k mem addr p e =
    let (slot, f, g) = >>=-eq-some (mmu_slot k mem addr) _ p e in
    (slot, f, ground arith, ground arith)
