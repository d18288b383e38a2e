-- ===== src/Vm/PageTable/Own.antt =====
-- The pages that `get_zeroed_page` hands out are not in use: what the page tables of
-- VMproject/on_demand.c keep true of them, one step at a time.
use cs.Prelude.{
  ℕ, ◌+◌, ◌*◌, ◌%◌, ◌^◌, ◌<◌, ◌≡◌, ◌≢◌, refl, sym, ◌∙◌, ap, subst, true, false, inl, inr, ◌⊎◌, List,
  [], ◌∷◌, arith, All, All-map, All-zip, length, u64, u64-eq_of_lt,
}
use cs.Vm.PageTable.{
  page_to_base_addr, base_to_page_addr, cr3_to_pml4e64_pa, Entry, Kernel, Paging, in_page, store,
  zero_page, fill, clear_accessed,
}
use cs.Vm.PageTable.Mmu.{Extends, Kept-refl}

-- The table of an entry.
abbrev pub points_to : Kernel → Entry → ℕ
points_to k e = k.va (base_to_page_addr e.base_addr)

-- `va` keeps the alignment of a page.
abbrev pub KeepsPages : Kernel → Type 0
KeepsPages k = (x : ℕ) → x % 4096 ≡ 0 → k.va x % 4096 ≡ 0

-- A page that can be handed out: aligned, with a physical address of 52 bits that leads back to it.
pub record IsPage (k : Kernel) (page : ℕ) : Type 0 where
  pub aligned : page % 4096 ≡ 0
  pub pa_aligned : k.pa page % 4096 ≡ 0
  pub pa_fits : k.pa page < 2 ^ 52
  pub back : k.va (k.pa page) ≡ page

-- No present entry lies in the page, and none points to it.
abbrev pub Unused : Kernel → (ℕ → Entry) → ℕ → Type 0
Unused k mem page =
    (a : ℕ) → (mem a).present ≡ true → (in_page page a ≡ false) × (points_to k (mem a) ≢ page)

abbrev pub Distinct : List ℕ → Type 0
Distinct [] = Unit
Distinct (p ∷ ps) = All (λ q. q ≢ p) ps × Distinct ps

-- The pages in stock.
pub record Own (k : Kernel) (s : Paging) : Type 0 where
  pub pages : All (IsPage k) s.pages
  pub unused : All (Unused k s.mem) s.pages
  pub distinct : Distinct s.pages
  pub root : All (λ q. q ≢ k.va (cr3_to_pml4e64_pa k.cr3)) s.pages

-- A table that is in no page of the stock.
pub record IsTable (s : Paging) (table : ℕ) : Type 0 where
  pub aligned : table % 4096 ≡ 0
  pub apart : All (λ q. q ≢ table) s.pages

pub slot-in_page :
    (page table i : ℕ)
    → page % 4096 ≡ 0
    → table % 4096 ≡ 0
    → page ≢ table
    → i < 512
    → in_page page (table + i * 8) ≡ false
slot-in_page page table i p t ne lt = ground arith

pub points_to-page :
    (k : Kernel) (page : ℕ) (e : Entry)
    → IsPage k page
    → e.base_addr ≡ page_to_base_addr (k.pa page) % 2 ^ 40
    → points_to k e ≡ page
points_to-page k page e p h =
    let x : e.base_addr * 2 ^ 12 ≡ k.pa page = omega (arith, p.pa_aligned, p.pa_fits) in
    ap (λ z. k.va (u64 z)) x
    ∙ ap k.va (u64-eq_of_lt (k.pa page) (omega (arith, p.pa_fits)))
    ∙ p.back

-- The accessed bit is none of the processor's business here.
pub clear_accessed-Extends : (slot : ℕ) (s : Paging) → Extends s.mem (clear_accessed slot s).mem
unfolding clear_accessed store
clear_accessed-Extends slot s a h = ground (arith, Kept-refl (s.mem a))

clear_accessed-same :
    (slot : ℕ) (s : Paging) (a : ℕ)
    → (((clear_accessed slot s).mem a).present ≡ (s.mem a).present)
      × (((clear_accessed slot s).mem a).base_addr ≡ (s.mem a).base_addr)
unfolding clear_accessed store
clear_accessed-same slot s a = ground arith

clear_accessed-Unused :
    (k : Kernel) (slot : ℕ) (s : Paging) (q : ℕ)
    → Unused k s.mem q
    → Unused k (clear_accessed slot s).mem q
clear_accessed-Unused k slot s q f a h =
    let (p, b) = clear_accessed-same slot s a in
    let (out, ne) = f a (sym p ∙ h) in
    (out, λ e. ne (ap (λ x. k.va (base_to_page_addr x)) (sym b) ∙ e))

pub length-clear_accessed :
    (slot : ℕ) (s : Paging) → length (clear_accessed slot s).pages ≡ length s.pages
unfolding clear_accessed
length-clear_accessed slot s = refl

pub clear_accessed-IsTable :
    (slot : ℕ) (s : Paging) (table : ℕ) → IsTable s table → IsTable (clear_accessed slot s) table
unfolding clear_accessed
clear_accessed-IsTable slot s table t = record { aligned = t.aligned; apart = t.apart }

pub clear_accessed-Own :
    (k : Kernel) (slot : ℕ) (s : Paging) → Own k s → Own k (clear_accessed slot s)
unfolding clear_accessed store
clear_accessed-Own k slot s o = record {
  pages = o.pages;
  unused =
      All-map (Unused k s.mem) _ s.pages (λ q f a h. clear_accessed-Unused k slot s q f a h)
        o.unused;
  distinct = o.distinct;
  root = o.root;
}

-- A fresh page is put at an empty slot that lies in no page of the stock.
module _ (k : Kernel) (mem : ℕ → Entry) (page : ℕ) (rest : List ℕ) (slot : ℕ) where
  abbrev pub stocked : Paging
  stocked = record { mem = mem; pages = page ∷ rest }

  abbrev pub filled : Paging
  filled = fill k slot page (record { mem = zero_page mem page; pages = rest })

  pub filled-present : (filled.mem slot).present ≡ true
  unfolding fill store
  filled-present = ground arith

  pub filled-base : (filled.mem slot).base_addr ≡ page_to_base_addr (k.pa page) % 2 ^ 40
  unfolding fill store
  filled-base = ground arith

  module _ (o : Own k stocked) where
    pub filled-points_to : points_to k (filled.mem slot) ≡ page
    filled-points_to = points_to-page k page (filled.mem slot) o.pages.0 filled-base

    pub filled-IsTable : IsTable filled page
    unfolding fill
    filled-IsTable = record { aligned = o.pages.0.aligned; apart = o.distinct.0 }

    pub filled-Extends : (mem slot).present ≡ false → Extends mem filled.mem
    unfolding fill store zero_page
    filled-Extends empty a h = ground (arith, o.unused.0 a h, Kept-refl (mem a))

    -- Any entry that is present now is the new one or was present before.
    filled-cases :
        (a : ℕ)
        → (filled.mem a).present ≡ true
        → (slot ≡ a) ⊎ (((mem a).present ≡ true) × ((filled.mem a).base_addr ≡ (mem a).base_addr))
    unfolding fill store zero_page
    filled-cases a h = ground arith

    filled-Unused :
        (q : ℕ) → q ≢ page → in_page q slot ≡ false → Unused k mem q → Unused k filled.mem q
    filled-Unused q ne out u a h = elim (filled-cases a h) [
      | inl e ↦ (
        subst (λ x. in_page q x ≡ false) e out,
        λ f. ne (sym f ∙ ap (λ x. points_to k (filled.mem x)) (sym e) ∙ filled-points_to),
      )
      | inr (old, same) ↦
          let (out', ne') = u a old in
          (out', λ f. ne' (ap (λ x. k.va (base_to_page_addr x)) (sym same) ∙ f))
    ]

    pub filled-Own : All (λ q. in_page q slot ≡ false) rest → Own k filled
    unfolding fill
    filled-Own out = record {
      pages = o.pages.1;
      unused =
          All-zip (λ q. (q ≢ page) × (in_page q slot ≡ false)) (Unused k mem) (Unused k filled.mem)
            rest (λ q g u. filled-Unused q g.0 g.1 u)
            (All-zip (λ q. q ≢ page) (λ q. in_page q slot ≡ false) _ rest (λ q x y. (x, y))
              o.distinct.0 out)
            o.unused.1;
      distinct = o.distinct.1;
      root = o.root.1;
    }
