-- ===== src/Vm/PageTable/Fault.antt =====
-- `petmem_handle_pagefault` of VMproject/on_demand.c: when it succeeds, and what it does to the
-- translations of the processor.
use cs.Prelude.{
  ℕ, ◌+◌, ◌≤◌, ◌<◌, ◌≡◌, ◌≢◌, refl, sym, ap, subst, true, false, not, ◌||◌, Bool, inl, inr, some,
  List, [], ◌∷◌, arith, Bool-cases, Option-cases, All, length, ◌==◌, if_true, if_false,
}
use cs.Vm.MemMap.{MemMap, find_address}
use cs.Vm.MemMap.Mapped.{is_mapped}
use cs.Vm.PageTable.{
  pml_index, page_offset, base_to_page_addr, Entry, Kernel, Paging, Walk, in_page, walk_page_table,
  map_page, handle_pagefault,
}
use cs.Vm.PageTable.Mmu.{
  Extends, Extends-trans, mmu_slot, mmu_slot-Extends, translate, translate-Extends, translate_of,
}
use cs.Vm.PageTable.Own.{
  Own, KeepsPages, stocked, filled, filled-present, filled-Extends, filled-Own,
}
use cs.Vm.PageTable.Walk.{SlotOut, Walked, walk_page_table-Walked}

-- What a page fault that is handled gives.
pub record Handled (k : Kernel) (s : Paging) (addr : ℕ) (r : Paging × Bool) : Type 0 where
  pub returns : r.1 ≡ true
  pub own : Own k r.0
  pub extends : Extends s.mem r.0.mem
  pub page : ℕ
  pub translated : translate k r.0.mem addr ≡ some page

present-Handled :
    (k : Kernel) (s w : Paging) (addr slot : ℕ)
    → Own k w
    → Extends s.mem w.mem
    → mmu_slot k w.mem addr ≡ some slot
    → (w.mem slot).present ≡ true
    → Handled k s addr (w, true)
present-Handled k s w addr slot o x f h = record {
  returns = refl;
  own = o;
  extends = x;
  page = base_to_page_addr (w.mem slot).base_addr + page_offset addr;
  translated = translate_of k w.mem addr slot f h;
}

absent-Handled :
    (k : Kernel) (s : Paging) (mem : ℕ → Entry) (page : ℕ) (rest : List ℕ) (addr slot : ℕ)
    → Own k (stocked k mem page rest slot)
    → Extends s.mem mem
    → mmu_slot k mem addr ≡ some slot
    → All (λ q. in_page q slot ≡ false) rest
    → (mem slot).present ≡ false
    → Handled k s addr (filled k mem page rest slot, true)
absent-Handled k s mem page rest addr slot o x f out h =
    let y = filled-Extends k mem page rest slot o h in
    present-Handled k s (filled k mem page rest slot) addr slot
      (filled-Own k mem page rest slot o out)
      (Extends-trans s.mem mem (filled k mem page rest slot).mem x y)
      (mmu_slot-Extends k mem (filled k mem page rest slot).mem addr slot y f)
      (filled-present k mem page rest slot)

map_page-Handled :
    (k : Kernel) (s : Paging) (addr : ℕ) (mem : ℕ → Entry) (pages : List ℕ) (slot : ℕ)
    → let w : Paging = record { mem = mem; pages = pages } in
      Own k w
      → Extends s.mem mem
      → mmu_slot k mem addr ≡ some slot
      → SlotOut w slot
      → 0 < length pages
      → Handled k s addr (map_page k (w, some slot))
unfolding map_page
map_page-Handled k s addr mem [] slot o x f out lt = absurd (omega arith)
map_page-Handled k s addr mem (page ∷ rest) slot o x f out lt =
    elim (Bool-cases (mem slot).present) [
      | inl h ↦
          subst (Handled k s addr) (sym (if_true _ _ h)) (present-Handled k s _ addr slot o x f h)
      | inr h ↦
          subst (Handled k s addr) (sym (if_false _ _ h))
            (absent-Handled k s mem page rest addr slot o x f out.1 h)
    ]

Walked-Handled :
    (k : Kernel) (s : Paging) (addr : ℕ) (w : Walk)
    → Walked k s addr w
    → 4 ≤ length s.pages
    → Handled k s addr (map_page k w)
Walked-Handled k s addr w d room =
    let e : w ≡ (w.0, some d.slot) = ap (λ o. (w.0, o)) d.returns in
    subst (λ q. Handled k s addr (map_page k q)) (sym e)
      (map_page-Handled k s addr w.0.mem w.0.pages d.slot d.own d.extends d.found d.out
        (omega (arith, d.stock)))

-- A fault that is not one of permission, at an address that the memory map covers, goes to the walk.
handle_pagefault-walks :
    (k : Kernel) (map : MemMap) (addr error_code : ℕ) (s : Paging)
    → error_code ≢ 2
    → is_mapped map addr ≡ true
    → handle_pagefault k map addr error_code s ≡ map_page k (walk_page_table k addr true s)
unfolding handle_pagefault
handle_pagefault-walks k map addr error_code s ne m = elim (Option-cases (find_address map addr)) [
  | inl e ↦ ground (arith)
  | inr (n, e) ↦ ground arith
]

-- A page fault is refused, with nothing changed, if it is one of permission (code 2) or
-- at an address that no allocated node of the memory map covers.
pub handle_pagefault-refuses :
    (k : Kernel) (map : MemMap) (addr error_code : ℕ) (s : Paging)
    → (error_code == 2 || not (is_mapped map addr)) ≡ true
    → handle_pagefault k map addr error_code s ≡ (s, false)
unfolding handle_pagefault
handle_pagefault-refuses k map addr error_code s h = elim (Option-cases (find_address map addr)) [
  | inl e ↦ ground arith
  | inr (n, e) ↦ ground arith
]

handle_pagefault-Handled :
    (k : Kernel) (map : MemMap) (addr error_code : ℕ) (s : Paging)
    → KeepsPages k
    → Own k s
    → pml_index addr ≡ 0
    → 4 ≤ length s.pages
    → error_code ≢ 2
    → is_mapped map addr ≡ true
    → Handled k s addr (handle_pagefault k map addr error_code s)
handle_pagefault-Handled k map addr error_code s kp o low room ne m =
    subst (Handled k s addr) (sym (handle_pagefault-walks k map addr error_code s ne m)) (
      Walked-Handled k s addr (walk_page_table k addr true s)
        (walk_page_table-Walked k s addr kp o low (omega arith)) room)

-- With at least four pages in stock, all of them aligned, distinct, in no table and with physical
-- addresses of 52 bits that lead back to them (`Own`), and `va` keeping the alignment of pages: a
-- fault at a mapped address of the first 512 GB that is not one of permission is handled: the call returns 0, the processor then translates the address, it
-- translates every address that it translated before to the same physical address, and the pages
-- still in stock are unused.
pub handle_pagefault-translates :
    (k : Kernel) (map : MemMap) (addr error_code : ℕ) (s : Paging)
    → KeepsPages k
    → Own k s
    → pml_index addr ≡ 0
    → 4 ≤ length s.pages
    → error_code ≢ 2
    → is_mapped map addr ≡ true
    → let r = handle_pagefault k map addr error_code s in
      (r.1 ≡ true)
      × ((p : ℕ) × (translate k r.0.mem addr ≡ some p))
      × ((b p : ℕ) → translate k s.mem b ≡ some p → translate k r.0.mem b ≡ some p)
      × Own k r.0
handle_pagefault-translates k map addr error_code s kp o low room ne m =
    let h = handle_pagefault-Handled k map addr error_code s kp o low room ne m in
    (
      h.returns,
      (h.page, h.translated),
      λ b p.
          translate-Extends k s.mem (handle_pagefault k map addr error_code s).0.mem b p h.extends,
      h.own,
    )
