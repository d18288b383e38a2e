-- ===== src/Vm/Format/View.antt =====
-- The four structures of long mode in VMproject/pgtables.h as the entries of Vm/PageTable.
use cs.Prelude.{ℕ, ◌/◌, ◌%◌, ◌^◌, ◌<◌, ◌≡◌, ◌≢◌, refl, ◌∙◌, ap, true, ◌==◌, arith}
use cs.Vm.PageTable.{page_to_base_addr, Entry}
use cs.Vm.Format.{
  Field, Layout, present, writable, user_page, accessed, pdp_base_addr, pd_base_addr, pt_base_addr,
  page_base_addr, tag, width, get, set,
}
use cs.Vm.Format.Long.{pml4e64, pdpe64, pde64, pte64}
use cs.Vm.Format.Fields.{get-set, get-set_other}

pub data Level : Type 0 where
  pml_level : Level
  pdp_level : Level
  pd_level : Level
  pt_level : Level

abbrev pub layout_of : Level → Layout
layout_of pml_level = pml4e64
layout_of pdp_level = pdpe64
layout_of pd_level = pde64
layout_of pt_level = pte64

abbrev pub base_of : Level → Field
base_of pml_level = pdp_base_addr
base_of pdp_level = pd_base_addr
base_of pd_level = pt_base_addr
base_of pt_level = page_base_addr

-- What the fields of a structure say.
abbrev pub entry_of : Level → ℕ → Entry
entry_of v w = record {
  present = get (layout_of v) present w == 1;
  writable = get (layout_of v) writable w == 1;
  user_page = get (layout_of v) user_page w == 1;
  accessed = get (layout_of v) accessed w == 1;
  base_addr = get (layout_of v) (base_of v) w;
}

-- What the processor takes an entry of any level for, by the positions of the bits.
abbrev pub bits_entry : ℕ → Entry
bits_entry w = record {
  present = w % 2 == 1;
  writable = w / 2 % 2 == 1;
  user_page = w / 4 % 2 == 1;
  accessed = w / 32 % 2 == 1;
  base_addr = w / 2 ^ 12 % 2 ^ 40;
}

-- The four assignments by which `walk_page_table` and `petmem_handle_pagefault` enter the page at a
-- physical address.
abbrev pub point_to : Level → ℕ → ℕ → ℕ
point_to v page w =
    let l = layout_of v in
    set l (base_of v) (page_to_base_addr page)
      (set l user_page 1 (set l writable 1 (set l present 1 w)))

-- The fields of each of the four structures are where the processor looks for them.
pub entry_of-bits : (v : Level) (w : ℕ) → entry_of v w ≡ bits_entry w
unfolding get tag
entry_of-bits pml_level w = ground arith
entry_of-bits pdp_level w = ground arith
entry_of-bits pd_level w = ground arith
entry_of-bits pt_level w = ground arith

-- The name of a base address is none of the flags'.
pub base_apart : (v : Level) (n : ℕ) → n < 6 → n ≢ tag (base_of v)
unfolding tag
base_apart pml_level n h e = omega (arith, h, e)
base_apart pdp_level n h e = omega (arith, h, e)
base_apart pd_level n h e = omega (arith, h, e)
base_apart pt_level n h e = omega (arith, h, e)

pub widths :
    (v : Level)
    → (width (layout_of v) present ≡ 1)
      × (width (layout_of v) writable ≡ 1)
      × (width (layout_of v) user_page ≡ 1)
      × (width (layout_of v) accessed ≡ 1)
      × (width (layout_of v) (base_of v) ≡ 40)
unfolding width tag
widths pml_level = (refl, refl, refl, refl, refl)
widths pdp_level = (refl, refl, refl, refl, refl)
widths pd_level = (refl, refl, refl, refl, refl)
widths pt_level = (refl, refl, refl, refl, refl)

-- An entry that was pointed to a page is present, writable and a user's, with 40 bits of the number
-- of the page, and as much accessed as it was.
pub entry_of-point_to :
    (v : Level) (page w : ℕ)
    → entry_of v (point_to v page w) ≡ record (entry_of v w) {
      present = true;
      writable = true;
      user_page = true;
      base_addr = page_to_base_addr page % 2 ^ 40;
    }
unfolding tag
entry_of-point_to v page w =
    let l = layout_of v in
    let b = base_of v in
    let u = page_to_base_addr page in
    let w₁ = set l present 1 w in
    let w₂ = set l writable 1 w₁ in
    let w₃ = set l user_page 1 w₂ in
    let (n₀, n₁, n₂, _, n₄) = widths v in
    let flag : (n : ℕ) → n ≡ 1 → 1 % 2 ^ n ≡ 1 = λ n e. ap (λ z. 1 % 2 ^ z) e in
    let p : get l present (set l b u w₃) ≡ 1 =
      get-set_other l b present u w₃ (base_apart v 0 (omega arith))
      ∙ get-set_other l user_page present 1 w₂ (λ e. omega (arith, e))
      ∙ get-set_other l writable present 1 w₁ (λ e. omega (arith, e))
      ∙ get-set l present 1 w
      ∙ flag _ n₀ in
    let q : get l writable (set l b u w₃) ≡ 1 =
      get-set_other l b writable u w₃ (base_apart v 1 (omega arith))
      ∙ get-set_other l user_page writable 1 w₂ (λ e. omega (arith, e))
      ∙ get-set l writable 1 w₁
      ∙ flag _ n₁ in
    let r : get l user_page (set l b u w₃) ≡ 1 =
      get-set_other l b user_page u w₃ (base_apart v 2 (omega arith))
      ∙ get-set l user_page 1 w₂
      ∙ flag _ n₂ in
    let a : get l accessed (set l b u w₃) ≡ get l accessed w =
      get-set_other l b accessed u w₃ (base_apart v 5 (omega arith))
      ∙ get-set_other l user_page accessed 1 w₂ (λ e. omega (arith, e))
      ∙ get-set_other l writable accessed 1 w₁ (λ e. omega (arith, e))
      ∙ get-set_other l present accessed 1 w (λ e. omega (arith, e)) in
    let c : get l b (set l b u w₃) ≡ u % 2 ^ 40 = get-set l b u w₃ ∙ ap (λ z. u % 2 ^ z) n₄ in
    rw (p, q, r, a, c) refl
