-- ===== src/Vm/Pool/Tests.antt =====
-- The pools of VMproject/main.c with a small allocator, and their theorems there.
use cs.Prelude.{
  ℕ, zero, suc, ◌+◌, ◌-◌, ◌*◌, ◌/◌, ◌^◌, ◌≤◌, ◌<◌, ◌≡◌, refl, sym, ◌∙◌, ap, subst, Bool, true,
  false, not, ◌&&◌, ◌||◌, none, some, List, [], ◌∷◌, ◌==◌, ltb, leb, if◌then◌else◌, arith, u32, u64,
  u64_sub, dec_lt,
}
use native.Mathlib.Nat.{pow-suc}
use cs.Vm.Pool.{
  Buddy, KeepsPlace, Arch, IsFls, Ran, fine, add_loop, add_memory, alloc_pages, free_pages,
  alloc_from,
}
use cs.Vm.Pool.Cover.{Added, add_memory-Added}
use cs.Vm.Pool.Blocks.{free_pages-alloc_pages}

-- The direct map of the 64-bit kernel.
abbrev direct : ℕ
direct = 0xffff888000000000

-- A pool in the direct map that hands out its memory once, as a whole.
record Mempool : Type 0 where
  base : ℕ
  order : ℕ
  full : Bool

abbrev whole : Buddy Mempool
whole = record {
  buddy_init =
      λ b o m. if leb m o then some (record { base = b; order = o; full = true }) else none;
  buddy_alloc = λ p o.
      if leb o p.order
      then some (
        record p { full = true },
        if p.full || not (leb direct p.base && ltb p.base (direct + 2 ^ 46)) then 0 else p.base,
      )
      else none;
  buddy_free = λ p a o. some (record p { full = false });
  base_addr = λ p. p.base;
  pool_order = λ p. p.order;
}

whole-KeepsPlace : KeepsPlace whole
whole-KeepsPlace = record {
  init_place = λ b o m e. ground (arith, e);
  alloc_place = λ o e. ground (arith, e);
  free_place = λ a o e. ground (arith, e);
}

bits : ℕ → ℕ → ℕ
bits zero n = 0
bits (suc fuel) n = let rest = bits fuel (n / 2) in if n == 0 then 0 else suc rest

zero-bits : (fuel : ℕ) → bits fuel 0 ≡ 0
unfolding bits
zero-bits zero = refl
zero-bits (suc fuel) = refl

bits-range :
    (fuel n : ℕ)
    → n ≤ fuel
    → 0 < n
    → (0 < bits fuel n) × (2 ^ (bits fuel n - 1) ≤ n) × (n < 2 ^ bits fuel n)
unfolding bits
bits-range zero n l p = absurd (omega (arith, l, p))
bits-range (suc fuel) n l p = elim (dec_lt 0 (n / 2)) [
  | yes h ↦
      let (z, lo, hi) = bits-range fuel (n / 2) (omega (arith, l, p)) h in
      let f = bits fuel (n / 2) in
      let e : bits (suc fuel) n ≡ suc f = ground (arith, p) in
      let g : f ≡ suc (f - 1) = omega (arith, z) in
      let r : suc f - 1 ≡ f = omega arith in
      let q : 2 ^ f ≡ 2 ^ (f - 1) * 2 = ap (λ v. 2 ^ v) g ∙ pow-suc 2 (f - 1) in
      subst (λ b. (0 < b) × (2 ^ (b - 1) ≤ n) × (n < 2 ^ b)) (sym e)
        (omega arith, omega (arith, lo, q, ap (λ v. 2 ^ v) r), omega (arith, hi, pow-suc 2 f))
  | no h ↦
      let one : n ≡ 1 = omega (arith, h, p) in
      let half : n / 2 ≡ 0 = omega (arith, h) in
      let e : bits (suc fuel) n ≡ 1 = ground (arith, p, ap (bits fuel) half ∙ zero-bits fuel) in
      subst (λ b. (0 < b) × (2 ^ (b - 1) ≤ n) × (n < 2 ^ b)) (sym e)
        (omega arith, omega (arith, one), omega (arith, one))
]

abbrev x86 : Arch
x86 = record {
  va = λ a. a + direct;
  pa = λ v. u64_sub v direct;
  fls = λ n. bits n n;
  get_order = λ size. bits size ((size + 4095) / 4096 - 1);
}

x86-IsFls : IsFls x86.fls
unfolding bits
x86-IsFls = record { fls_zero = refl; fls_range = λ n p. bits-range n n (omega arith) p }

abbrev pools_of : Ran (List Mempool) → List Mempool
pools_of (fine ps) = ps
pools_of _ = []

-- Six pages at 1 MB: a pool of four pages, then one of two.
abbrev six_pages : List Mempool
six_pages =
    record { base = 0xffff888000104000; order = 13; full = false }
    ∷ record { base = 0xffff888000100000; order = 14; full = false }
    ∷ []

six_pages_added : add_memory whole x86 0x100000 6 [] ≡ fine six_pages
unfolding add_memory add_loop bits u32 u64
six_pages_added = refl

add_memory-Added_example :
    Added whole x86 whole-KeepsPlace x86-IsFls
      (x86.va 0x100000)
      []
      (x86.va 0x100000 + 6 * 4096)
      (add_memory whole x86 0x100000 6 [])
add_memory-Added_example =
    add_memory-Added whole x86 whole-KeepsPlace x86-IsFls 0x100000 6 [] (omega arith) (omega arith)

-- The first pool is full, and the second is not asked.
abbrev full_first : List Mempool
full_first =
    record { base = 0xffff888000104000; order = 13; full = true }
    ∷ record { base = 0xffff888000100000; order = 14; full = false }
    ∷ []

full_first_answer : alloc_pages whole x86 1 full_first ≡ fine (full_first, 0x778000000000)
unfolding alloc_pages alloc_from bits u64 u64_sub
full_first_answer = refl

-- Physical addresses of the direct map.
low : (p : Mempool) (o : ℕ) (r : Mempool × ℕ) → whole.buddy_alloc p o ≡ some r → x86.pa r.1 < 2 ^ 47
unfolding u64_sub
low p o r e = ground (arith, e)

taken_first : alloc_pages whole x86 1 six_pages ≡ fine (full_first, 0x104000)
unfolding alloc_pages alloc_from bits u64 u64_sub
taken_first = refl

free_pages-alloc_pages_example : free_pages whole x86 0x104000 1 full_first ≡ fine full_first
free_pages-alloc_pages_example =
    free_pages-alloc_pages whole x86 whole-KeepsPlace low 1 0x104000 six_pages full_first
      (omega arith, (omega arith, tt)) taken_first
