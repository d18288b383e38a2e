-- ===== src/Vm/Pool/Cover.antt =====
-- The pools that the ioctl ADD_MEMORY of VMproject/main.c makes tile the memory that it was given.
use cs.Prelude.{
  ℕ, zero, suc, ◌+◌, ◌-◌, ◌*◌, ◌%◌, ◌^◌, ◌≤◌, ◌<◌, ◌≡◌, refl, sym, ◌∙◌, ap, subst, none, some, List,
  [], ◌∷◌, ◌++◌, u32, u64, u64-eq_of_lt, arith, inl, inr, Option-cases, dec_lt,
}
use native.Mathlib.Nat.{pow-le-pow_right, pow-suc}
use cs.Vm.Pool.{
  Buddy, KeepsPlace, Arch, IsFls, Ran, fine, bug, page_shift, one_shifted, add_loop, add_memory,
}

pow-lt : (a b : ℕ) → 2 ^ a < 2 ^ b → a < b
pow-lt a b h = elim (dec_lt a b) [
  | yes l ↦ l
  | no l ↦
      absurd (
        omega (arith, h, pow-le-pow_right {n = 2} (omega arith) {i = b} {j = a} (omega (arith, l))))
]

pow_add : (a b : ℕ) → 2 ^ (a + b) ≡ 2 ^ a * 2 ^ b
pow_add a zero = let e : a + 0 ≡ a = omega arith in ap (λ v. 2 ^ v) e ∙ omega arith
pow_add a (suc b) =
    let e : a + suc b ≡ suc (a + b) = omega arith in
    ap (λ v. 2 ^ v) e
    ∙ pow-suc 2 (a + b)
    ∙ ap (λ v. v * 2) (pow_add a b)
    ∙ grind (arith, pow-suc 2 b)

pages_of : (o : ℕ) → 2 ^ (o + 12) ≡ 2 ^ o * 4096
pages_of o = pow_add o 12

one_shifted-small : (o : ℕ) → o < 31 → one_shifted o ≡ 2 ^ o
one_shifted-small o l =
    let e : o % 32 ≡ o = omega (arith, l) in ground (arith, ap (λ v. 2 ^ v) e, l)

-- The order of a number of pages that is not 0: what it takes and what is left.
record Order (fls : ℕ → ℕ) (n : ℕ) : Type 0 where
  o : ℕ
  is_order : fls n ≡ suc o
  small : o < 31
  not_above : 2 ^ o ≤ n
  falls : fls (n - 2 ^ o) < suc o

falls_of : {fls : ℕ → ℕ} (n : ℕ) → IsFls fls → 0 < n → fls (n - 2 ^ (fls n - 1)) < suc (fls n - 1)
falls_of {fls} n f p =
    let q = n - 2 ^ (fls n - 1) in
    let (z, lo, hi) = f.fls_range n p in
    let e : 2 ^ fls n ≡ 2 ^ (fls n - 1) * 2 =
      let g : fls n ≡ suc (fls n - 1) = omega (arith, z) in
      ap (λ v. 2 ^ v) g ∙ pow-suc 2 (fls n - 1) in
    elim (dec_lt 0 q) [
      | yes l ↦
          let g = pow-lt (fls q - 1) (fls n - 1) (omega (arith, (f.fls_range q l).1, hi, lo, e)) in
          omega (arith, g, (f.fls_range q l).0)
      | no l ↦ let g : q ≡ 0 = omega (arith, l) in omega (arith, ap fls g ∙ f.fls_zero)
    ]

highest : {fls : ℕ → ℕ} (n : ℕ) → IsFls fls → 0 < n → n < 2 ^ 31 → Order fls n
highest {fls} n f p l =
    let (z, lo, hi) = f.fls_range n p in
    record {
      o = fls n - 1;
      is_order = omega (arith, z);
      small = pow-lt (fls n - 1) 31 (omega (arith, lo, l));
      not_above = lo;
      falls = falls_of n f p;
    }

module _ {Mempool : Type 0} (buddy : Buddy Mempool) (arch : Arch) (keeps : KeepsPlace buddy)
    (is_fls : IsFls arch.fls) where
  -- The pools, newest first, lie one behind the other from `b` to `e`.
  abbrev pub Tiles : ℕ → List Mempool → ℕ → Type 0
  Tiles b [] e = b ≡ e
  Tiles b (p ∷ ps) e =
      (buddy.base_addr p + 2 ^ buddy.pool_order p ≡ e) × Tiles b ps (buddy.base_addr p)

  -- How the loop ends that began with the pools `old` at `b` and was to reach `e`.
  pub data Added (b : ℕ) (old : List Mempool) (e : ℕ) : Ran (List Mempool) → Type 0 where
    stopped : Added b old e bug
    all_added : (new : List Mempool) → Tiles b new e → Added b old e (fine (new ++ old))
    part_added :
        (new : List Mempool) (c o : ℕ)
        → Tiles b new c
        → c < e
        → buddy.buddy_init c o page_shift ≡ none
        → Added b old e (fine (new ++ old))

  num_pages_fall :
      (n o : ℕ) {v : ℕ}
      → v ≡ 2 ^ o
      → 2 ^ o ≤ n
      → n < 2 ^ 31
      → u32 (n + 2 ^ 32 - v % 2 ^ 32) ≡ n - 2 ^ o
  unfolding u32
  num_pages_fall n o e f l = omega (arith, e, f, l)

  next_tile :
      (b cur : ℕ) (new : List Mempool) {tmp pool : Mempool} (o : ℕ)
      → buddy.buddy_init cur (suc o + page_shift - 1) page_shift ≡ some tmp
      → buddy.buddy_free tmp cur (suc o + page_shift - 1) ≡ some pool
      → Tiles b new cur
      → Tiles b (pool ∷ new) (cur + 2 ^ o * 4096)
  next_tile b cur new {tmp} {pool} o i k t =
      let (ib, io) = keeps.init_place _ _ _ i in
      let (fb, fo) = keeps.free_place _ _ k in
      let at : buddy.base_addr pool ≡ cur = fb ∙ ib in
      let or : buddy.pool_order pool ≡ o + 12 = fo ∙ io ∙ omega arith in
      (omega (arith, at, ap (λ v. 2 ^ v) or, pages_of o), subst (Tiles b new) (sym at) t)

  add_loop-Added :
      (fuel n cur b e : ℕ) (new old : List Mempool)
      → arch.fls n < fuel
      → n < 2 ^ 31
      → cur + n * 4096 ≡ e
      → e < 2 ^ 64
      → Tiles b new cur
      → Added b old e (add_loop buddy arch fuel n cur (new ++ old))
  unfolding add_loop
  add_loop-Added zero n cur b e new old f l q h t = absurd (omega (arith, f))
  add_loop-Added (suc fuel) n cur b e new old f l q h t = elim (dec_lt 0 n) [
    | no z ↦
        let n0 : n ≡ 0 = omega (arith, z) in
        let g : add_loop buddy arch (suc fuel) n cur (new ++ old) ≡ fine (new ++ old) =
          ground (arith, ap arch.fls n0 ∙ is_fls.fls_zero) in
        subst (Added b old e) (sym g) (all_added new (subst (Tiles b new) (omega (arith, q, n0)) t))
    | yes p ↦
        let r = highest n is_fls p l in
        let w = one_shifted-small r.o r.small in
        elim (Option-cases (buddy.buddy_init cur (suc r.o + page_shift - 1) page_shift)) [
          | inl i ↦
              let g : add_loop buddy arch (suc fuel) n cur (new ++ old) ≡ fine (new ++ old) =
                ground (arith, r.is_order, i) in
              subst (Added b old e) (sym g) (part_added new cur _ t (omega (arith, q, p)) i)
          | inr (tmp, i) ↦
              elim (Option-cases (buddy.buddy_free tmp cur (suc r.o + page_shift - 1))) [
                | inl k ↦
                    let g : add_loop buddy arch (suc fuel) n cur (new ++ old) ≡ bug =
                      ground (arith, r.is_order, i, k) in
                    subst (Added b old e) (sym g) stopped
                | inr (pool, k) ↦
                    let o1 : arch.fls n - 1 ≡ r.o = omega (arith, r.is_order) in
                    let w' : one_shifted (arch.fls n - 1) ≡ 2 ^ r.o = ap one_shifted o1 ∙ w in
                    let d : u32 (n + 2 ^ 32 - one_shifted (arch.fls n - 1) % 2 ^ 32) ≡ n - 2 ^ r.o =
                      num_pages_fall n r.o w' r.not_above l in
                    let c : u64 (cur + one_shifted (arch.fls n - 1) * 4096) ≡ cur + 2 ^ r.o * 4096 =
                      ap (λ v. u64 (cur + v * 4096)) w'
                      ∙ u64-eq_of_lt (cur + 2 ^ r.o * 4096) (omega (arith, q, r.not_above, h)) in
                    let g : add_loop buddy arch (suc fuel) n cur (new ++ old)
                        ≡ add_loop buddy arch fuel (n - 2 ^ r.o) (cur + 2 ^ r.o * 4096)
                            (pool ∷ new ++ old) =
                      ground (arith, r.is_order, i, k, d, c) in
                    subst (Added b old e) (sym g) (
                      add_loop-Added fuel (n - 2 ^ r.o) (cur + 2 ^ r.o * 4096) b e (pool ∷ new) old
                        (omega (arith, r.falls, r.is_order, f)) (omega (arith, l))
                        (omega (arith, q, r.not_above)) h (next_tile b cur new r.o i k t))
              ]
        ]
  ]

  fls-lt : (n : ℕ) → n < 2 ^ 31 → arch.fls n < 34
  fls-lt n l = elim (dec_lt 0 n) [
    | yes p ↦ let r = highest n is_fls p l in omega (arith, r.is_order, r.small)
    | no z ↦ let e : n ≡ 0 = omega (arith, z) in omega (arith, ap arch.fls e ∙ is_fls.fls_zero)
  ]

  -- The kernel's `fls` is that of a word of 32 bits, and a pool keeps the place that it was made
  -- with. ADD_MEMORY of fewer than 2 ^ 31 pages below the end of the address space ends within its
  -- turns. If no BUG_ON stops it, its new pools lie one behind the other from the base address on.
  -- They end with the memory that was given, or before it where the making of a pool failed.
  pub add_memory-Added :
      (base pages : ℕ) (pools : List Mempool)
      → pages < 2 ^ 31
      → arch.va base + pages * 4096 < 2 ^ 64
      → Added
          (arch.va base)
          pools
          (arch.va base + pages * 4096)
          (add_memory buddy arch base pages pools)
  unfolding add_memory u32
  add_memory-Added base pages pools l h =
      let e : pages % 2 ^ 32 ≡ pages = omega (arith, l) in
      subst
        (λ n.
          Added (arch.va base) pools (arch.va base + pages * 4096)
            (add_loop buddy arch 34 n (arch.va base) pools))
        (sym e)
        (add_loop-Added 34 pages (arch.va base) (arch.va base) (arch.va base + pages * 4096) []
          pools (fls-lt pages l) l refl h refl)
