-- ===== src/Tool/Scan.antt =====
-- The scan of the bitmap in VMproject/user/petmem.c finds a run of marked blocks if there is one.
use cs.Prelude.{
  ℕ, zero, suc, ◌+◌, ◌-◌, ◌^◌, ◌≤◌, ◌<◌, ◌≡◌, refl, sym, ◌∙◌, ap, true, false, arith, ◌⊎◌, inl, inr,
  Bool-cases, dec_lt,
}
use cs.Tool.BlockMap.{Bitmap}
use cs.Tool.BlockMap.Laws.{marked, Holds, test-marked}
use cs.Tool.{goes, find_run}

-- Block `k` among `n` from `r` on is not marked.
abbrev pub HasGap : Bitmap → ℕ → ℕ → Type 0
HasGap bitmap n r = (k : ℕ) × (k < n) × (marked bitmap (r + k) ≡ false)

abbrev pub IsRun : Bitmap → ℕ → ℕ → Type 0
IsRun bitmap n r = (k : ℕ) → k < n → marked bitmap (r + k) ≡ true

-- A start that is not 0 comes from a gap in the first `n` blocks.
abbrev pub IsStart : Bitmap → ℕ → ℕ → Type 0
IsStart bitmap n r = (r ≡ 0) ⊎ HasGap bitmap n 0

-- What the scan returns, in a bitmap of `entries` blocks.
pub data Found (bitmap : Bitmap) (n entries : ℕ) : ℕ × ℕ → Type 0 where
  run :
      {r len : ℕ}
      → n ≤ len
      → IsRun bitmap n r
      → r + n ≤ entries
      → IsStart bitmap n r
      → Found bitmap n entries (r, len)
  no_run :
      {r len : ℕ}
      → len < n
      → ((s : ℕ) → s + n ≤ entries → HasGap bitmap n s)
      → Found bitmap n entries (r, len)

module _ (bitmap : Bitmap) (n entries : ℕ) (pos : 0 < n) (small : n < 2 ^ 31)
    (holds : (i : ℕ) → i < entries → Holds bitmap i) where
  -- The state of the scan before block `i`: the last `len` blocks are marked and the one before them
  -- is not; `reg` is where they begin, unless no gap was seen.
  record At (i reg len : ℕ) : Type 0 where
    short : len < n
    within : len ≤ i
    marks : (k : ℕ) → k < len → marked bitmap (i - len + k) ≡ true
    before : len < i → marked bitmap (i - len - 1) ≡ false
    start : (reg ≡ i - len) ⊎ (len ≡ i)
    gap : IsStart bitmap n reg
    none_before : (s : ℕ) → s + n ≤ i → HasGap bitmap n s

  last_block : (i s : ℕ) → marked bitmap i ≡ false → s + n ≡ i + 1 → HasGap bitmap n s
  last_block i s h e = (n - 1, omega (arith, pos), ap (marked bitmap) (omega (arith, e, pos)) ∙ h)

  At-gap : {i reg len : ℕ} → At i reg len → marked bitmap i ≡ false → At (i + 1) (i + 1) 0
  At-gap {i} {reg} {len} a h = record {
    short = pos;
    within = omega arith;
    marks = λ k l. absurd (omega (arith, l));
    before = λ l. ap (marked bitmap) (omega arith) ∙ h;
    start = inl (omega arith);
    gap = inr (elim (dec_lt i n) [
      | yes l ↦ (i, l, ap (marked bitmap) (omega arith) ∙ h)
      | no l ↦ a.none_before 0 (omega (arith, l))
    ]);
    none_before = λ s l. elim (dec_lt i (s + n)) [
      | yes m ↦ last_block i s h (omega (arith, l, m))
      | no m ↦ a.none_before s (omega (arith, m))
    ];
  }

  marks_on :
      {i reg len : ℕ}
      → At i reg len
      → marked bitmap i ≡ true
      → (k : ℕ) → k < len + 1
      → marked bitmap (i - len + k) ≡ true
  marks_on {i} {reg} {len} a h k l = elim (dec_lt k len) [
    | yes m ↦ a.marks k m
    | no m ↦ ap (marked bitmap) (omega (arith, l, m, a.within)) ∙ h
  ]

  At-marked :
      {i reg len : ℕ}
      → At i reg len
      → marked bitmap i ≡ true
      → len + 1 < n
      → At (i + 1) reg (len + 1)
  At-marked {i} {reg} {len} a h m = record {
    short = m;
    within = omega (arith, a.within);
    marks = λ k l. ap (λ v. marked bitmap (v + k)) (omega arith) ∙ marks_on a h k l;
    before = λ l. ap (marked bitmap) (omega arith) ∙ a.before (omega (arith, l));
    start = ground (arith, a.start, a.within);
    gap = a.gap;
    none_before = λ s l. elim (dec_lt i (s + n)) [
      | yes o ↦ (
        i - len - 1 - s,
        omega (arith, l, o, m),
        ap (marked bitmap) (omega (arith, l, o, m)) ∙ a.before (omega (arith, o, l, m)),
      )
      | no o ↦ a.none_before s (omega (arith, o))
    ];
  }

  At-run :
      {i reg len : ℕ}
      → At i reg len
      → marked bitmap i ≡ true
      → n ≤ len + 1
      → i < entries
      → Found bitmap n entries (reg, len + 1)
  At-run {i} {reg} {len} a h m l = elim (a.start) [
    | inl e ↦
        at (omega arith) (omega (arith, e, l, m, a.short, a.within))
          (λ k o. ap (λ v. marked bitmap (v + k)) e ∙ marks_on a h k (omega (arith, o, m)))
    | inr e ↦ elim (a.gap) [
      | inl z ↦ at (omega arith) (omega (arith, z, e, l, a.short)) (λ k o.
          ap (λ v. marked bitmap (v + k)) (omega (arith, z, e))
          ∙ marks_on a h k (omega (arith, o, m)))
      | inr (k, o, g) ↦ absurd (clash k g (marks_on a h k (omega (arith, o, m))) e)
    ]
  ]
    where
      at :
          n ≤ len + 1
          → reg + n ≤ entries
          → IsRun bitmap n reg
          → Found bitmap n entries (reg, len + 1)
      at c b r = run c r b a.gap

      clash :
          (k : ℕ) → marked bitmap (0 + k) ≡ false → marked bitmap (i - len + k) ≡ true → len ≡ i → ⊥
      clash k g t e = ground (arith, sym g ∙ ap (marked bitmap) (omega (arith, e)) ∙ t)

  find_run-Found_from :
      (left i reg len : ℕ)
      → i + left ≡ entries
      → At i reg len
      → (r : ℕ × ℕ) × (find_run bitmap n left i reg len ≡ goes r) × Found bitmap n entries r
  unfolding find_run
  find_run-Found_from zero i reg len e a =
      ((reg, len), refl, no_run a.short (λ s l. a.none_before s (omega (arith, e, l))))
  find_run-Found_from (suc left) i reg len e a =
      let l : i < entries = omega (arith, e) in
      let t = test-marked bitmap i (holds i l) in
      elim (Bool-cases (marked bitmap i)) [
        | inl h ↦ elim (dec_lt (len + 1) n) [
          | yes m ↦
              let (r, f, g) =
                find_run-Found_from left (i + 1) reg (len + 1) (omega (arith, e))
                  (At-marked a h m) in
              (r, ground (arith, t, h, m, f, small), g)
          | no m ↦ ((reg, len + 1), ground (arith, t, h, m), At-run a h (omega (arith, m)) l)
        ]
        | inr h ↦
            let (r, f, g) =
              find_run-Found_from left (i + 1) (i + 1) 0 (omega (arith, e)) (At-gap a h) in
            (r, ground (arith, t, h, f), g)
      ]

  -- For at least one block and fewer than 2 ^ 31, and with the bitmap allocated for all blocks, the
  -- scan accesses nothing out of bounds. If its run is as long as asked for, the blocks from its
  -- start on are marked and exist, and otherwise no such run exists. Its start from the last turn
  -- is 0, or comes with a gap in the first blocks.
  pub find_run-Found :
      (reg : ℕ)
      → IsStart bitmap n reg
      → (r : ℕ × ℕ) × (find_run bitmap n entries 0 reg 0 ≡ goes r) × Found bitmap n entries r
  find_run-Found reg g = find_run-Found_from entries 0 reg 0 (omega arith) (record {
    short = pos;
    within = omega arith;
    marks = λ k l. absurd (omega (arith, l));
    before = λ l. absurd (omega (arith, l));
    start = inr refl;
    gap = g;
    none_before = λ s l. absurd (omega (arith, l, pos));
  })
