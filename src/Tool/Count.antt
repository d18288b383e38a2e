-- ===== src/Tool/Count.antt =====
-- The number of blocks that VMproject/user/petmem.c asks for.
use cs.Prelude.{
  ℕ, ◌+◌, ◌*◌, ◌/◌, ◌%◌, ◌^◌, ◌-◌, ◌≤◌, ◌<◌, ◌≡◌, ◌==◌, u32, arith, Bool-cases, inl, inr, ◌⊎◌,
}
use cs.Tool.{count_blocks}

divided : (x b : ℕ) → 0 < b → x ≡ x / b * b + x % b
divided x b h = grind arith

rest-lt : (x b : ℕ) → 0 < b → x % b < b
rest-lt x b h = grind arith

count_blocks-cases :
    (size block : ℕ)
    → size / block < 2 ^ 31 - 1
    → ((size % block ≡ 0) × (count_blocks size block ≡ size / block))
      ⊎ ((0 < size % block) × (count_blocks size block ≡ size / block + 1))
unfolding count_blocks u32
count_blocks-cases size block q = elim (Bool-cases (size % block == 0)) [
  | inl h ↦ inl (ground (arith, h), ground (arith, h, q))
  | inr h ↦ inr (ground (arith, h), ground (arith, h, q))
]

-- For a positive size, a block size that is not 0 and fewer than 2 ^ 31 blocks.
pub count_blocks-bounds :
    (size block : ℕ)
    → 0 < size
    → 0 < block
    → size / block < 2 ^ 31 - 1
    → (0 < count_blocks size block)
      × (count_blocks size block < 2 ^ 31)
      × (size ≤ count_blocks size block * block)
      × (count_blocks size block * block < size + block)
count_blocks-bounds size block p b q =
    let d = divided size block b in
    let l = rest-lt size block b in
    elim (count_blocks-cases size block q) [
      | inl (h, e) ↦ (
        grind (arith, h, e, d),
        omega (arith, e, q),
        grind (arith, h, e, d),
        grind (arith, h, e, d),
      )
      | inr (h, e) ↦
          (omega (arith, e), omega (arith, e, q), grind (arith, e, d, l), grind (arith, h, e, d))
    ]
