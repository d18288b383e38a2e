-- ===== src/Tool/Main.antt =====
-- `main` of VMproject/user/petmem.c from its argument to the range of memory that it hands over.
use cs.Prelude.{
  ℕ, ◌+◌, ◌-◌, ◌*◌, ◌/◌, ◌^◌, ◌≤◌, ◌<◌, ◌≡◌, refl, sym, ◌∙◌, ap, subst, Bool, true, false, Option,
  none, some, List, [], ◌∷◌, ◌==◌, if◌then◌else◌, arith, inl, inr, Bool-cases, Option-cases, dec_lt,
  u64, u64-eq_of_lt,
}
use cs.Prelude.Total.{total-le}
use cs.Tool.BlockMap.{Bitmap, cleared, mark}
use cs.Tool.BlockMap.Laws.{marked, Holds, mark-Marks, cleared-Holds, cleared-marked}
use cs.Tool.Retry.{Ended, without, found, search_loop-Ended}
use cs.Tool.{
  Sysfs, Progress, goes, minus_one, ◌>>=◌, accessed, count_blocks, last_number, mark_removable,
  read_blocks, MemoryRange, range_of, petmem,
}
use cs.Tool.Count.{count_blocks-bounds}

-- The numbers of the directories go up, from above `lo`, to `m`.
abbrev pub Ascends : ℕ → List ℕ → ℕ → Type 0
Ascends lo [] m = ⊥
Ascends lo (n ∷ []) m = (lo ≤ n) × (n ≡ m)
Ascends lo (n ∷ k ∷ ns) m = (lo ≤ n) × Ascends (n + 1) (k ∷ ns) m

Ascends-le : (lo : ℕ) (ns : List ℕ) (m : ℕ) → Ascends lo ns m → lo ≤ m
Ascends-le lo [] m a = elim a [ ]
Ascends-le lo (n ∷ []) m a = omega (arith, a.0, a.1)
Ascends-le lo (n ∷ k ∷ ns) m a = omega (arith, a.0, Ascends-le (n + 1) (k ∷ ns) m a.1)

Ascends-in : (lo n : ℕ) (ns : List ℕ) (m : ℕ) → Ascends lo (n ∷ ns) m → n ≤ m
Ascends-in lo n [] m a = omega (arith, a.1)
Ascends-in lo n (k ∷ ns) m a = omega (arith, Ascends-le (n + 1) (k ∷ ns) m a.1)

last_number-Ascends : (lo : ℕ) (ns : List ℕ) (m : ℕ) → Ascends lo ns m → last_number ns ≡ some m
last_number-Ascends lo [] m a = elim a [ ]
last_number-Ascends lo (n ∷ []) m a = ap some a.1
last_number-Ascends lo (n ∷ k ∷ ns) m a = last_number-Ascends (n + 1) (k ∷ ns) m a.1

mul_mono : (a b c : ℕ) → a ≤ b → a * c ≤ b * c
mul_mono a b c h = grind arith

abbrev is_one : Option ℕ → Bool
is_one none = false
is_one (some v) = v == 1

module _ {World : Type 0} (sys : Sysfs World) (w : World) where
  -- The bitmap is allocated, and what it marks is removable.
  record Sound (entries : ℕ) (bitmap : Bitmap) : Type 0 where
    holds : (i : ℕ) → i < entries → Holds bitmap i
    removable : (k : ℕ) → marked bitmap k ≡ true → is_one (sys.removable w k) ≡ true

  -- What the loop over the directories comes to.
  data Marked (entries : ℕ) : Progress Bitmap → Type 0 where
    unread : Marked entries minus_one
    all_read : {bitmap : Bitmap} → Sound entries bitmap → Marked entries (goes bitmap)

  mark-Sound :
      (entries n v : ℕ) (bitmap : Bitmap)
      → n < entries
      → sys.removable w n ≡ some v
      → Sound entries bitmap
      → (bitmap' : Bitmap) × ((if v == 1 then accessed (mark bitmap n) else goes bitmap)
          ≡ goes bitmap')
        × Sound entries bitmap'
  mark-Sound entries n v bitmap l e s = elim (Bool-cases (v == 1)) [
    | inl h ↦
        let (bitmap', f, m) = mark-Marks bitmap n (s.holds n l) in
        (
          bitmap',
          ground (arith, h, f),
          record {
            holds = λ i l. ground (arith, s.holds i l, m.same_size);
            removable = λ k q. ground (arith, m.changes k, s.removable k, q, e, h);
          },
        )
    | inr h ↦ (bitmap, ground (arith, h), s)
  ]

  -- One directory, with what the loop over the others comes to.
  one_directory :
      (m n : ℕ) (names : List ℕ) (j : ℕ) (bitmap : Bitmap)
      → n ≤ m
      → Sound (m + 1) bitmap
      → ((b : Bitmap) → Sound (m + 1) b → Marked (m + 1) (mark_removable sys w (m + 1) names n b))
      → Marked (m + 1) (mark_removable sys w (m + 1) (n ∷ names) j bitmap)
  unfolding mark_removable
  one_directory m n names j bitmap l s further = elim (dec_lt j m) [
    | no h ↦
        let o : mark_removable sys w (m + 1) (n ∷ names) j bitmap ≡ goes bitmap =
          ground (arith, h) in
        subst (Marked (m + 1)) (sym o) (all_read s)
    | yes h ↦ elim (Option-cases (sys.removable w n)) [
      | inl e ↦
          let o : mark_removable sys w (m + 1) (n ∷ names) j bitmap ≡ minus_one =
            ground (arith, h, e) in
          subst (Marked (m + 1)) (sym o) unread
      | inr (v, e) ↦
          let (bitmap', f, s') = mark-Sound (m + 1) n v bitmap (omega (arith, l)) e s in
          let o : mark_removable sys w (m + 1) (n ∷ names) j bitmap
              ≡ mark_removable sys w (m + 1) names n bitmap' =
            ground (arith, h, e, f) in
          subst (Marked (m + 1)) (sym o) (further bitmap' s')
    ]
  ]

  -- After the last directory the loop ends.
  after_last :
      (m n : ℕ) (bitmap : Bitmap) → n ≡ m → mark_removable sys w (m + 1) [] n bitmap ≡ goes bitmap
  unfolding mark_removable
  after_last m n bitmap e = ground (arith, e)

  mark_removable-Marked :
      (m : ℕ) (names : List ℕ) (j lo : ℕ) (bitmap : Bitmap)
      → Ascends lo names m
      → Sound (m + 1) bitmap
      → Marked (m + 1) (mark_removable sys w (m + 1) names j bitmap)
  mark_removable-Marked m [] j lo bitmap a s = elim a [ ]
  mark_removable-Marked m (n ∷ []) j lo bitmap a s =
      one_directory m n [] j bitmap (omega (arith, a.1)) s
        (λ b q. subst (Marked (m + 1)) (sym (after_last m n b a.1)) (all_read q))
  mark_removable-Marked m (n ∷ k ∷ ns) j lo bitmap a s =
      one_directory m n (k ∷ ns) j bitmap (Ascends-in lo n (k ∷ ns) m a) s
        (λ b q. mark_removable-Marked m (k ∷ ns) n (n + 1) b a.1 q)

  cleared-Sound : (m : ℕ) → Sound (m + 1) (cleared (m + 1))
  cleared-Sound m = record {
    holds = λ i l. cleared-Holds (m + 1) i l;
    removable = λ k q. absurd (ground (arith, cleared-marked (m + 1) k, q));
  }

  -- How `main` ends, if it asks for `size` bytes of blocks of `block` bytes, the last with number `m`.
  pub data Handed (size block m : ℕ) : Progress MemoryRange → Type 0 where
    without_memory : Handed size block m minus_one
    range :
        {base_addr pages : ℕ} (w' : World) (r n : ℕ)
        → base_addr ≡ r * block
        → pages ≡ n * block / 4096
        → (size ≤ n * block) × (n * block < size + block)
        → r + n ≤ m + 1
        → ((k : ℕ) → k < n → is_one (sys.removable w (r + k)) ≡ true)
        → ((k : ℕ) → k < n → sys.is_offline w' (k + r) ≡ some true)
        → Handed size block m (goes (record { base_addr = base_addr; pages = pages }))

  module _ (size block m : ℕ) (p : 0 < size) (b : 0 < block) (q : size / block < 2 ^ 31 - 1)
      (r : (m + 1) * block < 2 ^ 64) (t : m < 2 ^ 31) where
    abbrev n : ℕ
    n = count_blocks size block

    enough : (0 < n) × (n < 2 ^ 31) × (size ≤ n * block) × (n * block < size + block)
    enough = count_blocks-bounds size block p b q

    handed_over : (s : ℕ) → s + n ≤ m + 1 → (range_of s n block).base_addr ≡ s * block
    unfolding range_of
    handed_over s l =
        ap (λ v. u64 (v * block)) (ground (arith, l, t, enough))
        ∙ u64-eq_of_lt (s * block) (omega (arith, r, mul_mono s (m + 1) block (omega (arith, l))))

    handed_pages : (s : ℕ) → s + n ≤ m + 1 → (range_of s n block).pages ≡ n * block / 4096
    unfolding range_of
    handed_pages s l =
        ap (λ v. u64 (v * block) / 4096) (ground (arith, enough))
        ∙ ap (λ v. v / 4096)
            (u64-eq_of_lt (n * block)
              (omega (arith, r, mul_mono n (m + 1) block (omega (arith, l)))))

    after_search :
        {bitmap : Bitmap} {o : Progress (World × ℕ)}
        → ((k : ℕ) → marked bitmap k ≡ true → is_one (sys.removable w k) ≡ true)
        → Ended sys n (m + 1) enough.0 enough.1 bitmap o
        → Handed size block m (o >>= λ v. goes (range_of v.1 n block))
    after_search f without = without_memory
    after_search f (found {w = w'} {r = s} l run off) =
        range w' s n (handed_over s l) (handed_pages s l) (enough.2, enough.3) l
          (λ k g. f (s + k) (run k g)) off

    after_blocks :
        (names : List ℕ) {o : Progress Bitmap}
        → read_blocks sys w names ≡ (o >>= λ bitmap. goes (m + 1, bitmap))
        → Marked (m + 1) o
        → (o' : Progress MemoryRange) × (petmem sys (m + 2) w size block names ≡ some o')
          × Handed size block m o'
    unfolding petmem
    after_blocks names e unread = (minus_one, ground (arith, e), without_memory)
    after_blocks names e (all_read {bitmap} s) =
        let (o, f, g) =
          search_loop-Ended sys n (m + 1) enough.0 enough.1 (m + 2) w bitmap 0 (s.holds, inl refl)
            (omega (arith, total-le (marked bitmap) (m + 1))) in
        (o >>= λ v. goes (range_of v.1 n block), ground (arith, e, f), after_search s.removable g)

  -- The directories are in ascending order and `m` is the last, the size and the block size are not
  -- 0, the blocks asked for are fewer than 2 ^ 31, and so are those there are, and no address of
  -- theirs reaches 2 ^ 64. Then `m + 2` turns are enough for the loop, `main` accesses nothing out of
  -- bounds, and if it does not return -1 it hands over a range of whole blocks, of at least `size`
  -- bytes in all, each of which exists, was removable, and was offline at the end.
  pub petmem-Handed :
      (size block m : ℕ) (names : List ℕ)
      → Ascends 0 names m
      → 0 < size
      → 0 < block
      → size / block < 2 ^ 31 - 1
      → (m + 1) * block < 2 ^ 64
      → m < 2 ^ 31
      → (o : Progress MemoryRange) × (petmem sys (m + 2) w size block names ≡ some o)
        × Handed size block m o
  unfolding read_blocks
  petmem-Handed size block m names a p b q r t =
      let l = last_number-Ascends 0 names m a in
      after_blocks size block m p b q r t names (rw l refl)
        (mark_removable-Marked m names 0 0 (cleared (m + 1)) a (cleared-Sound m))
