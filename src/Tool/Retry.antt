-- ===== src/Tool/Retry.antt =====
-- The loop `while (!mem_ready)` of VMproject/user/petmem.c ends: each turn that does not succeed
-- clears a block in the bitmap.
use cs.Prelude.{
  ℕ, zero, suc, ◌+◌, ◌^◌, ◌≤◌, ◌<◌, ◌≡◌, refl, sym, ◌∙◌, ap, subst, Bool, true, false, Option, some,
  arith, ◌⊎◌, inl, inr, Option-cases, dec_lt,
}
use cs.Prelude.Total.{total, total-change}
use cs.Tool.BlockMap.{Bitmap}
use cs.Tool.BlockMap.Laws.{marked, Holds, Marks, unmark-Marks}
use cs.Tool.Scan.{IsRun, IsStart, Found, run, no_run, find_run-Found}
use cs.Tool.{
  Sysfs, Progress, goes, minus_one, ◌>>=◌, at_least, times, set_range, check_offline, offline_run,
  search_turn, after_turn, search_loop,
}

module _ {World : Type 0} (sys : Sysfs World) where
  -- What the check of the blocks from `reg + i` on comes to.
  data Checked (w : World) (bitmap : Bitmap) (reg i left : ℕ)
      : Progress (World × Bitmap × Bool) → Type 0 where
    no_file : Checked w bitmap reg i left minus_one
    all_offline :
        ((k : ℕ) → i ≤ k → k < i + left → sys.is_offline w (k + reg) ≡ some true)
        → Checked w bitmap reg i left (goes (w, bitmap, true))
    online :
        {w' : World} {bitmap' : Bitmap} (k : ℕ)
        → i ≤ k
        → k < i + left
        → Marks false (k + reg) bitmap bitmap'
        → Checked w bitmap reg i left (goes (w', bitmap', false))

  set_range-cases :
      (w : World) (b : Bool) (first count : ℕ)
      → (set_range sys w b first count ≡ minus_one)
        ⊎ ((w' : World) × (set_range sys w b first count ≡ goes w'))
  unfolding set_range
  set_range-cases w b first zero = inr (w, refl)
  set_range-cases w b first (suc count) = elim (Option-cases (sys.set_online w first b)) [
    | inl h ↦ inl (rw h)
    | inr (w', h) ↦ rw h (set_range-cases w' b (first + 1) count)
  ]

  later :
      {w : World} {bitmap : Bitmap} {reg i left : ℕ} {o : Progress (World × Bitmap × Bool)}
      → sys.is_offline w (i + reg) ≡ some true
      → Checked w bitmap reg (i + 1) left o
      → Checked w bitmap reg i (suc left) o
  later h no_file = no_file
  later {w} {reg} {i} h (all_offline f) = all_offline (λ k a b. elim (dec_lt i k) [
    | yes l ↦ f k (omega (arith, l)) (omega (arith, b))
    | no l ↦ ap (λ v. sys.is_offline w (v + reg)) (omega (arith, a, l)) ∙ h
  ])
  later h (online k a b m) = online k (omega (arith, a)) (omega (arith, b)) m

  check_offline-Checked :
      (w : World) (bitmap : Bitmap) (reg i left : ℕ)
      → ((k : ℕ) → k < i + left → Holds bitmap (k + reg))
      → Checked w bitmap reg i left (check_offline sys w bitmap reg i left)
  unfolding check_offline
  check_offline-Checked w bitmap reg i zero h = all_offline (λ k a b. absurd (omega (arith, a, b)))
  check_offline-Checked w bitmap reg i (suc left) h =
      elim (Option-cases (sys.is_offline w (i + reg))) [
        | inl e ↦ rw e no_file
        | inr (true, e) ↦ rw e (
            later e
              (check_offline-Checked w bitmap reg (i + 1) left (λ k l. h k (omega (arith, l)))))
        | inr (false, e) ↦
            let (bitmap', f, m) = unmark-Marks bitmap (i + reg) (h i (omega arith)) in
            elim (set_range-cases w true reg i) [
              | inl g ↦ rw (e, f, g) no_file
              | inr (w', g) ↦ rw (e, f, g) (online i (omega arith) (omega arith) m)
            ]
      ]

  -- What a turn of the loop comes to, for `n` blocks of `entries`.
  data Turned (bitmap : Bitmap) (n entries : ℕ)
      : Progress (World × Bitmap × ℕ × Bool) → Type 0 where
    gives_up : Turned bitmap n entries minus_one
    ready :
        {w' : World} {bitmap' : Bitmap} {r : ℕ}
        → IsRun bitmap n r
        → r + n ≤ entries
        → ((k : ℕ) → k < n → sys.is_offline w' (k + r) ≡ some true)
        → Turned bitmap n entries (goes (w', bitmap', r, true))
    again :
        {w' : World} {bitmap' : Bitmap} {r : ℕ} (j : ℕ)
        → j < entries
        → marked bitmap j ≡ true
        → Marks false j bitmap bitmap'
        → IsStart bitmap n r
        → Turned bitmap n entries (goes (w', bitmap', r, false))

  module _ (n entries : ℕ) (pos : 0 < n) (small : n < 2 ^ 31) where
    -- After a run was found and its blocks were asked to go offline.
    turned :
        {w' : World} {bitmap : Bitmap} (r : ℕ) {o : Progress (World × Bitmap × Bool)}
        → IsRun bitmap n r
        → r + n ≤ entries
        → IsStart bitmap n r
        → Checked w' bitmap r 0 n o
        → Turned bitmap n entries (o >>= λ q. goes (q.0, q.1, r, q.2))
    turned r f b g no_file = gives_up
    turned r f b g (all_offline h) = ready f b (λ k l. h k (omega arith) (omega (arith, l)))
    turned {bitmap = bitmap} r f b g (online k a c m) =
        again (k + r) (omega (arith, b, c))
          (ap (marked bitmap) (omega arith) ∙ f k (omega (arith, c))) m g

    offline_run-Turned :
        (w : World) (bitmap : Bitmap) (r : ℕ × ℕ)
        → ((i : ℕ) → i < entries → Holds bitmap i)
        → Found bitmap n entries r
        → Turned bitmap n entries (offline_run sys n w bitmap r)
    unfolding offline_run
    offline_run-Turned w bitmap r h (no_run {r = s} {len} l f) =
        let e : offline_run sys n w bitmap (s, len) ≡ minus_one = ground (arith, l, small) in
        subst (Turned bitmap n entries) (sym e) gives_up
    offline_run-Turned w bitmap r h (run {r = s} {len} l f b g) =
        let q : at_least len n ≡ true = ground (arith, l) in
        let t : times n ≡ n = ground (arith, small) in
        elim (set_range-cases w false s n) [
          | inl e ↦
              let o : offline_run sys n w bitmap (s, len) ≡ minus_one = ground (arith, q, t, e) in
              subst (Turned bitmap n entries) (sym o) gives_up
          | inr (w', e) ↦
              let c =
                check_offline-Checked w' bitmap s 0 n (λ k l'. h (k + s) (omega (arith, l', b))) in
              let o : offline_run sys n w bitmap (s, len)
                  ≡ (check_offline sys w' bitmap s 0 n >>= λ q. goes (q.0, q.1, s, q.2)) =
                ground (arith, q, t, e) in
              subst (Turned bitmap n entries) (sym o) (turned s f b g c)
        ]

    search_turn-Turned :
        (w : World) (bitmap : Bitmap) (reg : ℕ)
        → ((i : ℕ) → i < entries → Holds bitmap i)
        → IsStart bitmap n reg
        → Turned bitmap n entries (search_turn sys entries n w bitmap reg)
    unfolding search_turn
    search_turn-Turned w bitmap reg h g =
        let (r, e, c) = find_run-Found bitmap n entries pos small h reg g in
        rw e (offline_run-Turned w bitmap r h c)

    -- How the loop ends.
    pub data Ended (bitmap : Bitmap) : Progress (World × ℕ) → Type 0 where
      without : Ended bitmap minus_one
      found :
          {w : World} {r : ℕ}
          → r + n ≤ entries
          → IsRun bitmap n r
          → ((k : ℕ) → k < n → sys.is_offline w (k + r) ≡ some true)
          → Ended bitmap (goes (w, r))

    -- A bitmap with fewer blocks marked.
    Ended-less :
        {bitmap bitmap' : Bitmap} {o : Progress (World × ℕ)} (j : ℕ)
        → Marks false j bitmap bitmap'
        → Ended bitmap' o
        → Ended bitmap o
    Ended-less j m without = without
    Ended-less j m (found {w} {r} b f h) =
        found b (λ k l. ground (arith, f k l, m.changes (r + k))) h

    unmark-total :
        {bitmap bitmap' : Bitmap} (j : ℕ)
        → j < entries
        → marked bitmap j ≡ true
        → Marks false j bitmap bitmap'
        → total (marked bitmap') entries < total (marked bitmap) entries
    unmark-total {bitmap} {bitmap'} j l h m = ground (
      arith,
      total-change (marked bitmap) (marked bitmap') entries j l
          (λ k _ d. ground (arith, m.changes k, d)),
      h,
      m.changes j,
    )

    -- The bitmap is allocated, and the last start comes with a gap.
    abbrev pub Ready : Bitmap → ℕ → Type 0
    Ready bitmap reg = ((i : ℕ) → i < entries → Holds bitmap i) × IsStart bitmap n reg

    abbrev Ends : Bitmap → Option (Progress (World × ℕ)) → Type 0
    Ends bitmap loop = (o : Progress (World × ℕ)) × (loop ≡ some o) × Ended bitmap o

    -- A gap stays a gap when a block is cleared.
    clear-Ready :
        {bitmap bitmap' : Bitmap} {r : ℕ} (j : ℕ)
        → Marks false j bitmap bitmap'
        → Ready bitmap r
        → Ready bitmap' r
    clear-Ready j m (h, inl e) = (λ i l. ground (arith, h i l, m.same_size), inl e)
    clear-Ready j m (h, inr (k, l, g)) = (
      λ i l'. ground (arith, h i l', m.same_size),
      inr (k, l, ground (arith, m.changes (0 + k), g)),
    )

    after_turn-Ends :
        (fuel : ℕ) (bitmap : Bitmap) (further : World → Bitmap → ℕ → Option (Progress (World × ℕ)))
        → ((w : World) (b : Bitmap) (r : ℕ)
            → Ready b r
            → total (marked b) entries < fuel
            → Ends b (further w b r))
        → ((i : ℕ) → i < entries → Holds bitmap i)
        → total (marked bitmap) entries < suc fuel
        → {o : Progress (World × Bitmap × ℕ × Bool)} → Turned bitmap n entries o
        → Ends bitmap (after_turn sys further o)
    after_turn-Ends fuel bitmap further ih h l gives_up = (minus_one, refl, without)
    after_turn-Ends fuel bitmap further ih h l (ready {w'} {r = r} f b k) =
        (goes (w', r), refl, found b f k)
    after_turn-Ends fuel bitmap further ih h l (again {w'} {bitmap'} {r} j lj hj m g) =
        let t = unmark-total j lj hj m in
        let (o, e, q) = ih w' bitmap' r (clear-Ready j m (h, g)) (omega (arith, t, l)) in
        (o, e, Ended-less j m q)

    -- For at least one block and fewer than 2 ^ 31, from a bitmap that is allocated for all blocks:
    -- with more turns than there are marked blocks the loop ends, and accesses nothing out of bounds.
    -- If `main` goes on after it, the blocks exist, were marked when the loop began, and are offline.
    pub search_loop-Ended :
        (fuel : ℕ) (w : World) (bitmap : Bitmap) (reg : ℕ)
        → Ready bitmap reg
        → total (marked bitmap) entries < fuel
        → (o : Progress (World × ℕ)) × (search_loop sys fuel entries n w bitmap reg ≡ some o)
          × Ended bitmap o
    unfolding search_loop
    search_loop-Ended zero w bitmap reg h l = absurd (omega (arith, l))
    search_loop-Ended (suc fuel) w bitmap reg h l =
        after_turn-Ends fuel bitmap (search_loop sys fuel entries n)
          (λ w' b r q k. search_loop-Ended fuel w' b r q k) h.0 l
          (search_turn-Turned w bitmap reg h.0 h.1)
