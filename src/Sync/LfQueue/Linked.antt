-- ===== src/Sync/LfQueue/Linked.antt =====
-- One access of a thread in the queue of SyncProject/locking.c, against the nodes that were made and
-- those that were linked. `n x` and `k x` are how often `x` was linked and made.
use cs.Prelude.{
  ℕ, ◌+◌, ◌≤◌, ◌<◌, ◌≡◌, ◌≢◌, refl, sym, ◌∙◌, ap, true, false, ◌==◌, one_if, Bool-cases, inl, inr,
  ◌⊎◌, arith,
}
use cs.Sync.LfQueue.{
  LfQueue, Pc, outside, enq_loop, enq_link, enq_test, enq_help, enq_move, enq_last, deq_loop,
  deq_test, deq_load, deq_move, deq_old, deq_new, deq_value, deq_store, Choice, enqueues, dequeues,
  go,
}
use cs.Sync.LfQueue.Calls.{count, made, begun, linked}

-- The node of the call of `lf_enqueue` that a thread is in, or 0.
abbrev pub own : Pc → ℕ
own (enq_loop q) = q
own (enq_link q p) = q
own (enq_test q p) = q
own (enq_help q p) = q
own (enq_move q p next) = q
own (enq_last q p) = q
own p = 0

-- Is a node the first tail `t` or one that was linked?
abbrev pub Reached : ℕ → (ℕ → ℕ) → ℕ → Type 0
Reached t n x = 0 < one_if (t == x) + n x

-- What a thread knows of its node and of the nodes that it has loaded.
abbrev pub Held : ℕ → (ℕ → ℕ) → (ℕ → ℕ) → Pc → Type 0
Held t n next (enq_loop q) = (q ≢ 0) × (n q ≡ 0)
Held t n next (enq_link q p) = (q ≢ 0) × (n q ≡ 0) × Reached t n p
Held t n next (enq_test q p) = (q ≢ 0) × (n q ≡ one_if (q == next p)) × Reached t n p × (next p ≢ 0)
Held t n next (enq_help q p) = (q ≢ 0) × (n q ≡ 0) × Reached t n p × (next p ≢ 0)
Held t n next (enq_move q p x) = (q ≢ 0) × (n q ≡ 0) × Reached t n x
Held t n next (enq_last q p) = (q ≢ 0) × (n q ≡ 1)
Held t n next p = Unit {0}

-- What holds before a step of a thread that stands at `p` and begins the call `c` where it is in none.
pub record Before (t : ℕ) (n k : ℕ → ℕ) (p : Pc) (c : Choice) (m : LfQueue) : Type 0 where
  pub first : t ≢ 0
  pub new : (x : ℕ) → n x ≤ k x
  pub new_first : k t ≡ 0
  pub on : (x : ℕ) → Reached t n x → m.next x ≢ 0 → 0 < n (m.next x)
  pub tail : Reached t n m.tail
  pub held : Held t n m.next p
  pub known : own p ≢ 0 → 0 < k (own p)
  pub once : (x : ℕ) → k x + made x (begun p c) ≤ 1
  pub real : made 0 (begun p c) ≡ 0
  pub not_first : made t (begun p c) ≡ 0
  pub blank : own p ≢ 0 → n (own p) ≡ 0 → m.next (own p) ≡ 0

-- What holds after it.
pub record After (t : ℕ) (n k n' k' : ℕ → ℕ) (p p' : Pc) (m m' : LfQueue) : Type 0 where
  pub tail : Reached t n' m'.tail
  pub held : Held t n' m'.next p'
  pub known : own p' ≢ 0 → 0 < k' (own p')
  pub owned : own p' ≢ 0 → (own p' ≡ own p) ⊎ (k (own p') ≡ 0)
  pub kept : own p ≢ 0 → (own p' ≡ own p) ⊎ (0 < n' (own p))
  pub added : (x : ℕ) → 0 < k' x → (0 < k x) ⊎ (own p' ≡ x)
  pub new : (x : ℕ) → n' x ≤ k' x
  pub grows : (x : ℕ) → n x ≤ n' x
  pub others : (x : ℕ) → x ≢ own p → n' x ≡ n x
  pub links : (x : ℕ) → Reached t n x → m.next x ≢ 0 → m'.next x ≡ m.next x
  pub values : (x : ℕ) → 0 < k x → m'.value x ≡ m.value x
  pub blank : own p' ≢ 0 → n' (own p') ≡ 0 → m'.next (own p') ≡ 0
  pub blanks : (x : ℕ) → 0 < k x → n x ≡ 0 → x ≢ own p → m'.next x ≡ m.next x

abbrev Goes : ℕ → (ℕ → ℕ) → (ℕ → ℕ) → Choice → Pc → LfQueue → Type 0
Goes t n k c p m =
    After t n k (λ x. n x + count x (linked m p)) (λ x. k x + made x (begun p c)) p (go c p m).1 m
      (go c p m).0

-- A step that writes no node.
still :
    (t : ℕ) (n k : ℕ → ℕ) (c : Choice) (p p' : Pc) (m : LfQueue) (head tail : ℕ)
    → Before t n k p c m
    → Reached t n tail
    → Held t (λ x. n x + 0) m.next p'
    → (own p' ≡ own p) ⊎ ((own p' ≡ 0) × (own p ≢ 0 → 0 < n (own p)))
    → After t n k (λ x. n x + 0) (λ x. k x + 0) p p' m (record m { head = head; tail = tail })
still t n k c p p' m head tail b r h (inl e) = record {
  tail = omega (arith, r);
  held = h;
  known = λ z. ground (arith, b.known (λ y. z (e ∙ y)), ap k e);
  owned = λ z. inl e;
  kept = λ z. inl e;
  added = λ x g. inl (omega (arith, g));
  new = λ x. omega (arith, b.new x);
  grows = λ x. omega arith;
  others = λ x z. omega arith;
  links = λ x g z. refl;
  values = λ x g. refl;
  blank = λ z g. ap m.next e ∙ b.blank (λ y. z (e ∙ y)) (ap n (sym e) ∙ omega (arith, g));
  blanks = λ x g z y. refl;
}
still t n k c p p' m head tail b r h (inr (e, l)) = record {
  tail = omega (arith, r);
  held = h;
  known = λ z. absurd (z e);
  owned = λ z. absurd (z e);
  kept = λ z. inr (omega (arith, l z));
  added = λ x g. inl (omega (arith, g));
  new = λ x. omega (arith, b.new x);
  grows = λ x. omega arith;
  others = λ x z. omega arith;
  links = λ x g z. refl;
  values = λ x g. refl;
  blank = λ z g. absurd (z e);
  blanks = λ x g z y. refl;
}

begins :
    (t : ℕ) (n k : ℕ → ℕ) (q val : ℕ) (m : LfQueue)
    → Before t n k outside (enqueues q val) m
    → Goes t n k (enqueues q val) outside m
begins t n k q val m b =
    let fresh : k q ≡ 0 = ground (arith, b.once q) in
    let apart : (x : ℕ) → Reached t n x → (q == x) ≡ false =
      λ x r. ground (arith, r, b.new x, b.not_first, fresh) in
    record {
      tail = omega (arith, b.tail);
      held = ground (arith, b.real, b.new q, fresh);
      known = λ z. ground arith;
      owned = λ z. inr fresh;
      kept = λ z. absurd (z refl);
      added = λ x g. ground (arith, g);
      new = λ x. ground (arith, b.new x);
      grows = λ x. omega arith;
      others = λ x z. omega arith;
      links = λ x g z. ground (arith, apart x g);
      values = λ x g. ground (arith, g, fresh);
      blank = λ z g. ground arith;
      blanks = λ x g z y. ground (arith, g, fresh);
    }

links_node :
    (t : ℕ) (n k : ℕ → ℕ) (c : Choice) (q p : ℕ) (m : LfQueue)
    → Before t n k (enq_link q p) c m
    → Goes t n k c (enq_link q p) m
links_node t n k c q p m b = elim (Bool-cases (m.next p == 0)) [
  | inl e ↦ record {
    tail = omega (arith, b.tail);
    held = ground (arith, e, b.held, b.known);
    known = λ z. ground (arith, b.known);
    owned = λ z. inl refl;
    kept = λ z. inl refl;
    added = λ x g. inl (omega (arith, g));
    new = λ x. ground (arith, e, b.new x, b.held, b.known);
    grows = λ x. omega arith;
    others = λ x z. ground (arith, e, z);
    links = λ x g z. ground (arith, e, z);
    values = λ x g. refl;
    blank = λ z g. ground (arith, e, g, b.held);
    blanks = λ x g z y. ground (arith, e, g, z, b.held, b.new_first);
  }
  | inr e ↦ record {
    tail = ground (arith, e, b.tail);
    held =
        let o = b.on p b.held.2 (ground (arith, e)) in
        let ne : q ≢ m.next p = λ h. omega (arith, o, ap n h, b.held.1) in
        ground (arith, e, b.held, ne);
    known = λ z. ground (arith, b.known);
    owned = λ z. inl refl;
    kept = λ z. inl refl;
    added = λ x g. inl (omega (arith, g));
    new = λ x. ground (arith, e, b.new x);
    grows = λ x. omega arith;
    others = λ x z. ground (arith, e, z);
    links = λ x g z. ground (arith, e, z);
    values = λ x g. refl;
    blank = λ z g. ground (arith, e, g, b.blank, b.held);
    blanks = λ x g z y. ground (arith, e, g, z);
  }
]

tests_node :
    (t : ℕ) (n k : ℕ → ℕ) (c : Choice) (q p : ℕ) (m : LfQueue)
    → Before t n k (enq_test q p) c m
    → Goes t n k c (enq_test q p) m
tests_node t n k c q p m b = elim (Bool-cases (q == m.next p)) [
  | inl e ↦ rw e (
      still t n k c (enq_test q p) (enq_last q p) m m.head m.tail b b.tail
        (ground (arith, e, b.held)) (inl refl))
  | inr e ↦ rw e (
      still t n k c (enq_test q p) (enq_help q p) m m.head m.tail b b.tail
        (ground (arith, e, b.held)) (inl refl))
]

tests_head :
    (t : ℕ) (n k : ℕ → ℕ) (c : Choice) (p : ℕ) (m : LfQueue)
    → Before t n k (deq_test p) c m
    → Goes t n k c (deq_test p) m
tests_head t n k c p m b = elim (Bool-cases (m.next p == 0)) [
  | inl e ↦ rw e (still t n k c (deq_test p) outside m m.head m.tail b b.tail tt (inl refl))
  | inr e ↦ rw e (still t n k c (deq_test p) (deq_load p) m m.head m.tail b b.tail tt (inl refl))
]

pub go-After :
    (t : ℕ) (n k : ℕ → ℕ) (c : Choice) (p : Pc) (m : LfQueue)
    → Before t n k p c m
    → Goes t n k c p m
go-After t n k (enqueues q val) outside m b = begins t n k q val m b
go-After t n k dequeues outside m b =
    still t n k dequeues outside deq_loop m m.head m.tail b b.tail tt (inl refl)
go-After t n k c (enq_loop q) m b =
    still t n k c (enq_loop q) (enq_link q m.tail) m m.head m.tail b b.tail
      (ground (arith, b.held, b.tail)) (inl refl)
go-After t n k c (enq_link q p) m b = links_node t n k c q p m b
go-After t n k c (enq_test q p) m b = tests_node t n k c q p m b
go-After t n k c (enq_help q p) m b =
    still t n k c (enq_help q p) (enq_move q p (m.next p)) m m.head m.tail b b.tail
      (let o = b.on p b.held.2 b.held.3 in ground (arith, b.held, o)) (inl refl)
go-After t n k c (enq_move q p next) m b =
    still t n k c (enq_move q p next) (enq_loop q) m m.head (go c (enq_move q p next) m).0.tail b
      (ground (arith, b.held, b.tail)) (ground (arith, b.held)) (inl refl)
go-After t n k c (enq_last q p) m b =
    still t n k c (enq_last q p) outside m m.head (go c (enq_last q p) m).0.tail b
      (ground (arith, b.held, b.tail)) tt (inr (refl, λ z. ground (arith, b.held)))
go-After t n k c deq_loop m b =
    still t n k c deq_loop (deq_test m.head) m m.head m.tail b b.tail tt (inl refl)
go-After t n k c (deq_test p) m b = tests_head t n k c p m b
go-After t n k c (deq_load p) m b =
    still t n k c (deq_load p) (deq_move p (m.next p)) m m.head m.tail b b.tail tt (inl refl)
go-After t n k c (deq_move p next) m b =
    still t n k c (deq_move p next) (deq_old p m.head) m (go c (deq_move p next) m).0.head m.tail b
      b.tail tt (inl refl)
go-After t n k c (deq_old p oldhead) m b =
    still t n k c (deq_old p oldhead) (deq_new p (m.next oldhead)) m m.head m.tail b b.tail tt
      (inl refl)
go-After t n k c (deq_new p old_next) m b =
    still t n k c (deq_new p old_next) (deq_value p (old_next == m.next p)) m m.head m.tail b b.tail
      tt (inl refl)
go-After t n k c (deq_value p succ) m b =
    still t n k c (deq_value p succ) (deq_store (m.next p) succ) m m.head m.tail b b.tail tt
      (inl refl)
go-After t n k c (deq_store node true) m b =
    still t n k c (deq_store node true) outside m m.head m.tail b b.tail tt (inl refl)
go-After t n k c (deq_store node false) m b =
    still t n k c (deq_store node false) deq_loop m m.head m.tail b b.tail tt (inl refl)
