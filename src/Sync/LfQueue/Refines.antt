-- ===== src/Sync/LfQueue/Refines.antt =====
-- The queue of SyncProject/locking.c as the list of the nodes that were linked.
use cs.Prelude.{
  ℕ, ◌+◌, ◌≤◌, ◌<◌, ◌≡◌, ◌≢◌, refl, sym, ◌∙◌, ap, subst, fun_ext, false, List, [], ◌∷◌, ◌++◌, ◌==◌,
  dec_lt, ==_iff, ==_refl, Bool-cases, inl, inr, ◌⊎◌, arith, append-nil, append_assoc, All,
}
use cs.Sync.LfQueue.{LfQueue, Pc, outside, Choice, enqueues, dequeues, go, System, step, run, start}
use cs.Sync.LfQueue.Calls.{
  count, made, begun, linked, calls, links, Chain, Chain-next, count-append, made-append,
}
use cs.Sync.LfQueue.Linked.{own, Reached, Held, Before, After, go-After}
use cs.Sync.LfQueue.Kept.{Held-other, go-Chain}

-- The values of the calls.
abbrev pub Holds : (ℕ → ℕ) → List (ℕ × ℕ) → Type 0
Holds value c = All (λ (r : ℕ × ℕ). value r.0 ≡ r.1) c

Holds-same :
    (value value' : ℕ → ℕ) (cs : List (ℕ × ℕ))
    → ((x : ℕ) → 0 < made x cs → value' x ≡ value x)
    → Holds value cs
    → Holds value' cs
Holds-same value value' [] s h = tt
Holds-same value value' ((q, val) ∷ cs) s h =
    (s q (ground arith) ∙ h.0, Holds-same value value' cs (λ x z. s x (omega (arith, z))) h.1)

Holds-append :
    (value : ℕ → ℕ) (cs ds : List (ℕ × ℕ))
    → Holds value cs
    → Holds value ds
    → Holds value (cs ++ ds)
Holds-append value [] ds h g = g
Holds-append value (c ∷ cs) ds h g = (h.0, Holds-append value cs ds h.1 g)

begun-Holds : (c : Choice) (p : Pc) (m : LfQueue) → Holds (go c p m).0.value (begun p c)
begun-Holds (enqueues q val) outside m = (ground arith, tt)
begun-Holds dequeues outside m = tt
begun-Holds c p m = tt

pub record Inv (t : ℕ) (qs : List ℕ) (cs : List (ℕ × ℕ)) (s : System) : Type 0 where
  pub first : t ≢ 0
  pub chain : Chain s.mem.next t qs
  pub tail : Reached t (λ x. count x qs) s.mem.tail
  pub held : (i : ℕ) → Held t (λ x. count x qs) s.mem.next (s.pc i)
  pub known : (i : ℕ) → own (s.pc i) ≢ 0 → 0 < made (own (s.pc i)) cs
  pub apart : (i j : ℕ) → (i == j) ≡ false → own (s.pc i) ≢ 0 → own (s.pc j) ≢ own (s.pc i)
  pub new : (x : ℕ) → count x qs ≤ made x cs
  pub pending : (x : ℕ) → 0 < made x cs → (0 < count x qs) ⊎ ((i : ℕ) × (own (s.pc i) ≡ x))
  pub blank :
      (i : ℕ) → own (s.pc i) ≢ 0 → count (own (s.pc i)) qs ≡ 0 → s.mem.next (own (s.pc i)) ≡ 0
  pub values : Holds s.mem.value cs

-- What malloc gives: every address once, and neither 0 nor the first tail.
pub record Fresh (t : ℕ) (cs : List (ℕ × ℕ)) : Type 0 where
  pub once : (x : ℕ) → made x cs ≤ 1
  pub real : made 0 cs ≡ 0
  pub not_first : made t cs ≡ 0

module _ {t : ℕ} {qs : List ℕ} {cs : List (ℕ × ℕ)} {s : System} (v : Inv t qs cs s) (i : ℕ)
    (c : Choice) (f : Fresh t (cs ++ begun (s.pc i) c)) where
  abbrev more : List ℕ
  more = qs ++ linked s.mem (s.pc i)

  abbrev made_then : List (ℕ × ℕ)
  made_then = cs ++ begun (s.pc i) c

  before : Before t (λ x. count x qs) (λ x. made x cs) (s.pc i) c s.mem
  before = record {
    first = v.first;
    new = v.new;
    new_first = omega (arith, f.not_first, made-append t cs (begun (s.pc i) c));
    on = λ x r z. Chain-next s.mem.next t x qs v.chain r z;
    tail = v.tail;
    held = v.held i;
    known = v.known i;
    once = λ x. omega (arith, f.once x, made-append x cs (begun (s.pc i) c));
    real = omega (arith, f.real, made-append 0 cs (begun (s.pc i) c));
    not_first = omega (arith, f.not_first, made-append t cs (begun (s.pc i) c));
    blank = v.blank i;
  }

  abbrev next_pc : Pc
  next_pc = (go c (s.pc i) s.mem).1

  after :
      After t
        (λ x. count x qs)
        (λ x. made x cs)
        (λ x. count x more)
        (λ x. made x made_then)
        (s.pc i)
        next_pc
        s.mem
        (go c (s.pc i) s.mem).0
  after =
      let a = go-After t (λ x. count x qs) (λ x. made x cs) c (s.pc i) s.mem before in
      let b =
        subst
          (λ (n' : ℕ → ℕ).
            After t (λ x. count x qs) (λ x. made x cs) n'
              (λ x. made x cs + made x (begun (s.pc i) c)) (s.pc i) next_pc s.mem
              (go c (s.pc i) s.mem).0)
          (fun_ext (λ x. sym (count-append x qs (linked s.mem (s.pc i))))) a in
      subst
        (λ (k' : ℕ → ℕ).
          After t (λ x. count x qs) (λ x. made x cs) (λ x. count x more) k' (s.pc i) next_pc s.mem
            (go c (s.pc i) s.mem).0)
        (fun_ext (λ x. sym (made-append x cs (begun (s.pc i) c)))) b

  others_apart : (j : ℕ) → (i == j) ≡ false → own (s.pc j) ≢ 0 → own (s.pc j) ≢ own (s.pc i)
  others_apart j e z = λ h. v.apart j i (ground (arith, e)) z (sym h)

  step-apart : (j : ℕ) → (i == j) ≡ false → own (s.pc j) ≢ 0 → own next_pc ≢ own (s.pc j)
  step-apart j e z h = elim (after.owned (λ y. z (sym h ∙ y))) [
    | inl g ↦ others_apart j e z (sym h ∙ g)
    | inr g ↦ omega (arith, v.known j z, g, ap (λ x. made x cs) h)
  ]

  step-pending :
      (x : ℕ)
      → 0 < made x made_then
      → (0 < count x more) ⊎ ((j : ℕ) × (own ((step (i, c) s).pc j) ≡ x))
  step-pending x z = elim (after.added x z) [
    | inl old ↦ elim (v.pending x old) [
      | inl g ↦ inl (omega (arith, g, after.grows x))
      | inr (w, h) ↦ elim (Bool-cases (i == w)) [
        | inl e ↦
            let h' : own (s.pc i) ≡ x = ap (λ u. own (s.pc u)) ((==_iff i w).0 e) ∙ h in
            let nz : own (s.pc i) ≢ 0 =
              λ y. omega (arith, z, f.real, ap (λ u. made u made_then) (sym h' ∙ y)) in
            elim (after.kept nz) [
              | inl g ↦ inr (i, rw (==_refl i) (g ∙ h'))
              | inr g ↦ inl (subst (λ u. 0 < count u more) h' g)
            ]
        | inr e ↦ inr (w, rw e h)
      ]
    ]
    | inr g ↦ inr (i, rw (==_refl i) g)
  ]

  step-values : Holds (go c (s.pc i) s.mem).0.value made_then
  step-values =
      Holds-append (go c (s.pc i) s.mem).0.value cs (begun (s.pc i) c)
        (Holds-same s.mem.value (go c (s.pc i) s.mem).0.value cs after.values v.values)
        (begun-Holds c (s.pc i) s.mem)

  pub step-Inv : Inv t more made_then (step (i, c) s)
  step-Inv = record {
    first = v.first;
    chain = go-Chain t (λ x. made x cs) qs c (s.pc i) s.mem before v.chain;
    tail = after.tail;
    held = λ j. elim (Bool-cases (i == j)) [
      | inl e ↦ rw e after.held
      | inr e ↦ rw e (
          Held-other t _ _ _ _ (s.pc i) next_pc s.mem _ (s.pc j) after (others_apart j e)
            (v.held j))
    ];
    known = λ j. elim (Bool-cases (i == j)) [
      | inl e ↦ rw e after.known
      | inr e ↦
          rw e (λ z. omega (arith, v.known j z, made-append (own (s.pc j)) cs (begun (s.pc i) c)))
    ];
    apart = λ j l d. elim (Bool-cases (i == j)) [
      | inl e ↦
          let e' : (i == l) ≡ false = ground (arith, e, d) in
          rw (e, e') (λ z h. step-apart l e' (λ y. z (sym h ∙ y)) (sym h))
      | inr e ↦ elim (Bool-cases (i == l)) [
        | inl e' ↦ rw (e, e') (λ z. step-apart j e z)
        | inr e' ↦ rw (e, e') (v.apart j l d)
      ]
    ];
    new = after.new;
    pending = step-pending;
    blank = λ j. elim (Bool-cases (i == j)) [
      | inl e ↦ rw e after.blank
      | inr e ↦ rw e (λ z g.
          after.blanks (own (s.pc j)) (v.known j z) (omega (arith, g, after.grows (own (s.pc j))))
            (others_apart j e z)
          ∙ v.blank j z (omega (arith, g, after.grows (own (s.pc j)))))
    ];
    values = step-values;
  }

Fresh-fewer : (t : ℕ) (cs ds : List (ℕ × ℕ)) → Fresh t (cs ++ ds) → Fresh t cs
Fresh-fewer t cs ds f = record {
  once = λ x. omega (arith, f.once x, made-append x cs ds);
  real = omega (arith, f.real, made-append 0 cs ds);
  not_first = omega (arith, f.not_first, made-append t cs ds);
}

run-Inv :
    (t : ℕ) (qs : List ℕ) (cs : List (ℕ × ℕ)) (is : List (ℕ × Choice)) (s : System)
    → Inv t qs cs s
    → Fresh t (cs ++ calls is s)
    → Inv t (qs ++ links is s) (cs ++ calls is s) (run is s)
run-Inv t qs cs [] s v f =
    subst (λ (l : List ℕ). Inv t l (cs ++ []) s) (sym (append-nil qs))
      (subst (λ (l : List (ℕ × ℕ)). Inv t qs l s) (sym (append-nil cs)) v)
run-Inv t qs cs ((i, c) ∷ is) s v f =
    let b = begun (s.pc i) c in
    let rest = calls is (step (i, c) s) in
    let f' : Fresh t ((cs ++ b) ++ rest) = subst (Fresh t) (sym (append_assoc cs b rest)) f in
    let r =
      run-Inv t (qs ++ linked s.mem (s.pc i)) (cs ++ b) is (step (i, c) s)
        (step-Inv v i c (Fresh-fewer t (cs ++ b) rest f')) f' in
    subst (λ (l : List ℕ). Inv t l (cs ++ (b ++ rest)) (run is (step (i, c) s)))
      (append_assoc qs (linked s.mem (s.pc i)) (links is (step (i, c) s)))
      (subst
        (λ (l : List (ℕ × ℕ)).
          Inv t ((qs ++ linked s.mem (s.pc i)) ++ links is (step (i, c) s)) l
            (run is (step (i, c) s)))
        (append_assoc cs b rest) r)

start-Inv : (head tail : ℕ) → tail ≢ 0 → Inv tail [] [] (start head tail)
start-Inv head tail z = record {
  first = z;
  chain = refl;
  tail = ground arith;
  held = λ i. tt;
  known = λ i h. absurd (h refl);
  apart = λ i j e h. absurd (h refl);
  new = λ x. omega arith;
  pending = λ x h. absurd (omega (arith, h));
  blank = λ i h g. absurd (h refl);
  values = tt;
}

-- In every interleaving of any number of threads that call `lf_enqueue` and `lf_dequeue` after
-- `lf_queue_init`, where malloc gives each node another address, and none 0 or that of the first
-- tail: behind the first tail stand exactly the nodes that were linked, in the order in which they
-- were. Each holds the value of its call, and a node whose call has returned stands there exactly
-- once.
pub run-Linked :
    (head tail : ℕ) (is : List (ℕ × Choice)) (q : ℕ)
    → tail ≢ 0
    → Fresh tail (calls is (start head tail))
    → ((i : ℕ) → own ((run is (start head tail)).pc i) ≢ q)
    → Chain (run is (start head tail)).mem.next tail (links is (start head tail))
      × Holds (run is (start head tail)).mem.value (calls is (start head tail))
      × (count q (links is (start head tail)) ≡ made q (calls is (start head tail)))
run-Linked head tail is q z f h =
    let v = run-Inv tail [] [] is (start head tail) (start-Inv head tail z) f in
    let n = v.new q in
    let o = f.once q in
    let e : (0 < made q (calls is (start head tail))) → 0 < count q (links is (start head tail)) =
      λ m. elim (v.pending q m) [ inl g ↦ g | inr (i, g) ↦ absurd (h i g) ] in
    (
      v.chain,
      v.values,
      elim (dec_lt 0 (made q (calls is (start head tail)))) [
        | yes m ↦ omega (arith, n, o, e m)
        | no m ↦ omega (arith, n, m)
      ],
    )
