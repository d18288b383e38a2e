-- ===== src/Sync/LfQueue/Lost.antt =====
-- What is enqueued in the queue of SyncProject/locking.c is not found by `lf_dequeue`.
use cs.Prelude.{
  ℕ, ◌≡◌, ◌≢◌, refl, sym, Bool, true, false, List, [], ◌∷◌, ◌==◌, if◌then◌else◌, arith, All,
}
use cs.Sync.LfQueue.{
  LfQueue, Pc, outside, enq_loop, enq_link, enq_test, enq_help, enq_move, enq_last, deq_loop,
  deq_test, Choice, enqueues, dequeues, Return, got, go, System, step, run, start,
}

-- The addresses that a thread holds, other than the head `h` of the queue.
abbrev Apart : ℕ → Pc → Type 0
Apart h outside = Unit {0}
Apart h (enq_loop q) = q ≢ h
Apart h (enq_link q p) = (q ≢ h) × (p ≢ h)
Apart h (enq_test q p) = (q ≢ h) × (p ≢ h)
Apart h (enq_help q p) = (q ≢ h) × (p ≢ h)
Apart h (enq_move q p next) = (q ≢ h) × (p ≢ h) × (next ≢ h)
Apart h (enq_last q p) = (q ≢ h) × (p ≢ h)
Apart h deq_loop = Unit {0}
Apart h (deq_test p) = p ≡ h
Apart h _ = ⊥

-- `malloc` does not return the node that the head points to.
abbrev pub Fresh : ℕ → Choice → Type 0
Fresh h (enqueues q val) = q ≢ h
Fresh h dequeues = Unit {0}

abbrev pub is_got : Return → Bool
is_got (got val) = true
is_got _ = false

record Inv (h : ℕ) (s : System) : Type 0 where
  same_head : s.mem.head ≡ h
  no_next : s.mem.next h ≡ 0
  other_tail : s.mem.tail ≢ h
  unreached : (x : ℕ) → s.mem.next x ≢ h
  apart : (j : ℕ) → Apart h (s.pc j)

abbrev Kept : ℕ → LfQueue × Pc × Return → Type 0
Kept h r =
    (r.0.head ≡ h)
    × (r.0.next h ≡ 0)
    × (r.0.tail ≢ h)
    × ((x : ℕ) → r.0.next x ≢ h)
    × Apart h r.1
    × (is_got r.2 ≡ false)

go-Kept :
    (h : ℕ) (c : Choice) (p : Pc) (m : LfQueue)
    → h ≢ 0
    → Fresh h c
    → m.head ≡ h
    → m.next h ≡ 0
    → m.tail ≢ h
    → ((x : ℕ) → m.next x ≢ h)
    → Apart h p
    → Kept h (go c p m)
go-Kept h (enqueues q val) outside m z f a b d u ap =
    (a, ground (arith, b), d, λ x. ground (arith, u x, z), f, refl)
go-Kept h dequeues outside m z f a b d u ap = (a, b, d, u, tt, refl)
go-Kept h c (enq_help q p) m z f a b d u ap = (a, b, d, u, (ap.0, ap.1, u p), refl)
go-Kept h c p m z f a b d u ap = (
  ground (arith, a, ap),
  ground (arith, b, ap, z),
  ground (arith, d, ap),
  λ x. ground (arith, u x, ap, z),
  ground (arith, ap, b, d, a),
  ground (arith, ap, b),
)

step-Inv : (h i : ℕ) (c : Choice) (s : System) → h ≢ 0 → Fresh h c → Inv h s → Inv h (step (i, c) s)
step-Inv h i c s z f v =
    let k =
      go-Kept h c (s.pc i) s.mem z f v.same_head v.no_next v.other_tail v.unreached (v.apart i) in
    record {
      same_head = k.0;
      no_next = k.1;
      other_tail = k.2;
      unreached = k.3;
      apart = λ j. elim (i == j) as (λ b. Apart h (if b then (go c (s.pc i) s.mem).1 else s.pc j)) [
        | true ↦ k.4
        | false ↦ v.apart j
      ];
    }

-- Every call of `lf_dequeue` that has returned so far returned 0.
abbrev pub AllEmpty : List Return → Type 0
AllEmpty rs = All (λ r. is_got r ≡ false) rs

run-AllEmpty_from :
    (h : ℕ) (cs : List (ℕ × Choice)) (s : System)
    → h ≢ 0
    → All (λ c. Fresh h c.1) cs
    → Inv h s
    → AllEmpty s.returns
    → AllEmpty (run cs s).returns
run-AllEmpty_from h [] s z f v e = e
run-AllEmpty_from h ((i, c) ∷ cs) s z f v e =
    let k =
      go-Kept h c (s.pc i) s.mem z f.0 v.same_head v.no_next v.other_tail v.unreached (v.apart i) in
    run-AllEmpty_from h cs (step (i, c) s) z f.1 (step-Inv h i c s z f.0 v) (k.5, e)

-- In every interleaving, no call of `lf_dequeue` on a queue after `lf_queue_init` returns 1, whatever
-- was enqueued, if `malloc` gave two addresses for the head and the tail and never again that of the
-- head: what `lf_enqueue` adds is lost.
pub run-AllEmpty :
    (head tail : ℕ) (cs : List (ℕ × Choice))
    → head ≢ 0
    → tail ≢ head
    → All (λ c. Fresh head c.1) cs
    → AllEmpty (run cs (start head tail)).returns
run-AllEmpty head tail cs z d f =
    run-AllEmpty_from head cs (start head tail) z f
      (record {
        same_head = refl;
        no_next = refl;
        other_tail = d;
        unreached = λ x e. z (sym e);
        apart = λ j. tt;
      })
      tt
