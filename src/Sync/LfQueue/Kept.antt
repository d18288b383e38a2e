-- ===== src/Sync/LfQueue/Kept.antt =====
-- What a step of one thread in the queue of SyncProject/locking.c leaves of the chain and to the others.
use cs.Prelude.{
  ℕ, ◌≢◌, sym, subst, true, false, List, ◌++◌, ◌==◌, Bool-cases, inl, inr, arith, append-nil,
}
use cs.Sync.LfQueue.{
  LfQueue, update, Pc, outside, enq_loop, enq_link, enq_test, enq_help, enq_move, enq_last,
  deq_loop, deq_test, deq_load, deq_move, deq_old, deq_new, deq_value, deq_store, Choice, enqueues,
  dequeues, go,
}
use cs.Sync.LfQueue.Calls.{count, linked, Chain, Chain-same, Chain-link}
use cs.Sync.LfQueue.Linked.{own, Held, Before, After}

-- What another thread knows stays true.
pub Held-other :
    (t : ℕ) (n k n' k' : ℕ → ℕ) (p p' : Pc) (m m' : LfQueue) (o : Pc)
    → After t n k n' k' p p' m m'
    → (own o ≢ 0 → own o ≢ own p)
    → Held t n m.next o
    → Held t n' m'.next o
Held-other t n k n' k' p p' m m' outside a d h = tt
Held-other t n k n' k' p p' m m' (enq_loop q) a d h = ground (arith, h, d, a.others q)
Held-other t n k n' k' p p' m m' (enq_link q x) a d h = ground (arith, h, d, a.others q, a.grows x)
Held-other t n k n' k' p p' m m' (enq_test q x) a d h =
    ground (arith, h, d, a.others q, a.grows x, a.links x h.2 h.3)
Held-other t n k n' k' p p' m m' (enq_help q x) a d h =
    ground (arith, h, d, a.others q, a.grows x, a.links x h.2 h.3)
Held-other t n k n' k' p p' m m' (enq_move q x y) a d h =
    ground (arith, h, d, a.others q, a.grows y)
Held-other t n k n' k' p p' m m' (enq_last q x) a d h = ground (arith, h, d, a.others q)
Held-other t n k n' k' p p' m m' deq_loop a d h = tt
Held-other t n k n' k' p p' m m' (deq_test x) a d h = tt
Held-other t n k n' k' p p' m m' (deq_load x) a d h = tt
Held-other t n k n' k' p p' m m' (deq_move x y) a d h = tt
Held-other t n k n' k' p p' m m' (deq_old x y) a d h = tt
Held-other t n k n' k' p p' m m' (deq_new x y) a d h = tt
Held-other t n k n' k' p p' m m' (deq_value x y) a d h = tt
Held-other t n k n' k' p p' m m' (deq_store x y) a d h = tt

-- The chain after a step.
pub go-Chain :
    (t : ℕ) (k : ℕ → ℕ) (qs : List ℕ) (c : Choice) (p : Pc) (m : LfQueue)
    → Before t (λ x. count x qs) k p c m
    → Chain m.next t qs
    → Chain (go c p m).0.next t (qs ++ linked m p)
go-Chain t k qs (enqueues q val) outside m b h =
    subst (Chain (update m.next q 0) t) (sym (append-nil qs)) (
      Chain-same m.next (update m.next q 0) t qs
        (λ x r. ground (arith, r, b.once q, b.new x, b.not_first)) h)
go-Chain t k qs dequeues outside m b h = subst (Chain m.next t) (sym (append-nil qs)) h
go-Chain t k qs c (enq_link q p) m b h = elim (Bool-cases (m.next p == 0)) [
  | inl e ↦ rw e (
      Chain-link m.next t p q qs h (ground (arith, b.held)) (ground (arith, e))
        (ground (arith, b.held, b.known, b.new_first)) (ground (arith, b.blank, b.held)) b.held.0)
  | inr e ↦ rw e (
      subst (Chain _ t) (sym (append-nil qs))
        (Chain-same m.next _ t qs (λ x r. ground (arith, e)) h))
]
go-Chain t k qs c (deq_test p) m b h = elim (Bool-cases (m.next p == 0)) [
  | inl e ↦ rw e (subst (Chain m.next t) (sym (append-nil qs)) h)
  | inr e ↦ rw e (subst (Chain m.next t) (sym (append-nil qs)) h)
]
go-Chain t k qs c (deq_store x true) m b h = subst (Chain m.next t) (sym (append-nil qs)) h
go-Chain t k qs c (deq_store x false) m b h = subst (Chain m.next t) (sym (append-nil qs)) h
go-Chain t k qs c p m b h = subst (Chain m.next t) (sym (append-nil qs)) h
