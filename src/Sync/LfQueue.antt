-- ===== src/Sync/LfQueue.antt =====
-- The lock-free queue of SyncProject/locking.c, with any number of threads that enqueue and dequeue
-- and every access of a shared word as a step of its own. A node is its address, and 0 is NULL.
-- A schedule says which thread moves, and, where it is outside, which function it calls; the address
-- that `malloc` returns is part of it.
pub mod Lost
pub mod Calls
pub mod Linked
pub mod Kept
pub mod Refines
mod Tests
use cs.Prelude.{ℕ, suc, ◌+◌, Bool, true, false, List, [], ◌∷◌, ◌==◌, if◌then◌else◌}
use cs.Sync.Atomic.{compare_and_swap}

-- `struct lf_queue`, with the nodes.
pub record LfQueue : Type 0 where
  pub head : ℕ
  pub tail : ℕ
  pub next : ℕ → ℕ
  pub value : ℕ → ℕ

abbrev pub update : (ℕ → ℕ) → ℕ → ℕ → ℕ → ℕ
update f x y z = if x == z then y else f z

-- `lf_queue_init`, with the two addresses that `malloc` returns.
abbrev pub lf_queue_init : ℕ → ℕ → LfQueue
lf_queue_init head tail = record { head = head; tail = tail; next = λ _. 0; value = λ _. 0 }

abbrev pub swap_next : ℕ → ℕ → ℕ → LfQueue → LfQueue
swap_next p expected new m = record m {
  next = update m.next p (compare_and_swap (m.next p) expected new).1;
}

abbrev pub swap_tail : ℕ → ℕ → LfQueue → LfQueue
swap_tail expected new m = record m { tail = (compare_and_swap m.tail expected new).1 }

abbrev pub swap_head : ℕ → ℕ → LfQueue → LfQueue
swap_head expected new m = record m { head = (compare_and_swap m.head expected new).1 }

-- Where a thread stands, with the local variables that are live there.
pub data Pc : Type 0 where
  outside : Pc
  enq_loop : (q : ℕ) → Pc  -- the head of the loop of `lf_enqueue`
  enq_link : (q p : ℕ) → Pc  -- before the swap of `p->next`
  enq_test : (q p : ℕ) → Pc  -- before `succ = (q==p->next)`
  enq_help : (q p : ℕ) → Pc  -- before the load of `p->next` for the swap of the tail
  enq_move : (q p next : ℕ) → Pc  -- before that swap
  enq_last : (q p : ℕ) → Pc  -- before the last swap of the tail
  deq_loop : Pc  -- the head of the loop of `lf_dequeue`
  deq_test : (p : ℕ) → Pc  -- before `p->next == NULL`
  deq_load : (p : ℕ) → Pc  -- before the load of `p->next` for the swap of the head
  deq_move : (p next : ℕ) → Pc  -- before that swap
  deq_old : (p oldhead : ℕ) → Pc  -- before the load of `oldhead->next`
  deq_new : (p old_next : ℕ) → Pc  -- before the load of `p->next`
  deq_value : (p : ℕ) (succ : Bool) → Pc  -- before the load of `p->next`
  deq_store : (node : ℕ) (succ : Bool) → Pc  -- before the load of its value

pub data Choice : Type 0 where
  enqueues : (q val : ℕ) → Choice
  dequeues : Choice

-- What a step returns to the caller of `lf_dequeue`: nothing yet, 0, or 1 with the value.
pub data Return : Type 0 where
  nothing empty : Return
  got : (val : ℕ) → Return

abbrev pub begin : Choice → LfQueue → LfQueue × Pc × Return
begin (enqueues q val) m =
    (record m { value = update m.value q val; next = update m.next q 0 }, enq_loop q, nothing)
begin dequeues m = (m, deq_loop, nothing)

abbrev pub go : Choice → Pc → LfQueue → LfQueue × Pc × Return
go c outside m = begin c m
go c (enq_loop q) m = (m, enq_link q m.tail, nothing)
go c (enq_link q p) m = (swap_next p 0 q m, enq_test q p, nothing)
go c (enq_test q p) m = (m, if q == m.next p then enq_last q p else enq_help q p, nothing)
go c (enq_help q p) m = (m, enq_move q p (m.next p), nothing)
go c (enq_move q p next) m = (swap_tail p next m, enq_loop q, nothing)
go c (enq_last q p) m = (swap_tail p q m, outside, nothing)
go c deq_loop m = (m, deq_test m.head, nothing)
go c (deq_test p) m = if m.next p == 0 then (m, outside, empty) else (m, deq_load p, nothing)
go c (deq_load p) m = (m, deq_move p (m.next p), nothing)
go c (deq_move p next) m = (swap_head p next m, deq_old p m.head, nothing)
go c (deq_old p oldhead) m = (m, deq_new p (m.next oldhead), nothing)
go c (deq_new p old_next) m = (m, deq_value p (old_next == m.next p), nothing)
go c (deq_value p succ) m = (m, deq_store (m.next p) succ, nothing)
go c (deq_store node succ) m =
    if succ then (m, outside, got (m.value node)) else (m, deq_loop, nothing)

pub record System : Type 0 where
  pub mem : LfQueue
  pub pc : ℕ → Pc
  pub returns : List Return

abbrev pub step : ℕ × Choice → System → System
step (i, c) s =
    let r = go c (s.pc i) s.mem in
    record { mem = r.0; pc = λ j. if i == j then r.1 else s.pc j; returns = r.2 ∷ s.returns }

abbrev pub run : List (ℕ × Choice) → System → System
run [] s = s
run (c ∷ cs) s = run cs (step c s)

abbrev pub start : ℕ → ℕ → System
start head tail = record { mem = lf_queue_init head tail; pc = λ _. outside; returns = [] }
