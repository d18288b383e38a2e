-- ===== src/Threads/Sched/Schedule.antt =====
-- `pet_thread_schedule`, `pet_thread_yield_to` and `pet_thread_create` of Threads/pet_thread.c.
use cs.Prelude.{
  ℕ, ◌≡◌, refl, false, Option, none, some, List, [], ◌∷◌, arith, ◌==◌, if◌then◌else◌, inl, inr,
  Bool-cases, Option-cases,
}
use cs.Threads.Sched.{
  ready, is_ready, Sched, state_of, state_at, master, Attempt, done, get_thread, thread_schedule,
  thread_yield_to,
}
use cs.Threads.Sched.Count.{member-count}
use cs.Threads.Sched.Inv.{Core, Inv}
use cs.Threads.Sched.Switch.{CanRun, Kept, thread_invoker-Inv}

-- Who runs next: the head of the ready list, or the master.
abbrev pub next : List ℕ → ℕ
next [] = master
next (t ∷ ts) = t

-- A call of the scheduler that ends well.
abbrev pub Goes : (ℕ → ℕ) → Sched → Attempt Sched → ℕ → Type 0
Goes target s r t = (s' : Sched) × (r ≡ done s') × Inv target s' × (s'.current ≡ t) × Kept s s'

pub Core-CanRun :
    {target : ℕ → ℕ} {s : Sched} (t : ℕ) → Core target s → state_of s t ≡ ready → CanRun s t
Core-CanRun {s} t c r = (
  r,
  elim (Bool-cases (t == master)) [
    | inl e ↦ inl (ground arith)
    | inr e ↦
        inr (ground (arith, member-count t s.ready_list, c.in_ready t, c.not_ready, c.fresh t, r))
  ],
)

schedule-Goes :
    {target : ℕ → ℕ} {s : Sched} (ts : List ℕ)
    → Core target s
    → (s.threads s.current).freed ≡ false
    → s.ready_list ≡ ts
    → Goes target s (thread_schedule s) (next ts)
unfolding thread_schedule
schedule-Goes {s} [] c n e = elim (Bool-cases (s.current == master)) [
  | inl m ↦ (
    s,
    ground arith,
    record { core = c; runs = c.master_runs (ground arith) },
    ground arith,
    λ u. (refl, refl, (λ d d'. refl), refl),
  )
  | inr m ↦
      let (s', f, i, k, q) =
        thread_invoker-Inv master c n (Core-CanRun master c (c.master_waits (ground arith))) in
      (s', ground arith, i, k, q)
]
schedule-Goes {s} (t ∷ ts) c n e =
    let r : state_of s t ≡ ready = ground (arith, c.in_ready t) in
    let (s', f, i, k, q) = thread_invoker-Inv t c n (Core-CanRun t c r) in
    (s', ground arith, i, k, q)

pub thread_schedule-Goes :
    {target : ℕ → ℕ} {s : Sched}
    → Core target s
    → (s.threads s.current).freed ≡ false
    → Goes target s (thread_schedule s) (next s.ready_list)
thread_schedule-Goes {s} c n = schedule-Goes s.ready_list c n refl

-- The current thread of an invariant state was not given back.
pub Inv-kept : {target : ℕ → ℕ} {s : Sched} → Inv target s → (s.threads s.current).freed ≡ false
Inv-kept {s} i = ground (arith, i.runs, i.core.freed_stopped s.current)

pub get_thread-id :
    (s : Sched) (id t : ℕ) → ((u : ℕ) → s.stale_id u ≡ u) → get_thread s id ≡ some t → t ≡ id
unfolding get_thread
get_thread-id s id t h e = elim (Option-cases s.last_stopped) [
  | inl g ↦ ground arith
  | inr (u, g) ↦ ground (arith, h u)
]

-- Whom a yield to `id` gives the processor.
pub yielded : ℕ → Sched → ℕ
yielded id s = elim (get_thread s id) [
  | none ↦ next s.ready_list
  | some t ↦ if is_ready (state_at s t) then id else next s.ready_list
]

yield_from :
    {target : ℕ → ℕ} {s : Sched} (id : ℕ) (o : Option ℕ)
    → Inv target s
    → get_thread s id ≡ o
    → Goes target s (thread_yield_to id s) (yielded id s)
unfolding thread_yield_to yielded
yield_from {s} id none i e =
    let (s', f, j, k, q) = thread_schedule-Goes i.core (Inv-kept i) in
    (s', ground arith, j, ground arith, q)
yield_from {s} id (some t) i e = elim (Bool-cases (is_ready (state_at s t))) [
  | inl r ↦
      let (s', f, j, k, q) =
        thread_invoker-Inv t i.core (Inv-kept i)
          (Core-CanRun t i.core (ground (arith, r, i.core.kept_state t))) in
      (s', ground arith, j, ground (arith, get_thread-id s id t i.core.kept_id e), q)
  | inr r ↦
      let (s', f, j, k, q) = thread_schedule-Goes i.core (Inv-kept i) in
      (s', ground arith, j, ground arith, q)
]

-- From a state with the invariant, by which the struct of a freed thread still holds its id and its
-- state, a yield to `id` ends well and keeps the invariant, the values that the threads received,
-- their waiters, and the states of those that neither ran nor run then. If a thread of that id is
-- ready it runs next, and otherwise the head of the ready list, or the master where that is empty.
pub thread_yield_to-Goes :
    {target : ℕ → ℕ} {s : Sched} (id : ℕ)
    → Inv target s
    → Goes target s (thread_yield_to id s) (yielded id s)
thread_yield_to-Goes {s} id i = yield_from id (get_thread s id) i refl
