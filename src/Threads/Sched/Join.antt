-- ===== src/Threads/Sched/Join.antt =====
-- `pet_thread_join` of Threads/pet_thread.c keeps the invariant and puts the caller last in line.
use cs.Prelude.{
  ℕ, ◌≤◌, ◌<◌, ◌≡◌, ◌≢◌, refl, true, false, Bool, Option, none, some, [], ◌∷◌, ◌++◌, arith, ◌==◌,
  if◌then◌else◌, inl, inr, ◌⊎◌, Option-cases,
}
use cs.Threads.Sched.{
  blocked, Sched, state_of, master, done, set_thread, set_state, get_thread, add_waiter,
  thread_join,
}
use cs.Threads.Sched.Count.{count, member-count, count-snoc}
use cs.Threads.Sched.Inv.{waiters, Core, Inv}
use cs.Threads.Sched.Switch.{Kept}
use cs.Threads.Sched.Schedule.{thread_schedule-Goes, Inv-kept, get_thread-id}

pub get_thread-known :
    {target : ℕ → ℕ} {s : Sched} (id t : ℕ)
    → Inv target s
    → id ≢ master
    → get_thread s id ≡ some t
    → id < s.thread_id_count
unfolding get_thread
get_thread-known {s} id t i n e = elim (Option-cases (s.last_stopped)) [
  | inl h ↦ ground (
    arith,
    i.core.known,
    i.core.in_ready id,
    i.core.in_blocked id,
    member-count id s.ready_list,
    member-count id s.blocked_list,
  )
  | inr (u, h) ↦ ground (
    arith,
    i.core.known,
    i.core.in_ready id,
    i.core.in_blocked id,
    i.core.stopped_known u,
    i.core.kept_id u,
    member-count id s.ready_list,
    member-count id s.blocked_list,
  )
]

-- The caller, blocked, among the waiters of `id`.
abbrev pub joined : ℕ → Sched → Sched
joined id s =
    let s' = set_state s.current blocked s in
    set_thread id
      (record (s'.threads id) { waiting_for_me = some (waiters s id ++ s.current ∷ []) }) s'

-- Whom the caller of a join waits for from now on.
abbrev pub joining : ℕ → Sched → (ℕ → ℕ) → ℕ → ℕ
joining id s target w = if s.current == w then id else target w

module _ {target : ℕ → ℕ} {s : Sched} (i : Inv target s) (id : ℕ) (n : s.current ≢ master)
    (m : id ≢ master) (f : (s.threads id).freed ≡ false) (k : id < s.thread_id_count) where
  c : Core target s
  c = i.core

  caller_is_new : count s.current (waiters s id) ≡ 0
  caller_is_new = ground (arith, c.waits id s.current, i.runs)

  joined-once : (u w : ℕ) → count w (waiters (joined id s) u) ≤ 1
  joined-once u w = ground (arith, c.once u w, caller_is_new, count-snoc w s.current (waiters s id))

  joined-waits :
      (u w : ℕ)
      → 0 < count w (waiters (joined id s) u)
      → (state_of (joined id s) w ≡ blocked)
        × (joining id s target w ≡ u)
        × (w < (joined id s).thread_id_count)
        × (w ≢ master)
  joined-waits u w h =
      ground (arith, c.waits u w, i.runs, c.known, count-snoc w s.current (waiters s id))

  pub joined-Core : Core (joining id s target) (joined id s)
  joined-Core = record {
    known = c.known;
    not_ready = ground arith;
    master_runs = λ e. absurd (n e);
    master_waits = λ e. ground (arith, c.master_waits e);
    in_ready = λ u. ground (arith, c.in_ready u);
    in_blocked = λ u. ground (arith, c.in_blocked u);
    one_runs = λ u e. ground (arith, c.one_runs u);
    initialised = λ u n' l. ground (arith, c.initialised u n' l);
    once = joined-once;
    waits = joined-waits;
    fresh = λ u l. ground (arith, c.fresh u, c.known);
    stopped_known = c.stopped_known;
    freed_stopped = λ u e. ground (arith, c.freed_stopped u, i.runs);
    kept_id = c.kept_id;
    kept_state = c.kept_state;
  }

  joined-kept : ((joined id s).threads s.current).freed ≡ false
  joined-kept = ground (arith, Inv-kept i)

  add_waiter-joined : add_waiter s.current id (set_state s.current blocked s) ≡ done (joined id s)
  unfolding add_waiter
  add_waiter-joined = elim (Option-cases ((s.threads id).waiting_for_me)) [
    | inl h ↦ absurd (ground (arith, c.initialised id m k))
    | inr (ws, h) ↦ ground arith
  ]

-- What a join comes to: nothing, where there is no such thread, or the caller waits.
abbrev pub Joined : ℕ → Sched → Sched × Bool → Type 0
Joined id s r = ((r.0 ≡ s) × (r.1 ≡ false)) ⊎ ((id < s.thread_id_count) × Kept (joined id s) r.0)

-- A join by a thread other than the master.
join_from :
    {target : ℕ → ℕ} {s : Sched} (id : ℕ) (o : Option ℕ)
    → Inv target s
    → s.current ≢ master
    → id ≢ master
    → (s.threads id).freed ≡ false
    → get_thread s id ≡ o
    → (r : Sched × Bool) × (thread_join id s ≡ done r)
      × ((target' : ℕ → ℕ) × Inv target' r.0)
      × Joined id s r
unfolding thread_join
join_from {target} {s} id none i n m z e = ((s, false), ground arith, (target, i), inl (refl, refl))
join_from {target} {s} id (some t) i n m z e =
    let k = get_thread-known id t i m e in
    let t-id = get_thread-id s id t i.core.kept_id e in
    let a = add_waiter-joined i id n m z k in
    let (s', f, j, _, q) =
      thread_schedule-Goes (joined-Core i id n m z k) (joined-kept i id n m z k) in
    ((s', true), ground (arith, i.runs, t-id, a, f), (joining id s target, j), inr (k, q))

pub thread_join-Inv :
    {target : ℕ → ℕ} {s : Sched} (id : ℕ)
    → Inv target s
    → s.current ≢ master
    → id ≢ master
    → (s.threads id).freed ≡ false
    → (r : Sched × Bool) × (thread_join id s ≡ done r)
      × ((target' : ℕ → ℕ) × Inv target' r.0)
      × Joined id s r
thread_join-Inv {s} id i n m z = join_from id (get_thread s id) i n m z refl
