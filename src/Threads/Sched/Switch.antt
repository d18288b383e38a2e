-- ===== src/Threads/Sched/Switch.antt =====
-- `__thread_invoker` and `pet_thread_cleanup` of Threads/pet_thread.c keep the invariant.
use cs.Prelude.{
  one_if, ℕ, ◌+◌, ◌≤◌, ◌<◌, ◌≡◌, ◌≢◌, refl, sym, ◌∙◌, ap, subst, true, false, not, ◌&&◌, some, [],
  ◌∷◌, ◌++◌, arith, ◌==◌, if◌then◌else◌, ◌⊎◌, inl, inr, Bool-cases, Option-cases,
}
use cs.Threads.Sched.{
  RunState, stopped, running, ready, blocked, is_stopped, is_ready, is_blocked, Sched, state_of,
  master, done, set_thread, set_state, get_thread, list_del, member, remove, put_away,
  thread_cleanup, thread_invoker,
}
use cs.Threads.Sched.Count.{count, member-count, count-remove, count-snoc}
use cs.Threads.Sched.Inv.{list_of, waiters, has_list, is_aside, Core, Inv}

-- The state in which `__thread_invoker` calls the switch of stacks.
abbrev pub taken_off : ℕ → Sched → Sched
taken_off t s = record s {
  current = t;
  ready_list = if t == master then s.ready_list else remove t s.ready_list;
}

abbrev pub switched : ℕ → RunState → Sched → Sched
switched t st s = set_state t running (put_away s.current st (taken_off t s))

-- Every thread holds the value that it last received and its waiters, and those that neither ran nor
-- run are in the state that they were in.
abbrev pub Kept : Sched → Sched → Type 0
Kept s s' =
    (u : ℕ)
    → ((s'.threads u).return_receiver ≡ (s.threads u).return_receiver)
      × ((s'.threads u).waiting_for_me ≡ (s.threads u).waiting_for_me)
      × (u ≢ s.current → u ≢ s'.current → state_of s' u ≡ state_of s u)
      × (s'.thread_id_count ≡ s.thread_id_count)

-- As above, and every thread is in the state that it was in.
abbrev Same : Sched → Sched → Type 0
Same s s' =
    (u : ℕ)
    → ((s'.threads u).return_receiver ≡ (s.threads u).return_receiver)
      × ((s'.threads u).waiting_for_me ≡ (s.threads u).waiting_for_me)
      × (state_of s' u ≡ state_of s u)
      × (s'.thread_id_count ≡ s.thread_id_count)

-- A thread that can be invoked.
abbrev pub CanRun : Sched → ℕ → Type 0
CanRun s t = (state_of s t ≡ ready) × ((t ≡ master) ⊎ (member t s.ready_list ≡ true))

module _ {target : ℕ → ℕ} {s : Sched} (c : Core target s) (t : ℕ) (r : CanRun s t) where
  other : t ≢ s.current
  other e = ground (arith, c.not_ready, r.0)

  taken-count :
      (u : ℕ)
      → (if t == master then count u s.ready_list else count u (remove t s.ready_list))
          + one_if (not (t == master) && t == u)
        ≡ count u s.ready_list
  taken-count u = ground (arith, r.1, count-remove t u s.ready_list)

  switched-in_ready :
      (st : RunState) (u : ℕ)
      → state_of s s.current ≡ st
      → count u (switched t st s).ready_list
        ≡ one_if (is_aside (switched t st s) u && is_ready (state_of (switched t st s) u))
  unfolding put_away
  switched-in_ready running u e = ground (
    arith,
    taken-count u,
    c.in_ready u,
    c.known,
    other,
    r.0,
    count-snoc u s.current (remove t s.ready_list),
    count-snoc u s.current s.ready_list,
  )
  switched-in_ready st u e = ground (arith, taken-count u, c.in_ready u, c.not_ready, other, r.0)

  switched-in_blocked :
      (st : RunState) (u : ℕ)
      → state_of s s.current ≡ st
      → count u (switched t st s).blocked_list
        ≡ one_if (is_aside (switched t st s) u && is_blocked (state_of (switched t st s) u))
  unfolding put_away
  switched-in_blocked blocked u e = ground (
    arith,
    c.in_blocked u,
    c.known,
    other,
    r.0,
    c.master_runs,
    count-snoc u s.current s.blocked_list,
  )
  switched-in_blocked st u e = ground (arith, c.in_blocked u, c.not_ready, other, r.0)

  switched-known : (st : RunState) → (switched t st s).current < (switched t st s).thread_id_count
  unfolding put_away
  switched-known running = ground (arith, r.1, c.known, c.in_ready t, member-count t s.ready_list)
  switched-known st = ground (arith, r.1, c.known, c.in_ready t, member-count t s.ready_list)

  switched-master :
      (st : RunState)
      → state_of s s.current ≡ st
      → (switched t st s).current ≢ master
      → state_of (switched t st s) master ≡ ready
  unfolding put_away
  switched-master running e n = ground (arith, c.master_waits)
  switched-master st e n = ground (arith, c.master_waits, c.master_runs)

  switched-one_runs :
      (st : RunState) (u : ℕ)
      → state_of s s.current ≡ st
      → state_of (switched t st s) u ≡ running
      → u ≡ (switched t st s).current
  unfolding put_away
  switched-one_runs running u e h = ground (arith, c.one_runs u)
  switched-one_runs st u e h = ground (arith, c.one_runs u)

  -- Nothing but the states, the lists and the pointers changes.
  switched-waiters :
      (st : RunState) (u : ℕ)
      → ((switched t st s).threads u).waiting_for_me ≡ (s.threads u).waiting_for_me
  unfolding put_away
  switched-waiters running u = ground arith
  switched-waiters st u = ground arith

  switched-waits :
      (st : RunState) (u w : ℕ)
      → state_of s s.current ≡ st
      → 0 < count w (waiters s u)
      → (state_of (switched t st s) w ≡ blocked)
        × (target w ≡ u)
        × (w < (switched t st s).thread_id_count)
        × (w ≢ master)
  unfolding put_away
  switched-waits running u w e h = ground (arith, c.waits u w h, r.0)
  switched-waits st u w e h = ground (arith, c.waits u w h, r.0)

  switched-freed :
      (st : RunState) (u : ℕ)
      → state_of s s.current ≡ st
      → ((switched t st s).threads u).freed ≡ true
      → state_of (switched t st s) u ≡ stopped
  unfolding put_away
  switched-freed running u e h = ground (arith, c.freed_stopped u, r.0)
  switched-freed st u e h = ground (arith, c.freed_stopped u, r.0)

  switched-fresh :
      (st : RunState) (u : ℕ)
      → (switched t st s).thread_id_count ≤ u
      → state_of (switched t st s) u ≡ stopped
  unfolding put_away
  switched-fresh running u l = ground (arith, c.fresh u, c.fresh t, c.known, r.0)
  switched-fresh st u l = ground (arith, c.fresh u, c.fresh t, c.known, r.0)

  switched-stopped_known :
      (st : RunState) (u : ℕ)
      → state_of s s.current ≡ st
      → (switched t st s).last_stopped ≡ some u
      → (u < (switched t st s).thread_id_count) × (u ≢ master)
  unfolding put_away
  switched-stopped_known running u e h = ground (arith, c.stopped_known u)
  switched-stopped_known st u e h = ground (arith, c.stopped_known u, c.known, c.master_runs)

  switched-runs : (st : RunState) → state_of (switched t st s) (switched t st s).current ≡ running
  unfolding put_away
  switched-runs running = ground arith
  switched-runs st = ground arith

  switched-initialised :
      (st : RunState) (u : ℕ)
      → u ≢ master
      → u < (switched t st s).thread_id_count
      → has_list (s.threads u).waiting_for_me ≡ true
  unfolding put_away
  switched-initialised running u n l = ground (arith, c.initialised u n)
  switched-initialised st u n l = ground (arith, c.initialised u n)

  switched-kept_id : (st : RunState) (u : ℕ) → (switched t st s).stale_id u ≡ u
  unfolding put_away
  switched-kept_id running u = ground (arith, c.kept_id u)
  switched-kept_id st u = ground (arith, c.kept_id u)

  switched-kept_state : (st : RunState) (u : ℕ) → (switched t st s).stale_state u ≡ stopped
  unfolding put_away
  switched-kept_state running u = ground (arith, c.kept_state u)
  switched-kept_state st u = ground (arith, c.kept_state u)

  pub switched-Inv : (st : RunState) → state_of s s.current ≡ st → Inv target (switched t st s)
  switched-Inv st e =
      let runs = switched-runs st in
      record {
        core = record {
          known = switched-known st;
          not_ready = ap is_ready runs;
          master_runs = λ _. runs;
          master_waits = switched-master st e;
          in_ready = λ u. switched-in_ready st u e;
          in_blocked = λ u. switched-in_blocked st u e;
          one_runs = λ u. switched-one_runs st u e;
          initialised =
              λ u n l. ap has_list (switched-waiters st u) ∙ switched-initialised st u n l;
          once = λ u w.
              subst (λ ws. count w (list_of ws) ≤ 1) (sym (switched-waiters st u)) (c.once u w);
          waits = λ u w h.
              switched-waits st u w e
                (subst (λ ws. 0 < count w (list_of ws)) (switched-waiters st u) h);
          fresh = λ u. switched-fresh st u;
          stopped_known = λ u. switched-stopped_known st u e;
          freed_stopped = λ u. switched-freed st u e;
          kept_id = switched-kept_id st;
          kept_state = switched-kept_state st;
        };
        runs = runs;
      }

  -- The old thread can still be found, and was not given back.
  switched-found :
      (st : RunState)
      → state_of s s.current ≡ st
      → get_thread (switched t st s) s.current ≡ some s.current
  unfolding get_thread put_away
  switched-found running e =
      let a = member-count s.current (s.ready_list ++ s.current ∷ []) in
      let b = count-snoc s.current s.current s.ready_list in
      let d = member-count s.current (remove t s.ready_list ++ s.current ∷ []) in
      let f = count-snoc s.current s.current (remove t s.ready_list) in
      elim (Option-cases s.last_stopped) [
        | inl h ↦ ground (arith, h, a, b, d, f)
        | inr (u, h) ↦ ground (arith, h, a, b, d, f, c.kept_id u)
      ]
  switched-found blocked e =
      let a = member-count s.current (s.blocked_list ++ s.current ∷ []) in
      let b = count-snoc s.current s.current s.blocked_list in
      elim (Option-cases s.last_stopped) [
        | inl h ↦ ground (arith, h, a, b)
        | inr (u, h) ↦ ground (arith, h, a, b, c.kept_id u)
      ]
  switched-found stopped e = ground (arith, c.kept_id s.current)
  switched-found ready e = ground (arith, c.not_ready)

  switched-kept :
      (st : RunState)
      → (s.threads s.current).freed ≡ false
      → ((switched t st s).threads s.current).freed ≡ false
  unfolding put_away
  switched-kept running n = ground arith
  switched-kept st n = ground arith

  switched-Kept : (st : RunState) → Kept s (switched t st s)
  unfolding put_away
  switched-Kept running u = ground arith
  switched-Kept st u = ground arith

  switched-current : (st : RunState) → (switched t st s).current ≡ t
  unfolding put_away
  switched-current running = ground arith
  switched-current st = ground arith

  pub invoker-switched :
      thread_invoker t s ≡ thread_cleanup s.current (switched t (state_of s s.current) s)
  unfolding thread_invoker list_del
  invoker-switched = ground (arith, r.0, r.1, c.not_ready)

-- To give a thread back changes nothing that the invariant speaks of, if the thread is stopped.
freed-Inv :
    {target : ℕ → ℕ} {s : Sched} (t : ℕ)
    → Inv target s
    → state_of s t ≡ stopped
    → Inv target (set_thread t (record (s.threads t) { freed = true }) s)
freed-Inv {target} {s} t i h = record {
  core = record {
    known = c.known;
    not_ready = ground (arith, c.not_ready);
    master_runs = λ e. ground (arith, c.master_runs e);
    master_waits = λ e. ground (arith, c.master_waits e);
    in_ready = λ u. ground (arith, c.in_ready u);
    in_blocked = λ u. ground (arith, c.in_blocked u);
    one_runs = λ u e. ground (arith, c.one_runs u);
    initialised = λ u n l. ground (arith, c.initialised u n l);
    once = λ u w. ground (arith, c.once u w);
    waits = λ u w k. ground (arith, c.waits u w);
    fresh = λ u l. ground (arith, c.fresh u);
    stopped_known = c.stopped_known;
    freed_stopped = λ u e. ground (arith, c.freed_stopped u);
    kept_id = c.kept_id;
    kept_state = c.kept_state;
  };
  runs = ground (arith, i.runs);
}
  where
    c : Core target s
    c = i.core

cleanup-Inv :
    {target : ℕ → ℕ} {s : Sched} (t : ℕ)
    → Inv target s
    → get_thread s t ≡ some t
    → (s.threads t).freed ≡ false
    → (s' : Sched) × (thread_cleanup t s ≡ done s')
      × Inv target s'
      × (s'.current ≡ s.current)
      × Same s s'
unfolding thread_cleanup
cleanup-Inv {s} t i f n = elim (Bool-cases (is_stopped (state_of s t))) [
  | inl h ↦ (
    set_thread t (record (s.threads t) { freed = true }) s,
    ground arith,
    freed-Inv t i (ground arith),
    refl,
    λ u. (ground arith, ground arith, ground arith, refl),
  )
  | inr h ↦ (s, ground arith, i, refl, λ u. (refl, refl, refl, refl))
]

pub cleanup-ready_list :
    (s : Sched) {s' : Sched} (t : ℕ) → thread_cleanup t s ≡ done s' → s'.ready_list ≡ s.ready_list
unfolding thread_cleanup
cleanup-ready_list s t e = ground (arith, e)

-- A ready thread that stands in the ready list, or the master while it waits, is switched to: no
-- assertion fails, the thread runs, and the invariant holds again.
pub thread_invoker-Inv :
    {target : ℕ → ℕ} {s : Sched} (t : ℕ)
    → Core target s
    → (s.threads s.current).freed ≡ false
    → CanRun s t
    → (s' : Sched) × (thread_invoker t s ≡ done s') × Inv target s' × (s'.current ≡ t) × Kept s s'
thread_invoker-Inv {target} {s} t c n r =
    let st = state_of s s.current in
    let (s', e, i, k, r') =
      cleanup-Inv s.current (switched-Inv c t r st refl) (switched-found c t r st refl)
        (switched-kept c t r st n) in
    (
      s',
      invoker-switched c t r ∙ e,
      i,
      k ∙ switched-current c t r st,
      λ u.
          let (a, b, d, e') = r' u in
          let (a', b', d', e'') = switched-Kept c t r st u in
          (a ∙ a', b ∙ b', (λ h g. d ∙ d' h (λ q. g (q ∙ sym k))), e' ∙ e''),
    )
