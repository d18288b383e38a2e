-- ===== src/Threads/Sched/Create.antt =====
-- `pet_thread_create` of Threads/pet_thread.c keeps the invariant.
use cs.Prelude.{ℕ, ◌-◌, ◌^◌, ◌<◌, arith}
use cs.Threads.Sched.{Sched, thread_create}
use cs.Threads.Sched.Count.{count-snoc}
use cs.Threads.Sched.Inv.{Core, Inv}

-- The counter of the ids does not overflow.
pub thread_create-Inv :
    {target : ℕ → ℕ} {s : Sched}
    → Inv target s
    → s.thread_id_count < 2 ^ 31 - 1
    → Inv target (thread_create s).0
unfolding thread_create
thread_create-Inv {target} {s} i room = record {
  core = record {
    known = omega (arith, room, c.known);
    not_ready = ground (arith, room, c.not_ready, c.known);
    master_runs = λ e. ground (arith, room, i.runs, c.known);
    master_waits = λ e. ground (arith, room, c.master_waits e, c.known);
    in_ready = λ u. ground (
      arith,
      room,
      c.in_ready u,
      c.known,
      c.fresh u,
      count-snoc u s.thread_id_count s.ready_list,
    );
    in_blocked = λ u. ground (arith, room, c.in_blocked u, c.fresh u);
    one_runs = λ u e. ground (arith, room, c.one_runs u);
    initialised = λ u n l. ground (arith, room, c.initialised u n);
    once = λ u w. ground (arith, room, c.once u w);
    waits = λ u w k. ground (arith, room, c.waits u w);
    fresh = λ u l. ground (arith, room, c.fresh u);
    stopped_known = λ u e. ground (arith, room, c.stopped_known u);
    freed_stopped = λ u e. ground (arith, room, c.freed_stopped u);
    kept_id = c.kept_id;
    kept_state = c.kept_state;
  };
  runs = ground (arith, room, i.runs, c.known);
}
  where
    c : Core target s
    c = i.core
