-- ===== src/Threads/Sched/RoundRobin.antt =====
-- `pet_thread_schedule` of Threads/pet_thread.c takes the ready threads in turn.
use cs.Prelude.{
  ℕ, zero, suc, ◌≡◌, ◌∙◌, ap, List, [], ◌∷◌, ◌++◌, arith, ◌==◌, length, append-nil, append_assoc,
  if◌then◌else◌,
}
use cs.Threads.Sched.{
  running, ready, Sched, master, state_of, Attempt, done, ◌>>=◌, remove, put_away, thread_schedule,
}
use cs.Threads.Sched.Inv.{Inv}
use cs.Threads.Sched.Switch.{switched, invoker-switched, cleanup-ready_list}
use cs.Threads.Sched.Schedule.{next, Core-CanRun, thread_schedule-Goes, Inv-kept}

-- Who is put at the end of the ready list: the thread that ran, unless it is the master.
abbrev pub put_back : Sched → List ℕ
put_back s = if s.current == master then [] else s.current ∷ []

switched-ready_list :
    {target : ℕ → ℕ} {s : Sched} (t : ℕ) (ts : List ℕ)
    → Inv target s
    → s.ready_list ≡ t ∷ ts
    → (switched t running s).ready_list ≡ ts ++ put_back s
unfolding put_away remove
switched-ready_list {s} t ts i e = ground (arith, e, i.core.in_ready t, append-nil ts)

pub schedule-ready_list :
    {target : ℕ → ℕ} {s s' : Sched} (t : ℕ) (ts : List ℕ)
    → Inv target s
    → s.ready_list ≡ t ∷ ts
    → thread_schedule s ≡ done s'
    → s'.ready_list ≡ ts ++ put_back s
unfolding thread_schedule
schedule-ready_list {s} {s'} t ts i e f =
    let r : state_of s t ≡ ready = ground (arith, e, i.core.in_ready t) in
    let g = invoker-switched i.core t (Core-CanRun t i.core r) in
    cleanup-ready_list (switched t (state_of s s.current) s) {s' = s'} s.current
      (ground (arith, e, f, g, r))
    ∙ ap (λ st. (switched t st s).ready_list) i.runs
    ∙ switched-ready_list t ts i e

abbrev pub schedule_times : ℕ → Sched → Attempt Sched
schedule_times zero s = done s
schedule_times (suc n) s = thread_schedule s >>= schedule_times n

-- From a state with the invariant, by which the struct of a freed thread still holds its id and its
-- state, in whose ready list `t` stands after the threads `xs`: as many calls of the scheduler as `xs`
-- is long and one more end well, keep the invariant, and `t` runs.
pub schedule_times-current :
    {target : ℕ → ℕ} (xs : List ℕ) (t : ℕ) (ys : List ℕ) {s : Sched}
    → Inv target s
    → s.ready_list ≡ xs ++ t ∷ ys
    → (s' : Sched) × (schedule_times (suc (length xs)) s ≡ done s')
      × Inv target s'
      × (s'.current ≡ t)
schedule_times-current [] t ys {s} i e =
    let (s', f, j, k, _) = thread_schedule-Goes i.core (Inv-kept i) in
    (s', ap (λ m. m >>= schedule_times 0) f, j, k ∙ ap next e)
schedule_times-current (x ∷ xs) t ys {s} i e =
    let (s', f, j, k, _) = thread_schedule-Goes i.core (Inv-kept i) in
    let l = schedule-ready_list x (xs ++ t ∷ ys) i e f ∙ append_assoc xs (t ∷ ys) (put_back s) in
    let (s'', g, j', k') = schedule_times-current xs t (ys ++ put_back s) j l in
    (s'', ap (λ m. m >>= schedule_times (suc (length xs))) f ∙ g, j', k')
