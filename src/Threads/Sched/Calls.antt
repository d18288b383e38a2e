-- ===== src/Threads/Sched/Calls.antt =====
-- The calls of Threads/pet_thread.c together: from a state that satisfies the invariant, each ends
-- without a failed assertion or a bad pointer in a state that satisfies it.
use cs.Prelude.{ℕ, ◌-◌, ◌^◌, ◌<◌, false, ◌≡◌, ◌≢◌, refl, sym, ◌∙◌, ap, subst}
use cs.Threads.Sched.{
  RunState, stopped, Sched, master, Attempt, done, failed, ◌>>=◌, thread_init, Call, creates,
  schedules, yields_to, joins, exits, call,
}
use cs.Threads.Sched.Inv.{Inv, thread_init-Inv}
use cs.Threads.Sched.Schedule.{thread_schedule-Goes, thread_yield_to-Goes, Inv-kept}
use cs.Threads.Sched.Create.{thread_create-Inv}
use cs.Threads.Sched.Join.{thread_join-Inv}
use cs.Threads.Sched.Exit.{quarantine-Exited}

-- The master neither joins nor exits, nobody joins the master or a thread that was given back, and
-- the counter of the ids does not overflow.
unfoldable pub Allowed : Sched → Call → Type 0
Allowed s creates = s.thread_id_count < 2 ^ 31 - 1
Allowed s (joins id) = (s.current ≢ master) × (id ≢ master) × ((s.threads id).freed ≡ false)
Allowed s (exits ret) = s.current ≢ master
Allowed s _ = Unit {0}

-- A state with the invariant, for some choice of whom the blocked threads wait for.
abbrev pub Sound : Sched → Type 0
Sound s = (target : ℕ → ℕ) × Inv target s

-- A call that the library allows neither fails an assertion nor follows a bad pointer, and keeps
-- the invariant of the scheduler.
pub call-Sound :
    (c : Call) (s : Sched) → Sound s → Allowed s c → (s' : Sched) × (call c s ≡ done s') × Sound s'
unfolding call Allowed
call-Sound creates s (target, i) a = (_, refl, (target, thread_create-Inv i a))
call-Sound schedules s (target, i) a =
    let (s', e, j, _, _) = thread_schedule-Goes i.core (Inv-kept i) in (s', e, (target, j))
call-Sound (yields_to id) s (target, i) a =
    let (s', e, j, _, _) = thread_yield_to-Goes id i in (s', e, (target, j))
call-Sound (joins id) s (target, i) a =
    let (r, e, j, _) = thread_join-Inv id i a.0 a.1 a.2 in (r.0, ap (λ m. m >>= λ q. done q.0) e, j)
call-Sound (exits ret) s (target, i) a =
    let (s', e, x) = quarantine-Exited ret i a in (s', e, (target, x.inv))

-- The states that a program reaches from `pet_thread_init` by calls that the library allows, if
-- `free` leaves the id and the state of a thread's struct as they were.
pub data Reach : Sched → Type 0 where
  start :
      (stale_id : ℕ → ℕ) (stale_state : ℕ → RunState)
      → ((t : ℕ) → stale_id t ≡ t)
      → ((t : ℕ) → stale_state t ≡ stopped)
      → Reach (thread_init stale_id stale_state)
  calls : {s s' : Sched} → Reach s → (c : Call) → Allowed s c → call c s ≡ done s' → Reach s'

abbrev value_or : Sched → Attempt Sched → Sched
value_or d (done s) = s
value_or d (failed e) = d

pub done-injective : (d : Sched) {s s' : Sched} → done s ≡ done s' → s ≡ s'
done-injective d e = ap (value_or d) e

pub Reach-Sound : {s : Sched} → Reach s → Sound s
Reach-Sound (start ids states h g) = ((λ w. w), thread_init-Inv ids states h g)
Reach-Sound (calls {s} r c a e) =
    let (s', f, i) = call-Sound c s (Reach-Sound r) a in
    subst Sound (done-injective s (sym f ∙ e)) i
