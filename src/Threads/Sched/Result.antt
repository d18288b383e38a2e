-- ===== src/Threads/Sched/Result.antt =====
-- What a join returns: the value with which the joined thread of Threads/pet_thread.c exits.
use cs.Prelude.{ℕ, ◌<◌, ◌≡◌, ◌≢◌, false, Bool}
use cs.Threads.Sched.{
  ready, Sched, state_of, Attempt, done, failed, Call, schedules, yields_to, exits, call,
}
use cs.Threads.Sched.Count.{count}
use cs.Threads.Sched.Inv.{waiters}
use cs.Threads.Sched.Calls.{Allowed}

-- The calls that change nothing but who runs.
abbrev Turns : Call → Type 0
Turns schedules = Unit
Turns (yields_to id) = Unit
Turns _ = ⊥

-- Thread `a` is among those that wait for `b`.
record Waits (a b : ℕ) (s : Sched) : Type 0 where
  pub waits : 0 < count a (waiters s b)
  pub known : b < s.thread_id_count

-- Thread `a` has received the value, and is ready or runs.
record Holds (a ret : ℕ) (s : Sched) : Type 0 where
  pub value : (s.threads a).return_receiver ≡ ret
  pub is_ready : s.current ≢ a → state_of s a ≡ ready

-- The call is not the exit of `b`.
abbrev pub NotExit : ℕ → Sched → Call → Type 0
NotExit b s (exits ret) = s.current ≢ b
NotExit b s _ = Unit {0}

-- The states that allowed calls lead to from a state, each call made where `P` lets it.
pub data GoesOn (P : Sched → Call → Type 0) (s : Sched) : Sched → Type 0 where
  here : GoesOn P s s
  on :
      {t u : Sched}
      → GoesOn P s t
      → (c : Call) → Allowed t c
      → P t c
      → call c t ≡ done u
      → GoesOn P s u

-- The thread does not run.
abbrev pub Aside : ℕ → Sched → Call → Type 0
Aside a s c = s.current ≢ a

answer : Attempt (Sched × Bool) → Bool
answer (done r) = r.1
answer (failed e) = false

result : Sched → Attempt (Sched × Bool) → Sched
result d (done r) = r.0
result d (failed e) = d
