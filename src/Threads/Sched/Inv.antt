-- ===== src/Threads/Sched/Inv.antt =====
-- The invariant of the scheduler of Threads/pet_thread.c: each thread stands where its state says.
use cs.Prelude.{
  one_if, ℕ, ◌≤◌, ◌<◌, ◌≡◌, ◌≢◌, refl, true, false, not, ◌&&◌, Bool, Option, none, some, List, [],
  arith, ltb, ◌==◌,
}
use cs.Threads.Sched.{
  RunState, stopped, running, ready, blocked, is_ready, is_blocked, Sched, state_of, master,
  thread_init,
}
use cs.Threads.Sched.Count.{count}

abbrev pub list_of : Option (List ℕ) → List ℕ
list_of none = []
list_of (some ws) = ws

abbrev pub waiters : Sched → ℕ → List ℕ
waiters s t = list_of (s.threads t).waiting_for_me

abbrev pub has_list : Option (List ℕ) → Bool
has_list none = false
has_list (some ws) = true

-- A thread other than the master that was created and is not the current one.
abbrev pub is_aside : Sched → ℕ → Bool
is_aside s t = not (s.current == t) && (not (t == master) && ltb t s.thread_id_count)

-- Between the calls and inside them. `target` tells whom a blocked thread waits for.
pub record Core (target : ℕ → ℕ) (s : Sched) : Type 0 where
  pub known : s.current < s.thread_id_count
  pub not_ready : is_ready (state_of s s.current) ≡ false
  pub master_runs : s.current ≡ master → state_of s s.current ≡ running
  pub master_waits : s.current ≢ master → state_of s master ≡ ready
  pub in_ready : (t : ℕ) → count t s.ready_list ≡ one_if (is_aside s t && is_ready (state_of s t))
  pub in_blocked :
      (t : ℕ) → count t s.blocked_list ≡ one_if (is_aside s t && is_blocked (state_of s t))
  pub one_runs : (t : ℕ) → state_of s t ≡ running → t ≡ s.current
  pub initialised :
      (t : ℕ) → t ≢ master → t < s.thread_id_count → has_list (s.threads t).waiting_for_me ≡ true
  pub once : (t w : ℕ) → count w (waiters s t) ≤ 1
  pub waits :
      (t w : ℕ)
      → 0 < count w (waiters s t)
      → (state_of s w ≡ blocked) × (target w ≡ t) × (w < s.thread_id_count) × (w ≢ master)
  pub fresh : (t : ℕ) → s.thread_id_count ≤ t → state_of s t ≡ stopped
  pub stopped_known : (t : ℕ) → s.last_stopped ≡ some t → (t < s.thread_id_count) × (t ≢ master)
  pub freed_stopped : (t : ℕ) → (s.threads t).freed ≡ true → state_of s t ≡ stopped
  -- `free` has left the id and the state of a struct as they were.
  pub kept_id : (t : ℕ) → s.stale_id t ≡ t
  pub kept_state : (t : ℕ) → s.stale_state t ≡ stopped

-- Between the calls: the current thread runs.
pub record Inv (target : ℕ → ℕ) (s : Sched) : Type 0 where
  pub core : Core target s
  pub runs : state_of s s.current ≡ running

pub thread_init-Inv :
    (stale_id : ℕ → ℕ) (stale_state : ℕ → RunState)
    → ((t : ℕ) → stale_id t ≡ t)
    → ((t : ℕ) → stale_state t ≡ stopped)
    → Inv (λ w. w) (thread_init stale_id stale_state)
unfolding thread_init
thread_init-Inv stale_id stale_state kept_id kept_state = record {
  core = record {
    known = omega arith;
    not_ready = refl;
    master_runs = λ e. refl;
    master_waits = λ e. absurd (e refl);
    in_ready = λ t. ground arith;
    in_blocked = λ t. ground arith;
    one_runs = λ t e. ground arith;
    initialised = λ t n l. absurd (omega arith);
    once = λ t w. ground arith;
    waits = λ t w h. absurd (ground arith);
    fresh = λ t l. ground arith;
    stopped_known = λ t e. ground arith;
    freed_stopped = λ t e. ground arith;
    kept_id = kept_id;
    kept_state = kept_state;
  };
  runs = refl;
}
