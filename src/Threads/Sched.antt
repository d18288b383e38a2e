-- ===== src/Threads/Sched.antt =====
-- Threads/pet_thread.c: creation, scheduling, joining and exit of threads. A thread is named by its
-- id, and 0 is the master; the ready and blocked lists of Threads/pet_list.h are lists of ids. A
-- call runs up to the switch of stacks and through the `pet_thread_cleanup` that the switch makes
-- on the new stack. A failed `assert` and a bad pointer are errors. What the library reads through a
-- stale `stopped` pointer is whatever the freed struct holds then; that is part of the state, and a
-- write through it is an error. The `int` of the ids is a word of 32 bits.
pub mod Count
pub mod Inv
pub mod Switch
pub mod Schedule
pub mod Create
pub mod Join
pub mod Exit
pub mod Calls
pub mod RoundRobin
pub mod Result
pub mod Tests
use cs.Prelude.{
  ℕ, suc, ◌+◌, ◌%◌, ◌^◌, ◌≡◌, Bool, true, false, not, ◌&&◌, ◌||◌, Option, none, some, List, [], ◌∷◌,
  ◌++◌, ◌==◌, ltb, if◌then◌else◌,
}

-- thread_run_state_t
pub data RunState : Type 0 where
  stopped running ready blocked : RunState

abbrev pub is_stopped : RunState → Bool
is_stopped stopped = true
is_stopped _ = false

abbrev pub is_running : RunState → Bool
is_running running = true
is_running _ = false

abbrev pub is_ready : RunState → Bool
is_ready ready = true
is_ready _ = false

abbrev pub is_blocked : RunState → Bool
is_blocked blocked = true
is_blocked _ = false

-- `struct pet_thread`, less the stack. `waiting_for_me` is `none` where the list head was never
-- initialised; `freed` tells whether the struct was given back.
pub record Thread : Type 0 where
  pub state : RunState
  pub waiting_for_me : Option (List ℕ)
  pub return_receiver : ℕ
  pub freed : Bool

-- The globals: `thread_id_count`, `running`, `stopped`, `ready_list` and `blocked_list`, with the
-- threads by id. `stale_id` and `stale_state` are what the struct of a thread holds after it was
-- freed.
pub record Sched : Type 0 where
  pub threads : ℕ → Thread
  pub stale_id : ℕ → ℕ
  pub stale_state : ℕ → RunState
  pub thread_id_count : ℕ
  pub current : ℕ
  pub last_stopped : Option ℕ
  pub ready_list : List ℕ
  pub blocked_list : List ℕ

pub data Error : Type 0 where
  assertion bad_pointer : Error

-- What a call comes to: a failed assertion or a bad pointer ends the program.
pub data Attempt {ℓ} (A : Type ℓ) : Type ℓ where
  failed : Error → Attempt A
  done : A → Attempt A

infixl 5 ◌>>=◌ ◌>>◌
abbrev pub ◌>>=◌ {ℓ₁ ℓ₂} :
    {From : Type ℓ₁} {To : Type ℓ₂} → Attempt From → (From → Attempt To) → Attempt To
failed why >>= go_on = failed why
done from >>= go_on = go_on from

abbrev pub ◌>>◌ {ℓ} : {From : Type 0} {To : Type ℓ} → Attempt From → Attempt To → Attempt To
failed why >> go_on = failed why
done from >> go_on = go_on

abbrev pub master : ℕ
master = 0

-- `assert` of the C library.
abbrev pub assert : Bool → Attempt (Unit {0})
assert holds = if holds then done tt else failed assertion

pub member : ℕ → List ℕ → Bool
member t [] = false
member t (x ∷ xs) = x == t || member t xs

pub remove : ℕ → List ℕ → List ℕ
remove t [] = []
remove t (x ∷ xs) = if x == t then xs else x ∷ remove t xs

abbrev pub state_of : Sched → ℕ → RunState
state_of s t = (s.threads t).state

abbrev pub set_thread : ℕ → Thread → Sched → Sched
set_thread t th s = record s { threads = λ u. if t == u then th else s.threads u }

abbrev pub set_state : ℕ → RunState → Sched → Sched
set_state t st s = set_thread t (record (s.threads t) { state = st }) s

-- What a pointer to a thread reads as its id and its state.
abbrev pub id_at : Sched → ℕ → ℕ
id_at s t = if (s.threads t).freed then s.stale_id t else t

abbrev pub state_at : Sched → ℕ → RunState
state_at s t = if (s.threads t).freed then s.stale_state t else state_of s t

-- `get_thread`: `none` is NULL. The struct behind `stopped` may be a freed one.
pub get_thread : Sched → ℕ → Option ℕ
get_thread s id =
    if id == master
    then some master
    else if s.current == id
    then some id
    else if elim (s.last_stopped) [ none ↦ false | some t ↦ id_at s t == id ]
    then s.last_stopped
    else if member id s.ready_list || member id s.blocked_list
    then some id
    else none

-- `list_del(&thread->list)`, from the list that the thread is in.
pub list_del : ℕ → Sched → Attempt Sched
list_del t s =
    if member t s.ready_list
    then done (record s { ready_list = remove t s.ready_list })
    else if member t s.blocked_list
    then done (record s { blocked_list = remove t s.blocked_list })
    else failed bad_pointer

-- The zeroed globals, and `pet_thread_init` on them. The master's list of waiters stays zeroed.
abbrev pub zeroed : Thread
zeroed = record { state = stopped; waiting_for_me = none; return_receiver = 0; freed = false }

pub thread_init : (ℕ → ℕ) → (ℕ → RunState) → Sched
thread_init stale_id stale_state = record {
  stale_id = stale_id;
  stale_state = stale_state;
  threads = λ u. if master == u then record zeroed { state = running } else zeroed;
  thread_id_count = 1;
  current = master;
  last_stopped = none;
  ready_list = [];
  blocked_list = [];
}

-- `pet_thread_create`, with the id that it writes to `*thread_id`.
pub thread_create : Sched → Sched × ℕ
thread_create s =
    let id = s.thread_id_count in
    let th : Thread = record {
      state = ready;
      waiting_for_me = some [];
      return_receiver = 0;
      freed = false;
    } in
    (
      record (set_thread id th s) {
        thread_id_count = (id + 1) % 2 ^ 32;
        ready_list = s.ready_list ++ id ∷ [];
      },
      id,
    )

-- `pet_thread_cleanup`
pub thread_cleanup : ℕ → Sched → Attempt Sched
thread_cleanup prev_id s = elim (get_thread s prev_id) [
  | none ↦ failed bad_pointer
  | some t ↦
      if is_stopped (state_at s t)
      then if (s.threads t).freed
        then failed bad_pointer
        else done (set_thread t (record (s.threads t) { freed = true }) s)
      else done s
]

-- The switch on the old thread's state in `__thread_invoker`.
pub put_away : ℕ → RunState → Sched → Sched
put_away old running s =
    set_state old ready
      (if old == master then s else record s { ready_list = s.ready_list ++ old ∷ [] })
put_away old blocked s = record s { blocked_list = s.blocked_list ++ old ∷ [] }
put_away old stopped s = record s { last_stopped = some old }
put_away old ready s = s

-- `__thread_invoker`
pub thread_invoker : ℕ → Sched → Attempt Sched
thread_invoker t s = do
  assert (is_ready (state_of s t))
  assert (not (is_ready (state_of s s.current)))
  s' ←
      if t == master then done (record s { current = t }) else list_del t (record s { current = t })
  thread_cleanup s.current (set_state t running (put_away s.current (state_of s' s.current) s'))

-- `pet_thread_schedule`
pub thread_schedule : Sched → Attempt Sched
thread_schedule s = elim (s.ready_list) [
  | [] ↦ if not (s.current == master) then thread_invoker master s else done s
  | t ∷ _ ↦ do assert (is_ready (state_of s t)); thread_invoker t s
]

-- `pet_thread_run`
pub thread_run : Sched → Attempt Sched
thread_run s = thread_schedule s

-- `pet_thread_yield_to`
pub thread_yield_to : ℕ → Sched → Attempt Sched
thread_yield_to id s = elim (get_thread s id) [
  | none ↦ thread_schedule s
  | some t ↦ if is_ready (state_at s t) then thread_invoker t s else thread_schedule s
]

-- `list_add_tail(&w_t->list, &thread->waiting_for_me_list)`
pub add_waiter : ℕ → ℕ → Sched → Attempt Sched
add_waiter w t s = elim ((s.threads t).waiting_for_me) [
  | none ↦ failed bad_pointer
  | some ws ↦
      if (s.threads t).freed
      then failed bad_pointer
      else done (set_thread t (record (s.threads t) { waiting_for_me = some (ws ++ w ∷ []) }) s)
]

-- `pet_thread_join` up to the switch; `false` is its return of -1.
pub thread_join : ℕ → Sched → Attempt (Sched × Bool)
thread_join id s = elim (get_thread s id) [
  | none ↦ done (s, false)
  | some t ↦ do
    assert (is_running (state_of s s.current))
    s' ← add_waiter s.current t (set_state s.current blocked s)
    s'' ← thread_schedule s'
    done (s'', true)
]

-- `pet_thread_join` when the switch comes back to its caller: the value that it stores, and 0.
pub join_resumed : Sched → ℕ × ℕ
join_resumed s = ((s.threads s.current).return_receiver, 0)

-- The body of the loop of `__quarantine`: the first waiter of the current thread gets the value and
-- is ready, and its `struct waiting_thread` is taken out of the list, of which `rest` is left.
pub wake : ℕ → ℕ → List ℕ → Sched → Attempt Sched
wake ret w rest s = do
  assert (is_blocked (state_of s w))
  s' ← list_del w (set_thread w (record (s.threads w) { return_receiver = ret; state = ready }) s)
  let th = s'.threads s.current
  done (
      set_thread s.current (record th { waiting_for_me = some rest })
        (record s' { ready_list = s'.ready_list ++ w ∷ [] }))

pub wake_all : ℕ → List ℕ → Sched → Attempt Sched
wake_all ret [] s = done s
wake_all ret (w ∷ ws) s = wake ret w ws s >>= wake_all ret ws

-- `__quarantine`, which `pet_thread_exit` and `__capture_return` call.
pub quarantine : ℕ → Sched → Attempt Sched
quarantine ret s = elim ((s.threads s.current).waiting_for_me) [
  | none ↦ failed bad_pointer
  | some ws ↦ do
    s' ← wake_all ret ws s
    assert (is_running (state_of s' s'.current))
    assert (not (s'.current == master))
    thread_schedule (set_state s'.current stopped s')
]

-- What the running thread may call.
pub data Call : Type 0 where
  creates : Call
  schedules : Call
  yields_to : ℕ → Call
  joins : ℕ → Call
  exits : ℕ → Call

pub call : Call → Sched → Attempt Sched
call creates s = done (thread_create s).0
call schedules s = thread_schedule s
call (yields_to id) s = thread_yield_to id s
call (joins id) s = do r ← thread_join id s; done r.0
call (exits ret) s = quarantine ret s
