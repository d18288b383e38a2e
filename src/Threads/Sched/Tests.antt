-- ===== src/Threads/Sched/Tests.antt =====
-- Runs of the scheduler of Threads/pet_thread.c, and its theorems there.
use cs.Prelude.{ℕ, ◌≡◌, refl, List, [], ◌∷◌, arith}
use cs.Threads.Sched.{
  stopped, Sched, get_thread, member, remove, list_del, put_away, add_waiter, wake, wake_all,
  thread_cleanup, thread_invoker, thread_join, Attempt, done, failed, ◌>>=◌, assertion, thread_init,
  thread_create, thread_schedule, thread_run, thread_yield_to, quarantine, Call, creates, schedules,
  yields_to, joins, exits, call,
}
use cs.Threads.Sched.Inv.{Inv, waiters}
use cs.Threads.Sched.Calls.{Reach, start, calls, Allowed, Reach-Sound}
use cs.Threads.Sched.Exit.{Exited, quarantine-Exited}
use cs.Threads.Sched.Schedule.{Goes, yielded, thread_yield_to-Goes}
use cs.Threads.Sched.RoundRobin.{schedule_times, schedule_times-current}

abbrev run : List Call → Sched → Attempt Sched
run [] s = done s
run (c ∷ cs) s = call c s >>= run cs

-- What malloc returns holds zeroes, but for the ids, which are the numbers of the threads.
abbrev at_start : Sched
at_start = thread_init (λ t. t) (λ _. stopped)

abbrev or_init : Attempt Sched → Sched
or_init (done s) = s
or_init (failed e) = at_start

-- Two threads are created, the first runs and waits for the second.
abbrev created : Sched
created = (thread_create (thread_create at_start).0).0

abbrev waiting : Sched
waiting = or_init (run (schedules ∷ joins 2 ∷ []) created)

abbrev trace : Sched → ℕ × List ℕ × List ℕ × List ℕ
trace s = (s.current, s.ready_list, s.blocked_list, waiters s 2)

join_two_runs : trace waiting ≡ (2, [], 1 ∷ [], 1 ∷ [])
unfolding thread_init thread_create thread_schedule thread_invoker thread_join thread_cleanup
    get_thread member remove list_del put_away add_waiter call
join_two_runs = refl

-- The master asks to join, and is woken by the exit of the thread: the ready list then names it.
abbrev master_woken : Sched
master_woken = or_init (run (creates ∷ joins 1 ∷ exits 7 ∷ []) at_start)

master_join_runs : trace master_woken ≡ (0, 0 ∷ [], [], [])
unfolding thread_init thread_create thread_schedule thread_invoker thread_join thread_cleanup
    get_thread member remove list_del put_away add_waiter call quarantine wake wake_all
master_join_runs = refl

-- Its next call of the scheduler fails the assertion on the state.
master_join_fails : thread_schedule master_woken ≡ failed assertion
unfolding thread_init thread_create thread_schedule thread_invoker thread_join thread_cleanup
    get_thread member remove list_del put_away add_waiter call quarantine wake wake_all
master_join_fails = refl

reach_created : Reach created
unfolding thread_init thread_create thread_schedule thread_invoker thread_join thread_cleanup
    get_thread member remove list_del put_away add_waiter call Allowed
reach_created =
    calls (calls (start (λ t. t) (λ _. stopped) (λ t. refl) (λ t. refl)) creates (omega arith) refl)
      creates (omega arith) refl

abbrev first_runs : Sched
first_runs = or_init (run (schedules ∷ []) created)

reach_first : Reach first_runs
unfolding thread_init thread_create thread_schedule thread_invoker thread_join thread_cleanup
    get_thread member remove list_del put_away add_waiter call Allowed
reach_first = calls reach_created schedules tt refl

reach_waiting : Reach waiting
unfolding thread_init thread_create thread_schedule thread_invoker thread_join thread_cleanup
    get_thread member remove list_del put_away add_waiter call Allowed
reach_waiting =
    calls reach_first (joins 2) (λ e. ground (arith, e), λ e. ground (arith, e), refl) refl

quarantine-Exited_example :
    (s' : Sched) × (quarantine 7 waiting ≡ done s')
    × Exited (Reach-Sound reach_waiting).0 7 (waiters waiting 2) waiting s'
unfolding thread_init thread_create thread_schedule thread_invoker thread_join thread_cleanup
    get_thread member remove list_del put_away add_waiter call
quarantine-Exited_example =
    quarantine-Exited 7 (Reach-Sound reach_waiting).1 (λ e. ground (arith, e))

schedule_times-current_example :
    (s' : Sched) × (schedule_times 2 created ≡ done s')
    × Inv (Reach-Sound reach_created).0 s'
    × (s'.current ≡ 2)
unfolding thread_init thread_create
schedule_times-current_example =
    schedule_times-current (1 ∷ []) 2 [] (Reach-Sound reach_created).1 refl

thread_yield_to-Goes_example :
    Goes
      (Reach-Sound reach_first).0
      first_runs
      (thread_yield_to 2 first_runs)
      (yielded 2 first_runs)
thread_yield_to-Goes_example = thread_yield_to-Goes 2 (Reach-Sound reach_first).1

-- Thread 1 joins thread 2, which yields to the master, is run again by it, and exits with 7;
-- thread 1 runs then.
abbrev second_again : Sched
second_again = or_init (run (yields_to 0 ∷ schedules ∷ []) waiting)

abbrev first_again : Sched
first_again = or_init (quarantine 7 second_again)

first_received : (first_again.threads 1).return_receiver ≡ 7
unfolding thread_init thread_create thread_schedule thread_yield_to thread_invoker thread_join
    thread_cleanup get_thread member remove list_del put_away add_waiter call quarantine wake
    wake_all
first_received = refl

first_started : (or_init (thread_run created)).current ≡ 1
unfolding thread_init thread_create thread_schedule thread_invoker thread_cleanup get_thread member
    remove list_del put_away thread_run
first_started = refl
