-- ===== src/Threads/Sched/Exit.antt =====
-- `__quarantine` of Threads/pet_thread.c, which `pet_thread_exit` calls: the waiters are woken in
-- their order, and the thread stops.
use cs.Prelude.{
  one_if, ℕ, ◌+◌, ◌≤◌, ◌<◌, ◌≡◌, ◌≢◌, refl, sym, ◌∙◌, ap, subst, false, ◌&&◌, Option, none, some,
  List, [], ◌∷◌, ◌++◌, arith, ◌==◌, if◌then◌else◌, append-nil, append_assoc,
}
use cs.Threads.Sched.{
  stopped, ready, blocked, is_ready, is_blocked, Sched, state_of, master, ◌>>=◌, done, set_thread,
  set_state, list_del, member, remove, put_away, thread_schedule, wake, wake_all, quarantine,
}
use cs.Threads.Sched.Count.{count, member-count, count-snoc, count-remove}
use cs.Threads.Sched.Inv.{list_of, waiters, is_aside, Core, Inv}
use cs.Threads.Sched.Switch.{switched, invoker-switched, cleanup-ready_list}
use cs.Threads.Sched.Schedule.{Core-CanRun, next, thread_schedule-Goes, Inv-kept}

-- The state after the first waiter `w` of the current thread was woken.
abbrev pub woken : ℕ → ℕ → List ℕ → Sched → Sched
woken ret w rest s =
    let s' = set_thread w (record (s.threads w) { return_receiver = ret; state = ready }) s in
    record (set_thread s.current (record (s.threads s.current) { waiting_for_me = some rest }) s') {
      ready_list = s.ready_list ++ w ∷ [];
      blocked_list = remove w s.blocked_list;
    }

module _ {target : ℕ → ℕ} {s : Sched} (i : Inv target s) (w : ℕ) (rest : List ℕ) (ret : ℕ)
    (l : waiters s s.current ≡ w ∷ rest) where
  c : Core target s
  c = i.core

  waits : (state_of s w ≡ blocked) × (target w ≡ s.current) × (w < s.thread_id_count) × (w ≢ master)
  waits = c.waits s.current w (ground (arith, l))

  waiter-other : w ≢ s.current
  waiter-other e = ground (arith, waits.0, i.runs)

  rest-count :
      (v : ℕ)
      → (one_if (w == v) + count v rest ≡ count v (waiters s s.current))
        × (one_if (w == v) + count v rest ≤ 1)
  rest-count v = ground (arith, l, c.once s.current v)

  woken-removed :
      (v : ℕ) → one_if (w == v) + count v (remove w s.blocked_list) ≡ count v s.blocked_list
  woken-removed v =
      count-remove w v s.blocked_list
        (ground (arith, c.in_blocked w, waits, waiter-other, member-count w s.blocked_list))

  woken-in_ready :
      (u : ℕ)
      → count u (woken ret w rest s).ready_list
        ≡ one_if (is_aside (woken ret w rest s) u && is_ready (state_of (woken ret w rest s) u))
  woken-in_ready u = ground (arith, c.in_ready u, count-snoc u w s.ready_list, waits, waiter-other)

  woken-in_blocked :
      (u : ℕ)
      → count u (woken ret w rest s).blocked_list
        ≡ one_if (is_aside (woken ret w rest s) u && is_blocked (state_of (woken ret w rest s) u))
  woken-in_blocked u = ground (arith, c.in_blocked u, woken-removed u, waits, waiter-other)

  woken-once : (u v : ℕ) → count v (waiters (woken ret w rest s) u) ≤ 1
  woken-once u v = ground (arith, c.once u v, rest-count v)

  woken-waits :
      (u v : ℕ)
      → 0 < count v (waiters (woken ret w rest s) u)
      → (state_of (woken ret w rest s) v ≡ blocked)
        × (target v ≡ u)
        × (v < (woken ret w rest s).thread_id_count)
        × (v ≢ master)
  woken-waits u v h =
      ground (arith, c.waits u v, c.waits s.current v, rest-count v, waits, waiter-other)

  pub woken-Inv : Inv target (woken ret w rest s)
  woken-Inv = record {
    core = record {
      known = c.known;
      not_ready = ground (arith, c.not_ready, waiter-other);
      master_runs = λ e. ground (arith, i.runs, waiter-other);
      master_waits = λ e. ground (arith, c.master_waits e, waits);
      in_ready = woken-in_ready;
      in_blocked = woken-in_blocked;
      one_runs = λ u e. ground (arith, c.one_runs u);
      initialised = λ u n k. ground (arith, c.initialised u n k);
      once = woken-once;
      waits = woken-waits;
      fresh = λ u k. ground (arith, c.fresh u, waits, c.known);
      stopped_known = c.stopped_known;
      freed_stopped = λ u e. ground (arith, c.freed_stopped u, waits, i.runs);
      kept_id = c.kept_id;
      kept_state = c.kept_state;
    };
    runs = ground (arith, i.runs, waiter-other);
  }

  pub wake-woken : wake ret w rest s ≡ done (woken ret w rest s)
  unfolding wake list_del
  wake-woken = ground (
    arith,
    waits,
    waiter-other,
    c.in_ready w,
    c.in_blocked w,
    member-count w s.ready_list,
    member-count w s.blocked_list,
  )

-- What the loop of `__quarantine` leaves behind.
pub record AllWoken (target : ℕ → ℕ) (ret : ℕ) (ws : List ℕ) (s s' : Sched) : Type 0 where
  pub inv : Inv target s'
  pub same_current : s'.current ≡ s.current
  pub in_line : s'.ready_list ≡ s.ready_list ++ ws
  pub received :
      (u : ℕ)
      → (s'.threads u).return_receiver
        ≡ (if member u ws then ret else (s.threads u).return_receiver)
  pub woken_state : (u : ℕ) → state_of s' u ≡ (if member u ws then ready else state_of s u)
  pub others :
      (u : ℕ) → u ≢ s.current → (s'.threads u).waiting_for_me ≡ (s.threads u).waiting_for_me
  pub same_count : s'.thread_id_count ≡ s.thread_id_count

AllWoken-cons :
    {target : ℕ → ℕ} {s s' : Sched} (ret w : ℕ) (ws : List ℕ)
    → Inv target s
    → waiters s s.current ≡ w ∷ ws
    → AllWoken target ret ws (woken ret w ws s) s'
    → AllWoken target ret (w ∷ ws) s s'
unfolding member
AllWoken-cons {s} ret w ws i l a = record {
  inv = a.inv;
  same_current = a.same_current;
  in_line = a.in_line ∙ append_assoc s.ready_list (w ∷ []) ws;
  received = λ u. a.received u ∙ ground (arith, waiter-other i w ws ret l);
  woken_state = λ u. a.woken_state u ∙ ground (arith, waiter-other i w ws ret l);
  others = λ u n. a.others u n ∙ ground (arith, n);
  same_count = a.same_count;
}

wake_all-AllWoken :
    {target : ℕ → ℕ} (ret : ℕ) (ws : List ℕ) {s : Sched}
    → Inv target s
    → waiters s s.current ≡ ws
    → (s' : Sched) × (wake_all ret ws s ≡ done s') × AllWoken target ret ws s s'
unfolding wake_all member
wake_all-AllWoken ret [] {s} i l = (
  s,
  refl,
  record {
    inv = i;
    same_current = refl;
    in_line = sym (append-nil s.ready_list);
    received = λ u. refl;
    woken_state = λ u. refl;
    others = λ u n. refl;
    same_count = refl;
  },
)
wake_all-AllWoken ret (w ∷ ws) {s} i l =
    let (s', e, a) = wake_all-AllWoken ret ws (woken-Inv i w ws ret l) (ground arith) in
    (
      s',
      ap (λ m. m >>= wake_all ret ws) (wake-woken i w ws ret l) ∙ e,
      AllWoken-cons ret w ws i l a,
    )

stopping-Core :
    {target : ℕ → ℕ} {s : Sched}
    → Inv target s
    → s.current ≢ master
    → Core target (set_state s.current stopped s)
stopping-Core {target} {s} i n = record {
  known = c.known;
  not_ready = ground arith;
  master_runs = λ e. absurd (n e);
  master_waits = λ e. ground (arith, c.master_waits e);
  in_ready = λ u. ground (arith, c.in_ready u);
  in_blocked = λ u. ground (arith, c.in_blocked u);
  one_runs = λ u e. ground (arith, c.one_runs u);
  initialised = λ u m l. ground (arith, c.initialised u m l);
  once = λ u w. ground (arith, c.once u w);
  waits = λ u w h. ground (arith, c.waits u w, i.runs);
  fresh = λ u l. ground (arith, c.fresh u, c.known);
  stopped_known = c.stopped_known;
  freed_stopped = λ u e. ground (arith, c.freed_stopped u);
  kept_id = c.kept_id;
  kept_state = c.kept_state;
}
  where
    c : Core target s
    c = i.core

abbrev pub tail : List ℕ → List ℕ
tail [] = []
tail (t ∷ ts) = ts

-- The thread that runs next leaves the ready list, and a thread that stops is not put there.
schedule-tail :
    {target : ℕ → ℕ} {s s' : Sched} (ts : List ℕ)
    → Core target s
    → state_of s s.current ≡ stopped
    → s.ready_list ≡ ts
    → thread_schedule s ≡ done s'
    → s'.ready_list ≡ tail ts
unfolding thread_schedule put_away remove
schedule-tail {s = s} {s' = s'} [] c e l f =
    let n : s.current ≢ master = λ h. ground (arith, e, c.master_runs h) in
    let g = invoker-switched c master (Core-CanRun master c (c.master_waits n)) in
    cleanup-ready_list (switched master (state_of s s.current) s) {s' = s'} s.current
      (ground (arith, f, g, l, n))
    ∙ ground (arith, e, l)
schedule-tail {s = s} {s' = s'} (t ∷ ts) c e l f =
    let r : state_of s t ≡ ready = ground (arith, l, c.in_ready t) in
    let g = invoker-switched c t (Core-CanRun t c r) in
    cleanup-ready_list (switched t (state_of s s.current) s) {s' = s'} s.current
      (ground (arith, l, f, g, r))
    ∙ ground (arith, e, l, c.in_ready t)

-- Where the exit of the current thread, with the waiters `ws`, leaves the scheduler.
pub record Exited (target : ℕ → ℕ) (ret : ℕ) (ws : List ℕ) (s s' : Sched) : Type 0 where
  pub inv : Inv target s'
  pub switches : s'.current ≡ next (s.ready_list ++ ws)
  pub in_line : s'.ready_list ≡ tail (s.ready_list ++ ws)
  pub received :
      (u : ℕ)
      → (s'.threads u).return_receiver
        ≡ (if member u ws then ret else (s.threads u).return_receiver)
  pub woken_state :
      (u : ℕ)
      → u ≢ s.current
      → u ≢ s'.current
      → state_of s' u ≡ (if member u ws then ready else state_of s u)
  pub others :
      (u : ℕ) → u ≢ s.current → (s'.threads u).waiting_for_me ≡ (s.threads u).waiting_for_me
  pub same_count : s'.thread_id_count ≡ s.thread_id_count

stopping-kept :
    {target : ℕ → ℕ} {s : Sched}
    → Inv target s
    → ((set_state s.current stopped s).threads s.current).freed ≡ false
stopping-kept i = ground (arith, Inv-kept i)

stops :
    {target : ℕ → ℕ} {s s' : Sched} (ret : ℕ) (ws : List ℕ)
    → AllWoken target ret ws s s'
    → s'.current ≢ master
    → (s'' : Sched) × (thread_schedule (set_state s'.current stopped s') ≡ done s'')
      × Exited target ret ws s s''
stops {s} {s'} ret ws a n =
    let (s'', g, j, k, q) = thread_schedule-Goes (stopping-Core a.inv n) (stopping-kept a.inv) in
    (
      s'',
      g,
      record {
        inv = j;
        switches = k ∙ ap next a.in_line;
        in_line =
            schedule-tail s'.ready_list (stopping-Core a.inv n) (ground arith) refl g
            ∙ ap tail a.in_line;
        received = λ u. (q u).0 ∙ ground arith ∙ a.received u;
        woken_state = λ u h g.
            (q u).2 (λ e. h (e ∙ a.same_current)) g
            ∙ ground (arith, h, a.same_current)
            ∙ a.woken_state u;
        others = λ u h. (q u).1 ∙ ground arith ∙ a.others u h;
        same_count = (q 0).3 ∙ a.same_count;
      },
    )

exit_from :
    {target : ℕ → ℕ} {s : Sched} (ret : ℕ) (o : Option (List ℕ))
    → Inv target s
    → s.current ≢ master
    → (s.threads s.current).waiting_for_me ≡ o
    → (s' : Sched) × (quarantine ret s ≡ done s') × Exited target ret (waiters s s.current) s s'
unfolding quarantine
exit_from {s} ret none i n e = absurd (ground (arith, i.core.initialised s.current n i.core.known))
exit_from {target} {s} ret (some ws) i n e =
    let l : waiters s s.current ≡ ws = ap list_of e in
    let (s', f, a) = wake_all-AllWoken ret ws i l in
    let n' : s'.current ≢ master = λ h. n (sym a.same_current ∙ h) in
    let (s'', g, x) = stops ret ws a n' in
    (
      s'',
      ground (arith, f, g, e, a.inv.runs, n'),
      subst (λ vs. Exited target ret vs s s'') (sym l) x,
    )

-- From a state with the invariant, by which the struct of a freed thread still holds its id and its
-- state, the exit of a current thread that is not the master ends well. The invariant holds after it,
-- each waiter of the thread holds the exit value and every other thread the value it held; but for
-- that thread and the next to run, the waiters are ready and the others in the state that they were
-- in; only the list of the waiters of that thread changes. The waiters join the end of the ready list
-- in the order in which they joined; the head of that list runs next and leaves it, or the master
-- runs where it is empty.
pub quarantine-Exited :
    {target : ℕ → ℕ} {s : Sched} (ret : ℕ)
    → Inv target s
    → s.current ≢ master
    → (s' : Sched) × (quarantine ret s ≡ done s') × Exited target ret (waiters s s.current) s s'
quarantine-Exited {s} ret i n = exit_from ret (s.threads s.current).waiting_for_me i n refl
