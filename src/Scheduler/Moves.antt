-- ===== src/Scheduler/Moves.antt =====
-- The steps of one goroutine, and of the system of them.
use grain.Base.{ℕ, ◌+◌, ◌-◌, Bool, true, false, List, [], ◌∷◌, ◌++◌, ◌≡◌, ◌≢◌, ◌⊎◌}
use grain.Queue
use grain.Queue.{Queue}
use grain.Ring.{push_ok}
use grain.Scheduler.{
  Actor, Context, initialize, poison, ordinary, drain_idle, drain_running, drain_stopped,
  actor_initializing, actor_starting, actor_started, actor_stopping, actor_stopped, StopFrom,
  idle_stop, failed_start, failed_start_exit, Pc, scheduling, loop_top, popping, testing_stop,
  testing_unfinished, entering_stop, checking_status, checking_len, checking_unfinished, got,
  counted, dispatching, poisoning, receiving, handed, awaiting, registering, starting, closing,
  pre_stopping, unregistering, sealing, deregistering, draining, leaving_stop, leaving, left,
  last_left, finishing, rechecking_len, rechecking_stop, rechecking_unfinished, after_stop,
  next_of_left, new_actor,
}

abbrev pub with_waiting : Queue Context → List Context → Queue Context
with_waiting q cs = record q { waiting = cs }

-- `Move a p b ps`: a goroutine at `p` takes the actor from `a` to `b` and is replaced by `ps`:
-- itself where it goes on, and the goroutine that it starts.
pub data Move (a : Actor) : Pc → Actor → List Pc → Type 0 where
  -- schedule
  schedule_won :
      a.drain_status ≡ drain_idle
      → Move a scheduling (record a { drain_status = drain_running }) (loop_top ∷ [])
  schedule_lost : a.drain_status ≢ drain_idle → Move a scheduling a []
  -- drain
  loop_ends : a.drain_status ≡ drain_stopped → Move a loop_top a (finishing ∷ [])
  loop_goes_on : a.drain_status ≢ drain_stopped → Move a loop_top a (popping ∷ [])
  pop_some :
      {c : Context} {rest : List Context}
      → a.mail.waiting ≡ c ∷ rest
      → Move a popping
          (record a { mail = with_waiting a.mail rest; popped = a.popped ++ (c ∷ []) })
          (got c ∷ [])
  pop_none : a.mail.waiting ≡ [] → Move a popping a (testing_stop ∷ [])
  not_asked : a.stop_requested ≡ false → Move a testing_stop a (finishing ∷ [])
  asked : a.stop_requested ≡ true → Move a testing_stop a (testing_unfinished ∷ [])
  calls_open : a.unfinished_calls ≢ 0 → Move a testing_unfinished a (finishing ∷ [])
  calls_done : a.unfinished_calls ≡ 0 → Move a testing_unfinished a (entering_stop ∷ [])
  -- stopIfIdle
  enter_stop :
      a.permit ≡ true → Move a entering_stop (record a { permit = false }) (checking_status ∷ [])
  already_stopped : a.drain_status ≡ drain_stopped → Move a checking_status a (leaving_stop ∷ [])
  not_stopped : a.drain_status ≢ drain_stopped → Move a checking_status a (checking_len ∷ [])
  mail_came : a.mail.waiting ≢ [] → Move a checking_len a (leaving_stop ∷ [])
  no_mail : a.mail.waiting ≡ [] → Move a checking_len a (checking_unfinished ∷ [])
  call_came : a.unfinished_calls ≢ 0 → Move a checking_unfinished a (leaving_stop ∷ [])
  stop_started :
      a.unfinished_calls ≡ 0
      → a.lifecycle_state ≡ actor_started
      → Move a checking_unfinished
          (record a { lifecycle_state = actor_stopping })
          (closing idle_stop true ∷ [])
  stop_not_started :
      a.unfinished_calls ≡ 0
      → a.lifecycle_state ≢ actor_started
      → a.lifecycle_state ≢ actor_stopped
      → a.lifecycle_state ≢ actor_stopping
      → Move a checking_unfinished
          (record a { lifecycle_state = actor_stopping })
          (closing idle_stop false ∷ [])
  stop_again :
      a.unfinished_calls ≡ 0
      → (a.lifecycle_state ≡ actor_stopped) ⊎ (a.lifecycle_state ≡ actor_stopping)
      → Move a checking_unfinished a (leaving_stop ∷ [])
  leave_stop : Move a leaving_stop (record a { permit = true }) (finishing ∷ [])
  -- mailboxScheduler.invoke and execution.invoke
  count :
      {c : Context}
      → Move a (got c) (record a { unfinished_calls = a.unfinished_calls + 1 }) (counted c ∷ [])
  enter :
      {c : Context}
      → a.permit ≡ true
      → Move a (counted c) (record a { permit = false }) (dispatching c ∷ [])
  begin_start :
      a.lifecycle_state ≡ actor_initializing
      → Move a
          (dispatching initialize)
          (record a { lifecycle_state = actor_starting; handled = a.handled ++ (initialize ∷ []) })
          (registering ∷ [])
  start_again :
      a.lifecycle_state ≢ actor_initializing
      → Move a
          (dispatching initialize)
          (record a { handled = a.handled ++ (initialize ∷ []) })
          (leaving false false ∷ [])
  poisoned :
      Move a
        (dispatching poison)
        (record a { stop_requested = true; handled = a.handled ++ (poison ∷ []) })
        (poisoning ∷ [])
  poison_won :
      a.drain_status ≡ drain_idle
      → Move a poisoning
          (record a { drain_status = drain_running })
          (leaving false false ∷ loop_top ∷ [])
  poison_lost : a.drain_status ≢ drain_idle → Move a poisoning a (leaving false false ∷ [])
  receive :
      {n : ℕ}
      → Move a
          (dispatching (ordinary n))
          (record a { handled = a.handled ++ (ordinary n ∷ []) })
          (receiving false ∷ [])
  -- A panic in `Receive` is recovered and ends the call as a return does.
  return :
      {transferred : Bool}
      → Move a
          (receiving transferred)
          (record a { receive_ends = a.receive_ends + 1 })
          (leaving transferred false ∷ [])
  goexit :
      {transferred : Bool}
      → Move a
          (receiving transferred)
          (record a { receive_ends = a.receive_ends + 1 })
          (leaving transferred true ∷ [])
  leave :
      {transferred exits : Bool}
      → Move a
          (leaving transferred exits)
          (record a { permit = true })
          (left transferred exits ∷ [])
  count_off :
      {exits : Bool}
      → Move a
          (left false exits)
          (record a { unfinished_calls = a.unfinished_calls - 1 })
          (next_of_left exits ∷ [])
  count_off_last :
      {exits : Bool}
      → a.unfinished_calls - 1 ≡ 0
      → Move a
          (left true exits)
          (record a { unfinished_calls = a.unfinished_calls - 1 })
          (last_left ∷ [])
  count_off_transferred :
      {exits : Bool}
      → a.unfinished_calls - 1 ≢ 0
      → Move a (left true exits) (record a { unfinished_calls = a.unfinished_calls - 1 }) []
  wake_stop : a.stop_requested ≡ true → Move a last_left a (scheduling ∷ [])
  no_stop : a.stop_requested ≡ false → Move a last_left a []
  -- suspend and resume
  hand_over : Move a (receiving false) a (handed ∷ loop_top ∷ [])
  suspend_again : Move a (receiving true) a (handed ∷ [])
  release : Move a handed (record a { permit = true }) (awaiting ∷ [])
  resume : a.permit ≡ true → Move a awaiting (record a { permit = false }) (receiving true ∷ [])
  -- finishDraining
  park :
      a.drain_status ≡ drain_running
      → Move a finishing (record a { drain_status = drain_idle }) (rechecking_len ∷ [])
  parked : a.drain_status ≢ drain_running → Move a finishing a []
  len_found : a.mail.waiting ≢ [] → Move a rechecking_len a (scheduling ∷ [])
  len_zero : a.mail.waiting ≡ [] → Move a rechecking_len a (rechecking_stop ∷ [])
  stop_found : a.stop_requested ≡ true → Move a rechecking_stop a (rechecking_unfinished ∷ [])
  stop_absent : a.stop_requested ≡ false → Move a rechecking_stop a []
  ready_found : a.unfinished_calls ≡ 0 → Move a rechecking_unfinished a (scheduling ∷ [])
  ready_absent : a.unfinished_calls ≢ 0 → Move a rechecking_unfinished a []
  -- actorLifecycleState.start
  register_none : Move a registering a (starting ∷ [])
  register_ok : Move a registering (record a { cluster_registration_owned = true }) (starting ∷ [])
  register_failed :
      Move a registering
        (record a { lifecycle_state = actor_stopping })
        (closing failed_start false ∷ [])
  register_exits :
      Move a registering
        (record a { lifecycle_state = actor_stopping })
        (closing failed_start_exit false ∷ [])
  start_ok :
      Move a starting
        (record a {
          lifecycle_state = actor_started;
          started_calls = a.started_calls + 1;
          started_runs = a.started_runs + 1;
        })
        (leaving false false ∷ [])
  start_failed :
      Move a starting
        (record a { lifecycle_state = actor_stopping; started_calls = a.started_calls + 1 })
        (closing failed_start false ∷ [])
  start_exits :
      Move a starting
        (record a { lifecycle_state = actor_stopping; started_calls = a.started_calls + 1 })
        (closing failed_start_exit false ∷ [])
  -- actorLifecycleState.stop
  close_then_pre_stop :
      {k : StopFrom}
      → Move a
          (closing k true)
          (record a { mail = record (a.mail) { closed = true } })
          (pre_stopping k ∷ [])
  close_only :
      {k : StopFrom}
      → Move a
          (closing k false)
          (record a { mail = record (a.mail) { closed = true } })
          (unregistering k ∷ [])
  pre_stop :
      {k : StopFrom}
      → Move a
          (pre_stopping k)
          (record a { pre_stop_runs = a.pre_stop_runs + 1 })
          (unregistering k ∷ [])
  unregister : {k : StopFrom} → Move a (unregistering k) a (sealing k ∷ [])
  seal :
      {k : StopFrom}
      → Move a
          (sealing k)
          (record a { lifecycle_state = actor_stopped; drain_status = drain_stopped })
          (deregistering k ∷ [])
  deregister :
      {k : StopFrom} → Move a (deregistering k) (record a { registered = false }) (draining k ∷ [])
  dead_letter :
      {k : StopFrom} {c : Context} {rest : List Context}
      → a.mail.waiting ≡ c ∷ rest
      → Move a
          (draining k)
          (record a { mail = with_waiting a.mail rest; dead = a.dead ++ (c ∷ []) })
          (draining k ∷ [])
  drained : {k : StopFrom} → a.mail.waiting ≡ [] → Move a (draining k) a (after_stop k ∷ [])

pub record System : Type 0 where
  pub actor : Actor
  pub threads : List Pc

-- One goroutine moves; or someone sends a message, or asks for a stop, and is about to schedule.
-- A message that the mailbox refuses goes to a dead letter and changes nothing here.
pub data Step (s : System) : System → Type 0 where
  move :
      {p : Pc} {b : Actor} {ps : List Pc} (xs ys : List Pc)
      → s.threads ≡ xs ++ (p ∷ ys)
      → Move s.actor p b ps
      → Step s (record { actor = b; threads = xs ++ (ps ++ ys) })
  send :
      (c : Context) {q : Queue Context}
      → Queue.offer s.actor.mail c ≡ (q, push_ok)
      → Step s (record {
        actor = record (s.actor) { mail = q; accepted = s.actor.accepted ++ (c ∷ []) };
        threads = scheduling ∷ s.threads;
      })
  ask_stop : Step s (record {
    actor = record (s.actor) { stop_requested = true };
    threads = scheduling ∷ s.threads;
  })

-- from the moment at which the spawner calls `init`
pub data Reach (limit : ℕ) : System → Type 0 where
  spawned : Reach limit (record { actor = new_actor limit; threads = scheduling ∷ [] })
  later : {s t : System} → Reach limit s → Step s t → Reach limit t
