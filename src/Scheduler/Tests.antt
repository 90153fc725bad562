-- ===== src/Scheduler/Tests.antt =====
-- Runs of one actor, and the theorems at states that they reach.
use grain.Base.{
  ◌+◌, leb, ℕ, true, false, List, [], ◌∷◌, ◌++◌, ◌≡◌, refl, ◌≢◌, ◌⊎◌, ◌≤◌, ◌<◌, length,
}
use grain.Queue
use grain.Scheduler.{
  Actor, Context, ordinary, actor_stopped, Pc, loop_top, scheduling, receiving, awaiting,
  pre_stopping, idle_stop, new_actor, drain_idle, drain_running, drain_stopped,
}
use grain.Scheduler.Moves.{
  Move, System, with_waiting, move, send, ask_stop, Reach, spawned, later, schedule_won,
  schedule_lost, loop_goes_on, pop_some, pop_none, count, enter, begin_start, register_none,
  start_ok, leave, count_off, receive, hand_over, release, resume, not_asked, park, len_zero,
  stop_absent, asked, calls_done, enter_stop, not_stopped, no_mail, stop_started,
  close_then_pre_stop, pre_stop, unregister, seal, deregister, drained, leave_stop, parked,
}
use grain.Scheduler.Exclusion.{runs_user_code, user_code_exclusive}
use grain.Scheduler.Delivery.{quiet_done, accepted_accounted, runs_once}
use grain.Scheduler.Handled.{carried}
use grain.Scheduler.Inv.{users, ordinaries, tally}
use grain.Scheduler.Progress.{CanMove, no_deadlock}

-- the first goroutine of the list moves
front :
    {limit : ℕ} {a b : Actor} {p : Pc} {ps ts : List Pc}
    → Reach limit (record { actor = a; threads = p ∷ ts })
    → Move a p b ps
    → Reach limit (record { actor = b; threads = ps ++ ts })
front {ts = ts} r mv = later r (move [] ts refl mv)

-- the second one moves
second :
    {limit : ℕ} {a b : Actor} {o p : Pc} {ps ts : List Pc}
    → Reach limit (record { actor = a; threads = o ∷ p ∷ ts })
    → Move a p b ps
    → Reach limit (record { actor = b; threads = o ∷ (ps ++ ts) })
second {o = o} {ts = ts} r mv = later r (move (o ∷ []) ts refl mv)

running_not_idle : drain_running ≢ drain_idle
running_not_idle e = cc

running_not_stopped : drain_running ≢ drain_stopped
running_not_stopped e = cc

stopped_not_running : drain_stopped ≢ drain_running
stopped_not_running e = cc

abbrev Run : Type 0
Run = (s : System) × Reach 8 s

-- the actor has started, and its drainer looks for the next message
abbrev started : Run
started =
    let r0 : Reach 8 (record { actor = new_actor 8; threads = scheduling ∷ [] }) = spawned in
    let r1 = front r0 (schedule_won refl) in
    let r2 = front r1 (loop_goes_on running_not_stopped) in
    let r3 = front r2 (pop_some refl) in
    let r4 = front r3 count in
    let r5 = front r4 (enter refl) in
    let r6 = front r5 (begin_start refl) in
    let r7 = front r6 register_none in
    let r8 = front r7 start_ok in
    let r9 = front r8 leave in let r10 = front r9 count_off in (_, r10)

started_looks : started.0.threads ≡ loop_top ∷ []
started_looks = refl

-- a message that the mailbox has room for
arrive :
    {limit : ℕ} {a : Actor} {ts : List Pc} (c : Context)
    → a.mail.closed ≡ false
    → leb a.mail.limit (length a.mail.waiting) ≡ false
    → Reach limit (record { actor = a; threads = ts })
    → Reach limit (record {
      actor = record a {
        mail = with_waiting a.mail (a.mail.waiting ++ (c ∷ []));
        accepted = a.accepted ++ (c ∷ []);
      };
      threads = scheduling ∷ ts;
    })
unfolding Queue.offer
arrive c opened room r = later r (send c (rw (opened, room)))

-- It handles a message, and its handler waits in an Ask while its successor drains.
abbrev asking : Run
asking =
    let r1 = arrive (ordinary 7) refl refl started.1 in
    let r2 = front r1 (schedule_lost running_not_idle) in
    let r3 = front r2 (loop_goes_on running_not_stopped) in
    let r4 = front r3 (pop_some refl) in
    let r5 = front r4 count in
    let r6 = front r5 (enter refl) in
    let r7 = front r6 receive in let r8 = front r7 hand_over in let r9 = front r8 release in (_, r9)

-- The reply is there before the successor has moved.
abbrev resumed : Run
resumed = (_, front asking.1 (resume refl))

-- The successor finds nothing to do, and parks.
abbrev quiet : Run
quiet =
    let r1 = second asking.1 (loop_goes_on running_not_stopped) in
    let r2 = second r1 (pop_none refl) in
    let r3 = second r2 (not_asked refl) in
    let r4 = second r3 (park refl) in
    let r5 = second r4 (len_zero refl) in let r6 = second r5 (stop_absent refl) in (_, r6)

-- A started actor with nothing to do is asked to stop, and runs its `PreStop`.
abbrev pre_stops : Run
pre_stops =
    let r1 : Reach 8 (record {
      actor = record (started.0.actor) { stop_requested = true };
      threads = scheduling ∷ started.0.threads;
    }) =
      later started.1 ask_stop in
    let r2 = front r1 (schedule_lost running_not_idle) in
    let r3 = front r2 (loop_goes_on running_not_stopped) in
    let r4 = front r3 (pop_none refl) in
    let r5 = front r4 (asked refl) in
    let r6 = front r5 (calls_done refl) in
    let r7 = front r6 (enter_stop refl) in
    let r8 = front r7 (not_stopped running_not_stopped) in
    let r9 = front r8 (no_mail refl) in
    let r10 = front r9 (stop_started refl refl) in
    let r11 = front r10 close_then_pre_stop in (_, r11)

-- It stops for good; nobody is left.
abbrev stopped : Run
stopped =
    let r1 = front pre_stops.1 pre_stop in
    let r2 = front r1 unregister in
    let r3 = front r2 seal in
    let r4 = front r3 deregister in
    let r5 = front r4 (drained refl) in
    let r6 = front r5 leave_stop in let r7 = front r6 (parked stopped_not_running) in (_, r7)

runs_look :
    (asking.0.threads ≡ awaiting ∷ loop_top ∷ [])
    × (quiet.0.threads ≡ awaiting ∷ [])
    × (pre_stops.0.threads ≡ pre_stopping idle_stop ∷ [])
    × (stopped.0.threads ≡ [])
    × (stopped.0.actor.pre_stop_runs ≡ 1)
runs_look = (refl, refl, refl, refl, refl)

user_code_exclusive_example : ¬ (runs_user_code loop_top ≡ true)
user_code_exclusive_example =
    user_code_exclusive resumed.1 [] [] [] (receiving true) loop_top refl refl

quiet_done_example :
    (stopped.0.actor.mail.waiting ≡ [])
    × ((stopped.0.actor.stop_requested ≡ false)
        ⊎ ((0 < length stopped.0.threads)
            ⊎ ((stopped.0.actor.lifecycle_state ≡ actor_stopped)
                × (stopped.0.actor.registered ≡ false))))
quiet_done_example = quiet_done stopped.1 tt

accepted_accounted_example :
    (quiet.0.actor.accepted
      ≡ quiet.0.actor.handled
        ++ (carried quiet.0.threads ++ (quiet.0.actor.dead ++ quiet.0.actor.mail.waiting)))
    × (length (carried quiet.0.threads) ≤ 1)
    × (ordinaries quiet.0.actor.handled ≡ quiet.0.actor.receive_ends + tally users quiet.0.threads)
    × ((quiet.0.actor.dead ≡ [])
        ⊎ ((quiet.0.actor.lifecycle_state ≡ actor_stopped) × (quiet.0.actor.mail.closed ≡ true)))
accepted_accounted_example = accepted_accounted quiet.1

runs_once_example :
    (stopped.0.actor.started_calls ≤ 1)
    × (stopped.0.actor.started_runs ≤ stopped.0.actor.started_calls)
    × (stopped.0.actor.pre_stop_runs ≤ stopped.0.actor.started_runs)
    × ((stopped.0.actor.lifecycle_state ≢ actor_stopped)
        ⊎ (stopped.0.actor.pre_stop_runs ≡ stopped.0.actor.started_runs))
runs_once_example = runs_once stopped.1

no_deadlock_example :
    (xs : List Pc) × (q : Pc) × (ys : List Pc) × (asking.0.threads ≡ xs ++ (q ∷ ys))
    × CanMove asking.0.actor q
no_deadlock_example = no_deadlock asking.1 awaiting (loop_top ∷ []) refl
