-- ===== src/Scheduler/Delivery.antt =====
-- No message is lost or overtaken, and no wakeup is missed.
use grain.Base.{
  ◌+◌, ℕ, ◌≤◌, ◌<◌, true, false, List, [], ◌∷◌, ◌++◌, ◌≡◌, refl, ap, ◌∙◌, append_assoc, ◌≢◌, ◌⊎◌,
  inl, inr, All, length, Bool-cases, dec_lt, arith,
}
use grain.Scheduler.{
  Actor, Context, DrainStatus, drain_idle, drain_running, drain_stopped, ActorLifecycle,
  actor_initializing, actor_starting, actor_started, actor_stopping, actor_stopped, Pc, awaiting,
}
use grain.Scheduler.Moves.{System, Reach}
use grain.Scheduler.Inv.{
  Group, callers, workers, trailers, enders, mail_wakers, stop_wakers, listed, stoppers,
  pre_stoppers, users, ordinaries, weight, tally, Phases, History,
}
use grain.Scheduler.Keep.{tally_nested}
use grain.Scheduler.Handled.{carried, carried_one, Reach-AllHandled}
use grain.Scheduler.Reachable.{Inv, count_of, Reach-Inv}

-- Nothing is left to run: every goroutine waits for the reply to an Ask.
abbrev pub IsQuiet : List Pc → Type 0
IsQuiet ts = All (λ p. p ≡ awaiting) ts

-- A group that no waiting call belongs to is empty then.
tally_quiet : (w : Group) (ts : List Pc) → weight w awaiting ≡ 0 → IsQuiet ts → tally w ts ≡ 0
tally_quiet w [] h q = refl
tally_quiet w (p ∷ ts) h (e, q) = rw e (omega (arith, tally_quiet w ts h q))

callers_quiet : (ts : List Pc) → IsQuiet ts → tally callers ts ≡ length ts
callers_quiet [] q = refl
callers_quiet (p ∷ ts) (e, q) = rw e (omega (arith, callers_quiet ts q))

list_cases : (cs : List Context) → (cs ≡ []) ⊎ (cs ≢ [])
list_cases [] = inl refl
list_cases (c ∷ cs) = inr (λ e. cc)

status_cases : (d : DrainStatus) → (d ≡ drain_stopped) ⊎ ((d ≡ drain_idle) ⊎ (d ≡ drain_running))
status_cases drain_stopped = inl refl
status_cases drain_idle = inr (inl refl)
status_cases drain_running = inr (inr refl)

phase_cases : (l : ActorLifecycle) → (l ≡ actor_stopped) ⊎ (l ≢ actor_stopped)
phase_cases actor_stopped = inl refl
phase_cases actor_initializing = inr (λ e. cc)
phase_cases actor_starting = inr (λ e. cc)
phase_cases actor_started = inr (λ e. cc)
phase_cases actor_stopping = inr (λ e. cc)

-- A parked mailbox with nothing left to run: no mail, and no stop that is due.
parked_quiet :
    (s : System)
    → Inv s
    → IsQuiet s.threads
    → s.actor.drain_status ≡ drain_idle
    → (s.actor.mail.waiting ≡ []) × ((s.actor.stop_requested ≡ false) ⊎ (0 < length s.threads))
parked_quiet s v q e = (
  elim (list_cases s.actor.mail.waiting) [
    | inl none' ↦ none'
    | inr mail ↦
        absurd
          (omega (arith, v.wakeups.mail_noticed e mail, tally_quiet mail_wakers s.threads refl q))
  ],
  elim (Bool-cases s.actor.stop_requested) [
    | inr no' ↦ inl no'
    | inl asked ↦ elim (dec_lt 0 (length s.threads)) [
      | yes open' ↦ inr open'
      | no none' ↦ absurd (
          omega (
            arith,
            v.roles.calls_counted,
            callers_quiet s.threads q,
            v.wakeups.stop_noticed e asked,
            tally_quiet stop_wakers s.threads refl q,
          ))
    ]
  ],
)

runs_of :
    (a : Actor) (n : Group → ℕ)
    → (n pre_stoppers ≤ n stoppers)
    → Phases a n
    → History a n
    → (a.started_calls ≤ 1)
      × (a.started_runs ≤ a.started_calls)
      × (a.pre_stop_runs ≤ a.started_runs)
      × (a.lifecycle_state ≡ actor_stopped → a.pre_stop_runs ≡ a.started_runs)
runs_of a n h f y = ground arith

module _ {limit : ℕ} {s : System} (r : Reach limit s) where
  -- No lost wakeup. Once every goroutine that is left waits for the reply to an Ask, the mailbox is
  -- empty; and no stop was requested, or an Ask is open, or the actor is stopped and is out of the
  -- registry.
  pub quiet_done :
      IsQuiet s.threads
      → (s.actor.mail.waiting ≡ [])
        × ((s.actor.stop_requested ≡ false)
            ⊎ ((0 < length s.threads)
                ⊎ ((s.actor.lifecycle_state ≡ actor_stopped) × (s.actor.registered ≡ false))))
  quiet_done q =
      let v = Reach-Inv r in
      elim (status_cases s.actor.drain_status) [
        | inl e ↦ (
          v.history.stopped_empty e (tally_quiet enders s.threads refl q),
          inr (
              inr (
                v.phases.sealed_stopped e,
                v.history.out_of_registry e (tally_quiet listed s.threads refl q),
              )),
        )
        | inr (inl e) ↦
            let (no_mail, due) = parked_quiet s v q e in
            (no_mail, elim due [ inl n ↦ inl n | inr o ↦ inr (inl o) ])
        | inr (inr e) ↦ absurd (
            omega (
              arith,
              v.roles.role_running e,
              tally_quiet workers s.threads refl q,
              tally_quiet trailers s.threads refl q,
            ))
      ]

  -- Messages keep the order in which the mailbox accepted them, and none vanishes: each accepted
  -- one was handled, or is with the one goroutine that popped it and is about to handle it, or was
  -- dead-lettered by a stop, or still waits. For each ordinary message that was handled `Receive` was
  -- called: it ended, or runs, or waits in an Ask. Unless the actor is stopped with a closed mailbox,
  -- none was dead-lettered.
  pub accepted_accounted :
      (s.actor.accepted
        ≡ s.actor.handled ++ (carried s.threads ++ (s.actor.dead ++ s.actor.mail.waiting)))
      × (length (carried s.threads) ≤ 1)
      × (ordinaries s.actor.handled ≡ s.actor.receive_ends + tally users s.threads)
      × ((s.actor.dead ≡ [])
          ⊎ ((s.actor.lifecycle_state ≡ actor_stopped) × (s.actor.mail.closed ≡ true)))
  accepted_accounted =
      let v = Reach-Inv r in
      let rest = s.actor.dead ++ s.actor.mail.waiting in
      (
        v.history.in_order
            ∙ ap (λ l. l ++ rest) (Reach-AllHandled r)
            ∙ append_assoc s.actor.handled (carried s.threads) rest,
        carried_one r,
        v.history.receives_counted,
        elim (phase_cases s.actor.lifecycle_state) [
          | inl e ↦ inr (e, v.history.stopped_closed (v.phases.stopped_sealed e))
          | inr n ↦ inl (v.history.dead_after (λ e. n (v.phases.sealed_stopped e)))
        ],
      )

  -- `Started` is called at most once, whether it returns, fails or exits its goroutine. `PreStop` runs
  -- at most once, and only after a `Started` that returned without an error; once the actor is
  -- stopped, it has run if there was one.
  pub runs_once :
      (s.actor.started_calls ≤ 1)
      × (s.actor.started_runs ≤ s.actor.started_calls)
      × (s.actor.pre_stop_runs ≤ s.actor.started_runs)
      × ((s.actor.lifecycle_state ≢ actor_stopped) ⊎ (s.actor.pre_stop_runs ≡ s.actor.started_runs))
  runs_once =
      let v = Reach-Inv r in
      let nested = (tally_nested s.threads).pre_stoppers_in in
      let (once, returned, after', done) = runs_of s.actor (count_of s) nested v.phases v.history in
      (
        once,
        returned,
        after',
        elim (phase_cases s.actor.lifecycle_state) [ inl e ↦ inr (done e) | inr n ↦ inl n ],
      )

  -- `unfinishedCalls` counts the calls in flight: with nothing left to run it is the number of open
  -- Asks.
  pub calls_counted_quiet : IsQuiet s.threads → s.actor.unfinished_calls ≡ length s.threads
  calls_counted_quiet q =
      omega (arith, (Reach-Inv r).roles.calls_counted, callers_quiet s.threads q)
