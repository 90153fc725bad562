-- ===== src/Scheduler/Inv.antt =====
-- What holds of an actor between two steps: a record of facts about its shared state and about how
-- many goroutines stand where.
use grain.Base.{ℕ, ◌+◌, ◌≤◌, ◌<◌, Bool, true, false, List, [], ◌∷◌, ◌++◌, ◌≡◌, ◌≢◌, ◌⊎◌}
use grain.Scheduler.{
  Actor, Context, initialize, poison, ordinary, drain_idle, drain_running, drain_stopped,
  actor_initializing, actor_starting, actor_started, actor_stopping, actor_stopped, StopFrom,
  idle_stop, Pc, scheduling, loop_top, popping, testing_stop, testing_unfinished, entering_stop,
  checking_status, checking_len, checking_unfinished, got, counted, dispatching, poisoning,
  receiving, handed, awaiting, registering, starting, closing, pre_stopping, unregistering, sealing,
  deregistering, draining, leaving_stop, leaving, left, last_left, finishing, rechecking_len,
  rechecking_stop, rechecking_unfinished,
}

-- The groups of goroutines that the invariant counts.
pub data Group : Type 0 where
  holders  -- has the execution permit
        callers  -- counted by `unfinishedCalls`
        workers  -- drains a mailbox that is not stopped
        trailers  -- drains, and may find the mailbox stopped
        enders  -- past the store of `drainStopped`, in `stop`
        mail_wakers  -- will schedule if there is mail
        stop_wakers  -- will schedule if the actor is ready to stop
        users  -- in `Receive` or in an Ask made from it
        idle_stoppers  -- in a `stop` called by `stopIfIdle`
        carriers  -- has popped the first Initialize or a later one
        bearers  -- has popped another message
        starters  -- in `start`
        stoppers  -- in `stop`, before it marks the actor stopped
        closers  -- there, after it closed the mailbox
        pre_stoppers  -- there, with `PreStop` to be run
        listed  -- past the store of `drainStopped`, not yet out of the registry
        late  -- has found the mailbox empty
      : Group

abbrev pub in_idle_stop : StopFrom → ℕ
in_idle_stop idle_stop = 1
in_idle_stop _ = 0

abbrev pub weight : Group → Pc → ℕ
weight holders (dispatching _) = 1
weight holders poisoning = 1
weight holders (receiving _) = 1
weight holders handed = 1
weight holders registering = 1
weight holders starting = 1
weight holders (closing _ _) = 1
weight holders (pre_stopping _) = 1
weight holders (unregistering _) = 1
weight holders (sealing _) = 1
weight holders (deregistering _) = 1
weight holders (draining _) = 1
weight holders checking_status = 1
weight holders checking_len = 1
weight holders checking_unfinished = 1
weight holders leaving_stop = 1
weight holders (leaving _ _) = 1
weight callers (counted _) = 1
weight callers (dispatching _) = 1
weight callers poisoning = 1
weight callers (receiving _) = 1
weight callers handed = 1
weight callers awaiting = 1
weight callers registering = 1
weight callers starting = 1
weight callers (closing idle_stop _) = 0
weight callers (closing _ _) = 1
weight callers (pre_stopping idle_stop) = 0
weight callers (pre_stopping _) = 1
weight callers (unregistering idle_stop) = 0
weight callers (unregistering _) = 1
weight callers (sealing idle_stop) = 0
weight callers (sealing _) = 1
weight callers (deregistering idle_stop) = 0
weight callers (deregistering _) = 1
weight callers (draining idle_stop) = 0
weight callers (draining _) = 1
weight callers (leaving _ _) = 1
weight callers (left _ _) = 1
weight workers popping = 1
weight workers testing_stop = 1
weight workers testing_unfinished = 1
weight workers entering_stop = 1
weight workers checking_status = 1
weight workers checking_len = 1
weight workers checking_unfinished = 1
weight workers (got _) = 1
weight workers (counted _) = 1
weight workers (dispatching _) = 1
weight workers poisoning = 1
weight workers (receiving false) = 1
weight workers registering = 1
weight workers starting = 1
weight workers (closing _ _) = 1
weight workers (pre_stopping _) = 1
weight workers (unregistering _) = 1
weight workers (sealing _) = 1
weight trailers loop_top = 1
weight trailers (leaving false _) = 1
weight trailers (left false _) = 1
weight trailers finishing = 1
weight trailers leaving_stop = 1
weight trailers (deregistering _) = 1
weight trailers (draining _) = 1
weight enders (deregistering _) = 1
weight enders (draining _) = 1
weight mail_wakers scheduling = 1
weight mail_wakers rechecking_len = 1
weight stop_wakers scheduling = 1
weight stop_wakers rechecking_len = 1
weight stop_wakers rechecking_stop = 1
weight stop_wakers rechecking_unfinished = 1
weight stop_wakers last_left = 1
weight users (receiving _) = 1
weight users handed = 1
weight users awaiting = 1
weight idle_stoppers (closing k _) = in_idle_stop k
weight idle_stoppers (pre_stopping k) = in_idle_stop k
weight idle_stoppers (unregistering k) = in_idle_stop k
weight idle_stoppers (sealing k) = in_idle_stop k
weight idle_stoppers (deregistering k) = in_idle_stop k
weight idle_stoppers (draining k) = in_idle_stop k
weight carriers (got initialize) = 1
weight carriers (counted initialize) = 1
weight carriers (dispatching initialize) = 1
weight bearers (got poison) = 1
weight bearers (got (ordinary _)) = 1
weight bearers (counted poison) = 1
weight bearers (counted (ordinary _)) = 1
weight bearers (dispatching poison) = 1
weight bearers (dispatching (ordinary _)) = 1
weight starters registering = 1
weight starters starting = 1
weight stoppers (closing _ _) = 1
weight stoppers (pre_stopping _) = 1
weight stoppers (unregistering _) = 1
weight stoppers (sealing _) = 1
weight closers (pre_stopping _) = 1
weight closers (unregistering _) = 1
weight closers (sealing _) = 1
weight pre_stoppers (closing _ true) = 1
weight pre_stoppers (pre_stopping _) = 1
weight listed (deregistering _) = 1
weight late testing_stop = 1
weight late testing_unfinished = 1
weight late entering_stop = 1
weight late checking_status = 1
weight late checking_len = 1
weight late checking_unfinished = 1
weight _ _ = 0

abbrev pub tally : Group → List Pc → ℕ
tally w [] = 0
tally w (p ∷ ps) = weight w p + tally w ps

abbrev pub bit : Bool → ℕ
bit true = 1
bit false = 0

abbrev pub first_is_initialize : List Context → Bool
first_is_initialize (initialize ∷ rest) = true
first_is_initialize _ = false

-- Who may be where: the permit, the count of calls, the drain role.
pub record Roles (a : Actor) (n : Group → ℕ) : Type 0 where
  pub one_permit : n holders + bit a.permit ≡ 1
  pub calls_counted : a.unfinished_calls ≡ n callers
  pub role_running : a.drain_status ≡ drain_running → n workers + n trailers ≡ 1
  pub role_idle : a.drain_status ≡ drain_idle → n workers + n trailers ≡ 0
  pub role_stopped : a.drain_status ≡ drain_stopped → (n workers ≡ 0) × (n trailers ≤ 1)
  pub end_stopped : 0 < n enders → a.drain_status ≡ drain_stopped
  pub idle_stop_quiet : 0 < n idle_stoppers → a.unfinished_calls ≡ 0

-- Work that a parked mailbox has is about to be noticed.
pub record Wakeups (a : Actor) (n : Group → ℕ) : Type 0 where
  pub mail_noticed : a.drain_status ≡ drain_idle → a.mail.waiting ≢ [] → 0 < n mail_wakers
  pub stop_noticed :
      a.drain_status ≡ drain_idle
      → a.stop_requested ≡ true
      → a.unfinished_calls ≡ 0
      → 0 < n stop_wakers

-- The lifecycle: which phase allows what.
pub record Phases (a : Actor) (n : Group → ℕ) : Type 0 where
  pub users_started : 0 < n users → a.lifecycle_state ≡ actor_started
  pub bearers_started : 0 < n bearers → a.lifecycle_state ≡ actor_started
  pub first_waits :
      a.lifecycle_state ≡ actor_initializing
      → n carriers ≡ 0
      → first_is_initialize a.mail.waiting ≡ true
  pub late_initialized : 0 < n late → a.lifecycle_state ≢ actor_initializing
  pub starting_by : a.lifecycle_state ≡ actor_starting → n starters ≡ 1
  pub starters_starting : 0 < n starters → a.lifecycle_state ≡ actor_starting
  pub stopping_by : a.lifecycle_state ≡ actor_stopping → n stoppers ≡ 1
  pub stoppers_stopping : 0 < n stoppers → a.lifecycle_state ≡ actor_stopping
  pub stopped_sealed : a.lifecycle_state ≡ actor_stopped → a.drain_status ≡ drain_stopped
  pub sealed_stopped : a.drain_status ≡ drain_stopped → a.lifecycle_state ≡ actor_stopped

-- how many go to `Receive`
abbrev pub ordinaries : List Context → ℕ
ordinaries [] = 0
ordinaries (ordinary n ∷ cs) = 1 + ordinaries cs
ordinaries (_ ∷ cs) = ordinaries cs

-- What the history records, and what stays of a stopped actor.
pub record History (a : Actor) (n : Group → ℕ) : Type 0 where
  pub closers_closed : 0 < n closers → a.mail.closed ≡ true
  pub stopped_closed : a.drain_status ≡ drain_stopped → a.mail.closed ≡ true
  pub stopped_empty : a.drain_status ≡ drain_stopped → n enders ≡ 0 → a.mail.waiting ≡ []
  pub in_registry : a.drain_status ≢ drain_stopped → a.registered ≡ true
  pub out_of_registry : a.drain_status ≡ drain_stopped → n listed ≡ 0 → a.registered ≡ false
  pub fresh_runs :
      (a.lifecycle_state ≡ actor_initializing) ⊎ (a.lifecycle_state ≡ actor_starting)
      → (a.started_calls ≡ 0) × (a.started_runs ≡ 0) × (a.pre_stop_runs ≡ 0)
  pub started_run :
      a.lifecycle_state ≡ actor_started
      → (a.started_calls ≡ 1) × (a.started_runs ≡ 1) × (a.pre_stop_runs ≡ 0)
  pub stopped_runs :
      (a.lifecycle_state ≡ actor_stopping) ⊎ (a.lifecycle_state ≡ actor_stopped)
      → (a.started_calls ≤ 1)
        × (a.started_runs ≤ a.started_calls)
        × (n pre_stoppers + a.pre_stop_runs ≡ a.started_runs)
  pub dead_after : a.drain_status ≢ drain_stopped → a.dead ≡ []
  pub receives_counted : ordinaries a.handled ≡ a.receive_ends + n users
  pub in_order : a.accepted ≡ a.popped ++ (a.dead ++ a.mail.waiting)
