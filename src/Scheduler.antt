-- ===== src/Scheduler.antt =====
-- processor_scheduler.go, execution.go, execution_gate.go, processor_lifecycle.go and the sending
-- half of processor_mailbox.go: how the goroutines of one actor share its mailbox.
-- An atomic operation, a channel operation on the permit and a critical section of the mailbox are
-- one step each; steps of different goroutines interleave freely.
pub mod Moves
pub mod Guards
pub mod Inv
pub mod Keep
pub mod Reachable
pub mod Handled
pub mod Exclusion
pub mod Delivery
pub mod Progress
mod Tests
use grain.Base.{ℕ, ◌+◌, Bool, true, false, List, [], ◌∷◌, ◌++◌}
use grain.Queue.{Queue}

pub data DrainStatus : Type 0 where
  drain_idle drain_running drain_stopped : DrainStatus

pub data ActorLifecycle : Type 0 where
  actor_initializing actor_starting actor_started actor_stopping actor_stopped : ActorLifecycle

-- What `execution.invoke` tells apart: an Initialize or a Poison addressed to the actor itself,
-- and every other message, which goes to `Receive`.
pub data Context : Type 0 where
  initialize : Context
  poison : Context
  ordinary : ℕ → Context

-- The shared state of one processorMailBox. The last nine fields are history: what was accepted by
-- the mailbox, popped by a drainer, handled, dead-lettered by a stop (each oldest first), how often
-- `Receive` ended, how often `Started` was called, how often it returned without an error, how often
-- `PreStop` ran, and whether the registry still has the actor. An ordinary message is handled where it
-- enters the user's `Receive`, an Initialize by `start`, and a Poison by the request to stop.
pub record Actor : Type 0 where
  pub mail : Queue Context
  pub drain_status : DrainStatus
  pub unfinished_calls : ℕ
  pub permit : Bool
  pub lifecycle_state : ActorLifecycle
  pub stop_requested : Bool
  pub cluster_registration_owned : Bool
  pub accepted : List Context
  pub popped : List Context
  pub handled : List Context
  pub dead : List Context
  pub receive_ends : ℕ
  pub started_calls : ℕ
  pub started_runs : ℕ
  pub pre_stop_runs : ℕ
  pub registered : Bool

-- Who called `actorLifecycleState.stop`: `stopIfIdle`, or the deferred clean-up of a failed start,
-- which a panic or an error reaches as a return, and a Goexit while it unwinds the goroutine.
pub data StopFrom : Type 0 where
  idle_stop failed_start failed_start_exit : StopFrom

-- Where a goroutine stands; each name says what it does next. A goroutine that is done is no
-- longer in the list. `transferred` is its `drainOwnershipTransferred`.
pub data Pc : Type 0 where
  scheduling : Pc  -- the compare-and-swap of `schedule`, its last action
  loop_top : Pc  -- the loop test of `drain`
  popping : Pc
  testing_stop : Pc  -- `stopReady` in `drain`: first `stopRequested`,
  testing_unfinished : Pc  -- then `unfinishedCalls`
  entering_stop : Pc  -- `stopIfIdle`: takes the permit,
  checking_status : Pc  -- and checks three things under it
  checking_len : Pc
  checking_unfinished : Pc
  got : Context → Pc  -- `invoke`: counts the call,
  counted : Context → Pc  -- takes the permit,
  dispatching : Context → Pc  -- and looks at the message
  poisoning : Pc  -- `poison` by a message, before `schedule`
  receiving : (transferred : Bool) → Pc  -- in the user's `Receive`
  handed : Pc  -- `suspend`: the successor runs, the permit is not yet back
  awaiting : Pc  -- in an Ask: waits for its reply, then for the permit
  registering : Pc  -- `start`: registration in the cluster,
  starting : Pc  -- then the user's `Started`
  closing : StopFrom → (run_pre_stop : Bool) → Pc  -- `stop`: closes the mailbox,
  pre_stopping : StopFrom → Pc  -- runs the user's `PreStop`,
  unregistering : StopFrom → Pc  -- leaves the cluster,
  sealing : StopFrom → Pc  -- marks the actor stopped,
  deregistering : StopFrom → Pc  -- leaves the registry,
  draining : StopFrom → Pc  -- and dead-letters what is left
  leaving_stop : Pc  -- `stopIfIdle`: gives the permit back
  leaving : (transferred goexit : Bool) → Pc  -- `invoke`: gives the permit back,
  left : (transferred goexit : Bool) → Pc  -- and counts the call off
  last_left : Pc  -- a transferred call that counted down to 0: reads `stopRequested`
  finishing : Pc  -- the compare-and-swap of `finishDraining`
  rechecking_len : Pc  -- what follows a won one
  rechecking_stop : Pc
  rechecking_unfinished : Pc

-- the end of `stop`: back to its caller
abbrev pub after_stop : StopFrom → Pc
after_stop idle_stop = leaving_stop
after_stop failed_start = leaving false false
after_stop failed_start_exit = leaving false true

abbrev pub next_of_left : Bool → Pc
next_of_left true = finishing
next_of_left false = loop_top

-- `buildProcessor` has queued Initialize, and the spawner is about to call `schedule`.
abbrev pub new_actor : ℕ → Actor
new_actor limit = record {
  mail = record { waiting = initialize ∷ []; limit = limit; closed = false };
  drain_status = drain_idle;
  unfinished_calls = 0;
  permit = true;
  lifecycle_state = actor_initializing;
  stop_requested = false;
  cluster_registration_owned = false;
  accepted = initialize ∷ [];
  popped = [];
  handled = [];
  dead = [];
  receive_ends = 0;
  started_calls = 0;
  started_runs = 0;
  pre_stop_runs = 0;
  registered = true;
}
