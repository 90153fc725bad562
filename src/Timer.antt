-- ===== src/Timer.antt =====
-- schedule.go, the timer of a repeated delivery: `startTimer`, the callbacks of its time.Timer and its
-- cancel function. What the timer calls, `fn`, is a send, which returns.
pub mod Moves
pub mod Inv
pub mod Ticks
mod Tests
use grain.Base.{ℕ, Bool, true, false, List, [], ◌∷◌}

-- `stateInit`, `stateReady`, `stateDone`
pub data TimerState : Type 0 where
  state_init state_ready state_done : TimerState

-- the variables of one call of `startTimer`: whether `t` is assigned, whether the time.Timer is to
-- fire, `state`, and how often `fn` was called
pub record Timer : Type 0 where
  pub assigned : Bool
  pub armed : Bool
  pub state : TimerState
  pub runs : ℕ

-- where a goroutine is
pub data Pc : Type 0 where
  -- `startTimer`, before the assignment to `t` and before the store of `stateReady`
  assigning storing : Pc
  -- the callback: its loop, its test, before the call of `fn`, in it, its second test, before `Reset`
  spinning testing calling running retesting resetting : Pc
  -- the cancel function: before its swap, and before `Stop`
  swapping stopping : Pc

-- `time.AfterFunc(delay, ...)`, before its result is assigned
abbrev pub after_func : Timer
after_func = record { assigned = false; armed = true; state = state_init; runs = 0 }

abbrev pub start_timer : List Pc
start_timer = assigning ∷ []
