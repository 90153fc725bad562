-- ===== src/Timer/Moves.antt =====
-- The steps of one goroutine of a timer, and of the timer.
use grain.Base.{◌+◌, true, false, List, [], ◌∷◌, ◌++◌, ◌≡◌, ◌≢◌}
use grain.Timer.{
  state_init, state_ready, state_done, Timer, Pc, assigning, storing, spinning, testing, calling,
  running, retesting, resetting, swapping, stopping, after_func, start_timer,
}

-- `Move s p t ps`: a goroutine at `p` takes the timer from `s` to `t` and goes on at `ps`.
pub data Move (s : Timer) : Pc → Timer → List Pc → Type 0 where
  assign : Move s assigning (record s { assigned = true }) (storing ∷ [])
  store_ready : Move s storing (record s { state = state_ready }) []
  -- the callback
  spin : s.state ≡ state_init → Move s spinning s (spinning ∷ [])
  leave_loop : s.state ≢ state_init → Move s spinning s (testing ∷ [])
  is_done : s.state ≡ state_done → Move s testing s []
  not_done : s.state ≢ state_done → Move s testing s (calling ∷ [])
  call : Move s calling (record s { runs = s.runs + 1 }) (running ∷ [])
  return : Move s running s (retesting ∷ [])
  done_since : s.state ≡ state_done → Move s retesting s []
  go_on : s.state ≢ state_done → Move s retesting s (resetting ∷ [])
  reset : Move s resetting (record s { armed = true }) []
  -- the cancel function
  swap : s.state ≢ state_done → Move s swapping (record s { state = state_done }) (stopping ∷ [])
  swap_again : s.state ≡ state_done → Move s swapping s []
  stop : Move s stopping (record s { armed = false }) []

pub record System : Type 0 where
  pub timer : Timer
  pub threads : List Pc

-- A goroutine moves; the time.Timer fires; or someone who got the cancel function calls it, which
-- `startTimer` returns after its store.
pub data Step (s : System) : System → Type 0 where
  move :
      {p : Pc} {t : Timer} {ps : List Pc} (xs ys : List Pc)
      → s.threads ≡ xs ++ (p ∷ ys)
      → Move s.timer p t ps
      → Step s (record { timer = t; threads = xs ++ (ps ++ ys) })
  fire :
      s.timer.armed ≡ true
      → Step s
          (record { timer = record (s.timer) { armed = false }; threads = spinning ∷ s.threads })
  cancel :
      s.timer.state ≢ state_init
      → Step s (record { timer = s.timer; threads = swapping ∷ s.threads })

pub data Reach : System → Type 0 where
  fresh : Reach (record { timer = after_func; threads = start_timer })
  later : {s t : System} → Reach s → Step s t → Reach t

-- any number of steps
pub data Later (s : System) : System → Type 0 where
  here : Later s s
  onward : {t u : System} → Later s t → Step t u → Later s u
