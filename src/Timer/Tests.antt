-- ===== src/Timer/Tests.antt =====
-- A timer that fires, and is cancelled while its callback is between its test and its call.
use grain.Base.{◌+◌, ◌≤◌, ◌≡◌, ◌≢◌, refl, [], ◌∷◌, ◌++◌, List}
use grain.Base.Tally.{tally}
use grain.Timer.{Timer, state_init, state_ready, state_done, Pc, calling}
use grain.Timer.Moves.{
  Move, assign, store_ready, leave_loop, not_done, call, return, done_since, go_on, reset, swap,
  stop, System, move, fire, cancel, Reach, fresh, later, Later, here, onward,
}
use grain.Timer.Inv.{callers, weight}
use grain.Timer.Ticks.{cancel_ends}

-- the first goroutine of the list moves
front :
    {s t : Timer} {p : Pc} {ps ts : List Pc}
    → Reach (record { timer = s; threads = p ∷ ts })
    → Move s p t ps
    → Reach (record { timer = t; threads = ps ++ ts })
front {ts = ts} r mv = later r (move [] ts refl mv)

ready_init : state_ready ≢ state_init
ready_init e = cc

ready_done : state_ready ≢ state_done
ready_done e = cc

abbrev Run : Type 0
Run = (x : System) × Reach x

abbrev started : Run
started = let r0 = front fresh assign in let r1 = front r0 store_ready in (_, r1)

-- One call, and the timer is armed again.
abbrev ticked : Run
ticked =
    let r0 = later started.1 (fire refl) in
    let r1 = front r0 (leave_loop ready_init) in
    let r2 = front r1 (not_done ready_done) in
    let r3 = front r2 call in
    let r4 = front r3 return in
    let r5 = front r4 (go_on ready_done) in let r6 = front r5 reset in (_, r6)

-- The second callback has passed its test when the timer is cancelled.
abbrev caught : Run
caught =
    let r0 = later ticked.1 (fire refl) in
    let r1 = front r0 (leave_loop ready_init) in
    let r2 = front r1 (not_done ready_done) in
    let r3 = later r2 (cancel ready_init) in let r4 = front r3 (swap ready_done) in (_, r4)

-- The call is made after all, and then there is nothing left.
abbrev ended : (y : System) × Later caught.0 y
ended =
    let l0 = onward here (move [] (calling ∷ []) refl stop) in
    let l1 = onward l0 (move [] [] refl call) in
    let l2 = onward l1 (move [] [] refl return) in
    let l3 = onward l2 (move [] [] refl (done_since refl)) in (_, l3)

cancel_ends_example :
    (ended.0.timer.runs ≤ caught.0.timer.runs + tally weight callers caught.0.threads)
    × (tally weight callers caught.0.threads ≤ 1)
cancel_ends_example = cancel_ends caught.1 refl ended.1

one_more : (caught.0.timer.runs ≡ 1) × (ended.0.timer.runs ≡ 2) × (ended.0.threads ≡ [])
one_more = (refl, refl, refl)
