-- ===== src/Timer/Inv.antt =====
-- What holds of a timer between two steps.
use grain.Base.{
  ℕ, ◌+◌, ◌≤◌, ◌<◌, Bool, true, false, List, ◌∷◌, ◌++◌, ◌≡◌, ◌≢◌, sym, ap, ◌∙◌, subst, arith,
}
use grain.Base.Tally.{count_of, rest_of, before, after, split_before, split_after}
use grain.Timer.{
  TimerState, state_init, state_done, Timer, Pc, assigning, storing, spinning, testing, calling,
  running, retesting, resetting, swapping, stopping,
}
use grain.Timer.Moves.{
  Move, spin, leave_loop, is_done, not_done, done_since, go_on, swap, swap_again, System, Step,
  move, fire, cancel, Reach, fresh, later,
}

-- The groups of goroutines that the invariant counts.
pub data Group : Type 0 where
  assigners storers waiters callers active swappers stoppers : Group

abbrev pub weight : Group → Pc → ℕ
weight assigners assigning = 1
weight storers storing = 1
weight waiters spinning = 1
weight callers calling = 1
weight active testing = 1
weight active running = 1
weight active retesting = 1
weight active resetting = 1
weight swappers swapping = 1
weight stoppers stopping = 1
weight _ _ = 0

abbrev pub bit : Bool → ℕ
bit true = 1
bit false = 0

abbrev pub is_init : TimerState → ℕ
is_init state_init = 1
is_init _ = 0

-- `startTimer` runs until the state is left; before that nothing but the loop does; there is one
-- callback or one to come at most, and one until the timer is cancelled; only a swap leads to `Stop`.
pub record Inv (s : Timer) (g : Group → ℕ) : Type 0 where
  pub assigned_after : g assigners + bit s.assigned ≡ 1
  pub starts : g assigners + g storers ≡ is_init s.state
  pub waits : s.state ≡ state_init → g callers + g active + g swappers + g stoppers ≡ 0
  pub stops : 0 < g stoppers → s.state ≡ state_done
  pub alone : g waiters + g callers + g active + bit s.armed ≤ 1
  pub ticks : s.state ≢ state_done → g waiters + g callers + g active + bit s.armed ≡ 1

abbrev Guard : {s t : Timer} {p : Pc} {ps : List Pc} → Move s p t ps → Type 0
Guard {s} (spin _) = s.state ≡ state_init
Guard {s} (leave_loop _) = s.state ≢ state_init
Guard {s} (is_done _) = s.state ≡ state_done
Guard {s} (not_done _) = s.state ≢ state_done
Guard {s} (done_since _) = s.state ≡ state_done
Guard {s} (go_on _) = s.state ≢ state_done
Guard {s} (swap _) = s.state ≢ state_done
Guard {s} (swap_again _) = s.state ≡ state_done
Guard _ = Unit

guard : {s t : Timer} {p : Pc} {ps : List Pc} (mv : Move s p t ps) → Guard mv
guard (spin h) = h
guard (leave_loop h) = h
guard (is_done h) = h
guard (not_done h) = h
guard (done_since h) = h
guard (go_on h) = h
guard (swap h) = h
guard (swap_again h) = h
guard _ = tt

Move-Inv :
    (g : Group → ℕ) {s t : Timer} {p : Pc} {ps : List Pc}
    → Move s p t ps
    → Inv s (before weight g p)
    → Inv t (after weight g ps)
Move-Inv g (spin h) v = ground (arith, h, v)
Move-Inv g mv v = ground (arith, guard mv, v)

Inv-move :
    {s t : Timer} {p : Pc} {ps : List Pc} (xs ys ts : List Pc)
    → ts ≡ xs ++ (p ∷ ys)
    → Move s p t ps
    → Inv s (count_of weight ts)
    → Inv t (count_of weight (xs ++ (ps ++ ys)))
Inv-move {s} {t} {p} {ps} xs ys ts e mv v = subst (Inv t) (sym (split_after weight xs ys ps)) (
    Move-Inv (rest_of weight xs ys) mv
      (subst (Inv s) (ap (count_of weight) e ∙ split_before weight xs ys p) v))

Inv-fire :
    (s : Timer) (ts : List Pc)
    → s.armed ≡ true
    → Inv s (count_of weight ts)
    → Inv (record s { armed = false }) (count_of weight (spinning ∷ ts))
Inv-fire s ts h v = ground (arith, h, v)

Inv-cancel :
    (s : Timer) (ts : List Pc)
    → s.state ≢ state_init
    → Inv s (count_of weight ts)
    → Inv s (count_of weight (swapping ∷ ts))
Inv-cancel s ts h v = ground (arith, h, v)

Step-Inv :
    {x y : System}
    → Step x y
    → Inv x.timer (count_of weight x.threads)
    → Inv y.timer (count_of weight y.threads)
Step-Inv {x} (move xs ys e mv) v = Inv-move xs ys x.threads e mv v
Step-Inv {x} (fire h) v = Inv-fire x.timer x.threads h v
Step-Inv {x} (cancel h) v = Inv-cancel x.timer x.threads h v

pub Reach-Inv : {x : System} → Reach x → Inv x.timer (count_of weight x.threads)
Reach-Inv fresh = ground arith
Reach-Inv (later r st) = Step-Inv st (Reach-Inv r)

-- A run that begins is one of a callback that has passed its test, and no callback passes it once the
-- timer is done.
pub record Bounded (s : Timer) (g : Group → ℕ) (limit : ℕ) : Type 0 where
  pub done : s.state ≡ state_done
  pub no_storer : g assigners + g storers ≡ 0
  pub few : s.runs + g callers ≤ limit

Move-Bounded :
    (g : Group → ℕ) {s t : Timer} {p : Pc} {ps : List Pc} (limit : ℕ)
    → Move s p t ps
    → Bounded s (before weight g p) limit
    → Bounded t (after weight g ps) limit
Move-Bounded g limit (spin h) v = ground (arith, h, v)
Move-Bounded g limit mv v = ground (arith, guard mv, v)

pub Step-Bounded :
    {x y : System} (limit : ℕ)
    → Step x y
    → Bounded x.timer (count_of weight x.threads) limit
    → Bounded y.timer (count_of weight y.threads) limit
Step-Bounded {x} limit (move {p = p} {t = t} {ps = ps} xs ys e mv) v =
    subst (λ g. Bounded t g limit) (sym (split_after weight xs ys ps))
      (Move-Bounded (rest_of weight xs ys) limit mv (
        subst (λ g. Bounded x.timer g limit) (ap (count_of weight) e ∙ split_before weight xs ys p)
          v))
Step-Bounded {x} limit (fire h) v = ground (arith, v)
Step-Bounded {x} limit (cancel h) v = ground (arith, v)
