-- ===== src/Scheduler/Keep.antt =====
-- Every move keeps the invariant, whatever the other goroutines are.
use grain.Base.{ℕ, ◌+◌, ◌≤◌, List, [], ◌∷◌, ◌++◌, ◌≡◌, append_assoc, arith}
use grain.Scheduler.{Actor, Context, initialize, poison, ordinary, Pc, got, counted, dispatching}
use grain.Scheduler.Moves.{
  Move, schedule_won, pop_some, begin_start, start_again, poisoned, receive, dead_letter,
}
use grain.Scheduler.Guards.{guard}
use grain.Scheduler.Inv.{
  Group, callers, workers, trailers, enders, users, idle_stoppers, carriers, bearers, starters,
  stoppers, closers, pre_stoppers, listed, late, weight, tally, ordinaries, Roles, Wakeups, Phases,
  History,
}

-- How the groups lie in one another.
pub record Nested (n : Group → ℕ) : Type 0 where
  pub users_in : n users ≤ n callers
  pub starters_in : n starters ≤ n workers
  pub stoppers_in : n stoppers ≤ n workers
  pub closers_in : n closers ≤ n stoppers
  pub pre_stoppers_in : n pre_stoppers ≤ n stoppers
  pub carriers_in : n carriers ≤ n workers
  pub bearers_in : n bearers ≤ n workers
  pub late_in : n late ≤ n workers
  pub idle_stoppers_in : n idle_stoppers ≤ n workers + n trailers
  pub enders_in : n enders ≤ n trailers
  pub listed_in : n listed ≤ n enders

ordinaries-append :
    (cs : List Context) (c : Context)
    → ordinaries (cs ++ (c ∷ [])) ≡ ordinaries cs + ordinaries (c ∷ [])
ordinaries-append [] c = omega arith
ordinaries-append (initialize ∷ cs) c = ordinaries-append cs c
ordinaries-append (poison ∷ cs) c = ordinaries-append cs c
ordinaries-append (ordinary n ∷ cs) c = omega (arith, ordinaries-append cs c)

module _ (g : Group → ℕ) (nested : Nested g) where
  abbrev pub before : Pc → Group → ℕ
  before p w = g w + weight w p

  abbrev pub after : List Pc → Group → ℕ
  after ps w = g w + tally w ps

  pub Move-Roles :
      {a b : Actor} {p : Pc} {ps : List Pc}
      → Move a p b ps
      → Roles a (before p)
      → Roles b (after ps)
  Move-Roles (schedule_won h) r = ground arith
  Move-Roles mv r = ground (arith, guard mv)

  pub Move-Wakeups :
      {a b : Actor} {p : Pc} {ps : List Pc}
      → Move a p b ps
      → Roles a (before p)
      → Wakeups a (before p)
      → Wakeups b (after ps)
  Move-Wakeups (schedule_won h) r w = ground arith
  Move-Wakeups mv r w = ground (arith, guard mv)

  pub Move-Phases :
      {a b : Actor} {p : Pc} {ps : List Pc}
      → Move a p b ps
      → Roles a (before p)
      → Phases a (before p)
      → Phases b (after ps)
  Move-Phases (schedule_won h) r f = ground arith
  Move-Phases mv r f = ground (arith, guard mv)

  pub Move-History :
      {a b : Actor} {p : Pc} {ps : List Pc}
      → Move a p b ps
      → Roles a (before p)
      → Phases a (before p)
      → History a (before p)
      → History b (after ps)
  Move-History (schedule_won h) r f y = ground arith
  Move-History {a} (pop_some {c} {rest} h) r f y =
      ground (arith, append_assoc a.popped (c ∷ []) rest)
  Move-History {a} (dead_letter {c} {rest} h) r f y =
      ground (arith, append_assoc a.dead (c ∷ []) rest)
  Move-History {a} (begin_start h) r f y = ground (arith, h, ordinaries-append a.handled initialize)
  Move-History {a} (start_again h) r f y = ground (arith, h, ordinaries-append a.handled initialize)
  Move-History {a} poisoned r f y = ground (arith, ordinaries-append a.handled poison)
  Move-History {a} (receive {n}) r f y = ground (arith, ordinaries-append a.handled (ordinary n))
  Move-History mv r f y = ground (arith, guard mv)

-- The nesting, goroutine by goroutine and then in sum.
weight_nested : (p : Pc) → Nested (λ w. weight w p)
weight_nested (got initialize) = omega arith
weight_nested (got poison) = omega arith
weight_nested (got (ordinary n)) = omega arith
weight_nested (counted initialize) = omega arith
weight_nested (counted poison) = omega arith
weight_nested (counted (ordinary n)) = omega arith
weight_nested (dispatching initialize) = omega arith
weight_nested (dispatching poison) = omega arith
weight_nested (dispatching (ordinary n)) = omega arith
weight_nested p = ground arith

pub tally_nested : (ps : List Pc) → Nested (λ w. tally w ps)
tally_nested [] = omega arith
tally_nested (p ∷ ps) = let n = weight_nested p in let m = tally_nested ps in omega arith

pub tally-append : (w : Group) (xs ys : List Pc) → tally w (xs ++ ys) ≡ tally w xs + tally w ys
tally-append w [] ys = omega arith
tally-append w (x ∷ xs) ys = omega (arith, tally-append w xs ys)
