-- ===== src/Scheduler/Exclusion.antt =====
-- One goroutine at a time: who may run the user's code, who drains, and in which phase.
use grain.Base.{
  ℕ, ◌+◌, ◌≤◌, Bool, true, false, List, ◌∷◌, ◌++◌, ◌≡◌, refl, inl, inr, Bool-cases, arith,
}
use grain.Scheduler.{
  actor_started, StopFrom, Pc, scheduling, receiving, handed, awaiting, starting, pre_stopping,
  leaving, left, last_left, rechecking_len, rechecking_stop, rechecking_unfinished,
}
use grain.Scheduler.Moves.{System, Reach}
use grain.Scheduler.Inv.{Group, holders, workers, trailers, users, stoppers, weight, tally}
use grain.Scheduler.Keep.{tally-append}
use grain.Scheduler.Reachable.{Reach-Inv}

-- `Receive`, `Started` or `PreStop` of the actor is on this goroutine's stack and running.
abbrev pub runs_user_code : Pc → Bool
runs_user_code (receiving _) = true
runs_user_code starting = true
runs_user_code (pre_stopping _) = true
runs_user_code _ = false

-- A call of `Receive` has begun and has not returned: it runs, or it waits in an Ask.
abbrev pub in_receive : Pc → Bool
in_receive (receiving _) = true
in_receive handed = true
in_receive awaiting = true
in_receive _ = false

-- The goroutine is in `drain`, or in what `drain` calls, and has not handed the draining over.
abbrev pub drains : Pc → Bool
drains scheduling = false
drains (receiving true) = false
drains handed = false
drains awaiting = false
drains (leaving true _) = false
drains (left true _) = false
drains last_left = false
drains rechecking_len = false
drains rechecking_stop = false
drains rechecking_unfinished = false
drains _ = true

pub tally-at :
    (w : Group) (xs ys : List Pc) (p : Pc) (ts : List Pc)
    → ts ≡ xs ++ (p ∷ ys)
    → weight w p ≤ tally w ts
tally-at w xs ys p ts e = rw e (omega (arith, tally-append w xs (p ∷ ys)))

tally-at_two :
    (w : Group) (xs ys zs : List Pc) (p q : Pc) (ts : List Pc)
    → ts ≡ xs ++ (p ∷ (ys ++ (q ∷ zs)))
    → weight w p + weight w q ≤ tally w ts
tally-at_two w xs ys zs p q ts e =
    rw e (omega (arith, tally-append w xs (p ∷ (ys ++ (q ∷ zs))), tally-append w ys (q ∷ zs)))

user_code_holds : (p : Pc) → runs_user_code p ≡ true → weight holders p ≡ 1
user_code_holds (receiving t) h = refl
user_code_holds p h = ground arith

drains_counted : (p : Pc) → drains p ≡ true → weight workers p + weight trailers p ≡ 1
drains_counted scheduling h = cc
drains_counted p h = ground arith

in_receive_counted : (p : Pc) → in_receive p ≡ true → weight users p ≡ 1
in_receive_counted (receiving t) h = refl
in_receive_counted p h = ground arith

module _ {limit : ℕ} {s : System} (r : Reach limit s) where
  -- The actor is single-threaded: no two goroutines are in its user code at once.
  pub user_code_exclusive :
      (xs ys zs : List Pc) (p q : Pc)
      → s.threads ≡ xs ++ (p ∷ (ys ++ (q ∷ zs)))
      → runs_user_code p ≡ true
      → ¬ (runs_user_code q ≡ true)
  user_code_exclusive xs ys zs p q e hp hq = omega (
    arith,
    (Reach-Inv r).roles.one_permit,
    tally-at_two holders xs ys zs p q s.threads e,
    user_code_holds p hp,
    user_code_holds q hq,
  )

  -- No two goroutines drain the mailbox at once, handovers by Ask included.
  pub drainer_unique :
      (xs ys zs : List Pc) (p q : Pc)
      → s.threads ≡ xs ++ (p ∷ (ys ++ (q ∷ zs)))
      → drains p ≡ true
      → ¬ (drains q ≡ true)
  drainer_unique xs ys zs p q e hp hq =
      let v = (Reach-Inv r).roles in
      ground (
        arith,
        tally-at_two workers xs ys zs p q s.threads e,
        tally-at_two trailers xs ys zs p q s.threads e,
        drains_counted p hp,
        drains_counted q hq,
      )

  -- While a call of `Receive` is open, `Started` has returned once, `PreStop` has not run, and the
  -- lifecycle is in its started phase.
  pub receive_after_started :
      (xs ys : List Pc) (p : Pc)
      → s.threads ≡ xs ++ (p ∷ ys)
      → in_receive p ≡ true
      → (s.actor.lifecycle_state ≡ actor_started)
        × (s.actor.started_runs ≡ 1)
        × (s.actor.pre_stop_runs ≡ 0)
  receive_after_started xs ys p e h =
      let v = Reach-Inv r in
      let phase =
        v.phases.users_started
          (omega (arith, tally-at users xs ys p s.threads e, in_receive_counted p h)) in
      let (_, returned, stopped) = v.history.started_run phase in (phase, returned, stopped)

  -- While `PreStop` runs no call of `Receive` is open, not even one that waits in an Ask.
  pub pre_stop_alone :
      (xs ys : List Pc) (k : StopFrom)
      → s.threads ≡ xs ++ (pre_stopping k ∷ ys)
      → (us vs : List Pc) (q : Pc) → s.threads ≡ us ++ (q ∷ vs)
      → in_receive q ≡ false
  pre_stop_alone xs ys k e us vs q f = elim (Bool-cases (in_receive q)) [
    | inr no' ↦ no'
    | inl open' ↦
        let stopping =
          (Reach-Inv r).phases.stoppers_stopping
            (omega (arith, tally-at stoppers xs ys (pre_stopping k) s.threads e)) in
        cc (stopping, (receive_after_started us vs q f open').0)
  ]
