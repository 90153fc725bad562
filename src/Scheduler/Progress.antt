-- ===== src/Scheduler/Progress.antt =====
-- The actor never deadlocks on its own: a goroutine that is left can always move, the permit never
-- being lost, where an open Ask is taken to be answered or to time out.
use grain.Base.{
  ℕ, ◌-◌, ◌<◌, Bool, true, false, List, [], ◌∷◌, ◌++◌, ◌≡◌, refl, ap, ◌≢◌, ◌⊎◌, inl, inr,
  Bool-cases, ℕ_discrete, arith,
}
use grain.Scheduler.{
  Actor, Context, initialize, poison, ordinary, DrainStatus, drain_idle, drain_running,
  drain_stopped, ActorLifecycle, actor_initializing, actor_started, actor_stopping, actor_stopped,
  Pc, scheduling, loop_top, popping, testing_stop, testing_unfinished, entering_stop,
  checking_status, checking_len, checking_unfinished, got, counted, dispatching, poisoning,
  receiving, handed, awaiting, registering, starting, closing, pre_stopping, unregistering, sealing,
  deregistering, draining, leaving_stop, leaving, left, last_left, finishing, rechecking_len,
  rechecking_stop, rechecking_unfinished,
}
use grain.Scheduler.Moves.{Move, System, Reach}
use grain.Scheduler.Inv.{holders, weight, tally}
use grain.Scheduler.Reachable.{Reach-Inv}

DrainStatus-discrete : Discrete DrainStatus
DrainStatus-discrete = hlevel

ActorLifecycle-discrete : Discrete ActorLifecycle
ActorLifecycle-discrete = hlevel

mail_cases :
    (cs : List Context) → (cs ≡ []) ⊎ ((c : Context) × (rest : List Context) × (cs ≡ c ∷ rest))
mail_cases [] = inl refl
mail_cases (c ∷ rest) = inr (c, rest, refl)

-- what a goroutine at `p` can do next
abbrev pub CanMove : Actor → Pc → Type 0
CanMove a p = (b : Actor) × (ps : List Pc) × Move a p b ps

-- the goroutine waits for the permit
abbrev pub waits_for_permit : Pc → Bool
waits_for_permit entering_stop = true
waits_for_permit (counted _) = true
waits_for_permit awaiting = true
waits_for_permit _ = false

module _ (a : Actor) where
  mail_ne : {c : Context} {rest : List Context} → a.mail.waiting ≡ c ∷ rest → a.mail.waiting ≢ []
  mail_ne e n = cc

  -- With the permit at hand every goroutine can move.
  move_of_permit : (p : Pc) → (waits_for_permit p ≡ true → a.permit ≡ true) → CanMove a p
  move_of_permit scheduling h = elim (DrainStatus-discrete a.drain_status drain_idle) [
    | yes e ↦ (_, _, Move.schedule_won e)
    | no n ↦ (_, _, Move.schedule_lost n)
  ]
  move_of_permit loop_top h = elim (DrainStatus-discrete a.drain_status drain_stopped) [
    | yes e ↦ (_, _, Move.loop_ends e)
    | no n ↦ (_, _, Move.loop_goes_on n)
  ]
  move_of_permit popping h = elim (mail_cases a.mail.waiting) [
    | inl e ↦ (_, _, Move.pop_none e)
    | inr (c, rest, e) ↦ (_, _, Move.pop_some e)
  ]
  move_of_permit testing_stop h = elim (Bool-cases a.stop_requested) [
    | inl e ↦ (_, _, Move.asked e)
    | inr e ↦ (_, _, Move.not_asked e)
  ]
  move_of_permit testing_unfinished h = elim (ℕ_discrete a.unfinished_calls 0) [
    | yes e ↦ (_, _, Move.calls_done e)
    | no n ↦ (_, _, Move.calls_open n)
  ]
  move_of_permit entering_stop h = (_, _, Move.enter_stop (h refl))
  move_of_permit checking_status h = elim (DrainStatus-discrete a.drain_status drain_stopped) [
    | yes e ↦ (_, _, Move.already_stopped e)
    | no n ↦ (_, _, Move.not_stopped n)
  ]
  move_of_permit checking_len h = elim (mail_cases a.mail.waiting) [
    | inl e ↦ (_, _, Move.no_mail e)
    | inr (c, rest, e) ↦ (_, _, Move.mail_came (mail_ne e))
  ]
  move_of_permit checking_unfinished h = elim (ℕ_discrete a.unfinished_calls 0) [
    | no n ↦ (_, _, Move.call_came n)
    | yes z ↦ elim (ActorLifecycle-discrete a.lifecycle_state actor_started) [
      | yes e ↦ (_, _, Move.stop_started z e)
      | no n ↦ elim (ActorLifecycle-discrete a.lifecycle_state actor_stopped) [
        | yes e ↦ (_, _, Move.stop_again z (inl e))
        | no m ↦ elim (ActorLifecycle-discrete a.lifecycle_state actor_stopping) [
          | yes e ↦ (_, _, Move.stop_again z (inr e))
          | no l ↦ (_, _, Move.stop_not_started z n m l)
        ]
      ]
    ]
  ]
  move_of_permit (got c) h = (_, _, Move.count)
  move_of_permit (counted c) h = (_, _, Move.enter (h refl))
  move_of_permit (dispatching initialize) h =
      elim (ActorLifecycle-discrete a.lifecycle_state actor_initializing) [
        | yes e ↦ (_, _, Move.begin_start e)
        | no n ↦ (_, _, Move.start_again n)
      ]
  move_of_permit (dispatching poison) h = (_, _, Move.poisoned)
  move_of_permit (dispatching (ordinary n)) h = (_, _, Move.receive)
  move_of_permit poisoning h = elim (DrainStatus-discrete a.drain_status drain_idle) [
    | yes e ↦ (_, _, Move.poison_won e)
    | no n ↦ (_, _, Move.poison_lost n)
  ]
  move_of_permit (receiving t) h = (_, _, Move.return)
  move_of_permit handed h = (_, _, Move.release)
  move_of_permit awaiting h = (_, _, Move.resume (h refl))
  move_of_permit registering h = (_, _, Move.register_none)
  move_of_permit starting h = (_, _, Move.start_ok)
  move_of_permit (closing k true) h = (_, _, Move.close_then_pre_stop)
  move_of_permit (closing k false) h = (_, _, Move.close_only)
  move_of_permit (pre_stopping k) h = (_, _, Move.pre_stop)
  move_of_permit (unregistering k) h = (_, _, Move.unregister)
  move_of_permit (sealing k) h = (_, _, Move.seal)
  move_of_permit (deregistering k) h = (_, _, Move.deregister)
  move_of_permit (draining k) h = elim (mail_cases a.mail.waiting) [
    | inl e ↦ (_, _, Move.drained e)
    | inr (c, rest, e) ↦ (_, _, Move.dead_letter e)
  ]
  move_of_permit leaving_stop h = (_, _, Move.leave_stop)
  move_of_permit (leaving t x) h = (_, _, Move.leave)
  move_of_permit (left false x) h = (_, _, Move.count_off)
  move_of_permit (left true x) h = elim (ℕ_discrete (a.unfinished_calls - 1) 0) [
    | yes e ↦ (_, _, Move.count_off_last e)
    | no n ↦ (_, _, Move.count_off_transferred n)
  ]
  move_of_permit last_left h = elim (Bool-cases a.stop_requested) [
    | inl e ↦ (_, _, Move.wake_stop e)
    | inr e ↦ (_, _, Move.no_stop e)
  ]
  move_of_permit finishing h = elim (DrainStatus-discrete a.drain_status drain_running) [
    | yes e ↦ (_, _, Move.park e)
    | no n ↦ (_, _, Move.parked n)
  ]
  move_of_permit rechecking_len h = elim (mail_cases a.mail.waiting) [
    | inl e ↦ (_, _, Move.len_zero e)
    | inr (c, rest, e) ↦ (_, _, Move.len_found (mail_ne e))
  ]
  move_of_permit rechecking_stop h = elim (Bool-cases a.stop_requested) [
    | inl e ↦ (_, _, Move.stop_found e)
    | inr e ↦ (_, _, Move.stop_absent e)
  ]
  move_of_permit rechecking_unfinished h = elim (ℕ_discrete a.unfinished_calls 0) [
    | yes e ↦ (_, _, Move.ready_found e)
    | no n ↦ (_, _, Move.ready_absent n)
  ]

-- a goroutine that holds the permit, if one does
holder_at :
    (ts : List Pc)
    → 0 < tally holders ts
    → (xs : List Pc) × (p : Pc) × (ys : List Pc) × (ts ≡ xs ++ (p ∷ ys)) × (0 < weight holders p)
holder_at [] h = absurd (omega arith)
holder_at (p ∷ ts) h = elim (ℕ_discrete (weight holders p) 0) [
  | no n ↦ ([], p, ts, refl, omega arith)
  | yes z ↦
      let (xs, q, ys, e, held) = holder_at ts (omega arith) in
      (p ∷ xs, q, ys, ap (λ l. p ∷ l) e, held)
]

holder_not_waiting : (p : Pc) → 0 < weight holders p → waits_for_permit p ≡ false
holder_not_waiting entering_stop h = absurd (omega arith)
holder_not_waiting (dispatching c) h = refl
holder_not_waiting (counted c) h = absurd (omega arith)
holder_not_waiting p h = ground arith

-- In every reachable state with a goroutine left, some goroutine can move.
pub no_deadlock :
    {limit : ℕ} {s : System}
    → Reach limit s
    → (p : Pc) (ts : List Pc) → s.threads ≡ p ∷ ts
    → (xs : List Pc) × (q : Pc) × (ys : List Pc) × (s.threads ≡ xs ++ (q ∷ ys)) × CanMove s.actor q
no_deadlock {s = s} r p ts e = elim (Bool-cases s.actor.permit) [
  | inl free ↦ ([], p, ts, e, move_of_permit s.actor p (λ _. free))
  | inr taken ↦
      let (xs, q, ys, at, held) =
        holder_at s.threads (ground (arith, (Reach-Inv r).roles.one_permit)) in
      let not_waiting = holder_not_waiting q held in
      (xs, q, ys, at, move_of_permit s.actor q (λ w. cc (not_waiting, w)))
]
