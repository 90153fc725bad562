-- ===== src/Scheduler/Handled.antt =====
-- What was popped is handled, or is with the one goroutine that is about to handle it.
use grain.Base.{
  ℕ, ◌+◌, ◌≤◌, List, [], ◌∷◌, ◌++◌, ◌≡◌, refl, sym, ap, subst, true, false, ◌∙◌, length,
  append_assoc, append-nil, arith,
}
use grain.Scheduler.{
  Actor, idle_stop, failed_start, failed_start_exit, DrainStatus, drain_idle, drain_running,
  drain_stopped, Context, initialize, poison, ordinary, Pc, got, counted, dispatching,
}
use grain.Scheduler.Moves.{
  Move, count_off, drained, pop_some, begin_start, start_again, poisoned, receive, System, move,
  send, ask_stop, Reach, spawned, later,
}
use grain.Scheduler.Inv.{workers, weight, tally}
use grain.Scheduler.Keep.{tally-append}
use grain.Scheduler.Reachable.{Inv, Reach-Inv}

-- the message that a goroutine has popped and not yet handled
abbrev pub carries : Pc → List Context
carries (got c) = c ∷ []
carries (counted c) = c ∷ []
carries (dispatching c) = c ∷ []
carries _ = []

abbrev pub carried : List Pc → List Context
carried [] = []
carried (p ∷ ps) = carries p ++ carried ps

carried-append : (xs ys : List Pc) → carried (xs ++ ys) ≡ carried xs ++ carried ys
carried-append [] ys = refl
carried-append (x ∷ xs) ys =
    ap (λ l. carries x ++ l) (carried-append xs ys)
    ∙ sym (append_assoc (carries x) (carried xs) (carried ys))

carries-workers :
    (p : Pc) (cs : List Context) → length (carries p ++ cs) ≤ weight workers p + length cs
carries-workers p cs = ground arith

carried-workers : (ts : List Pc) → length (carried ts) ≤ tally workers ts
carried-workers [] = omega arith
carried-workers (p ∷ ts) = omega (arith, carries-workers p (carried ts), carried-workers ts)

-- at most one goroutine drains
one_worker : (s : System) → Inv s → tally workers s.threads ≤ 1
one_worker s v = by_status s.actor.drain_status refl
  where
    by_status : (d : DrainStatus) → s.actor.drain_status ≡ d → tally workers s.threads ≤ 1
    by_status drain_idle e = omega (arith, v.roles.role_idle e)
    by_status drain_running e = omega (arith, v.roles.role_running e)
    by_status drain_stopped e = let (none, _) = v.roles.role_stopped e in omega (arith, none)

pub carried_one : {limit : ℕ} {s : System} → Reach limit s → length (carried s.threads) ≤ 1
carried_one {s = s} r = omega (arith, carried-workers s.threads, one_worker s (Reach-Inv r))

-- What a move does: nothing here; or a worker pops a message; or it handles the one it has.
data Change (a b : Actor) (p : Pc) (ps : List Pc) : Type 0 where
  same : b.popped ≡ a.popped → b.handled ≡ a.handled → carried ps ≡ carries p → Change a b p ps
  takes :
      (c : Context)
      → weight workers p ≡ 1
      → b.popped ≡ a.popped ++ (c ∷ [])
      → b.handled ≡ a.handled
      → carries p ≡ []
      → carried ps ≡ c ∷ []
      → Change a b p ps
  handles :
      (c : Context)
      → weight workers p ≡ 1
      → b.popped ≡ a.popped
      → b.handled ≡ a.handled ++ (c ∷ [])
      → carries p ≡ c ∷ []
      → carried ps ≡ []
      → Change a b p ps

change : {a b : Actor} {p : Pc} {ps : List Pc} → Move a p b ps → Change a b p ps
change (pop_some {c} h) = takes c refl refl refl refl refl
change (begin_start h) = handles initialize refl refl refl refl refl
change (start_again h) = handles initialize refl refl refl refl refl
change poisoned = handles poison refl refl refl refl refl
change (receive {n}) = handles (ordinary n) refl refl refl refl refl
change (count_off {exits = true}) = same refl refl refl
change (count_off {exits = false}) = same refl refl refl
change (drained {k = idle_stop} h) = same refl refl refl
change (drained {k = failed_start} h) = same refl refl refl
change (drained {k = failed_start_exit} h) = same refl refl refl
change mv = same refl refl refl

-- Nobody carries a message beside a worker.
alone :
    (xs ys : List Pc) (p : Pc)
    → weight workers p ≡ 1
    → tally workers (xs ++ (p ∷ ys)) ≤ 1
    → (carried xs ≡ []) × (carried ys ≡ [])
alone xs ys p w one =
    let sum = tally-append workers xs (p ∷ ys) in
    (
      empty (carried xs) (omega (arith, w, one, sum, carried-workers xs)),
      empty (carried ys) (omega (arith, w, one, sum, carried-workers ys)),
    )
  where
    empty : (cs : List Context) → length cs ≤ 0 → cs ≡ []
    empty [] h = refl
    empty (c ∷ cs) h = absurd (omega (arith, h))

abbrev pub AllHandled : Actor → List Pc → Type 0
AllHandled a ts = a.popped ≡ a.handled ++ carried ts

keeps :
    {a b : Actor} {p : Pc} {ps : List Pc} (xs ys : List Pc)
    → Change a b p ps
    → tally workers (xs ++ (p ∷ ys)) ≤ 1
    → AllHandled a (xs ++ (p ∷ ys))
    → AllHandled b (xs ++ (ps ++ ys))
keeps {a} {b} {p} {ps} xs ys (same e f g) one h =
    let was = carried-append xs (p ∷ ys) in
    let now = carried-append xs (ps ++ ys) ∙ ap (λ l. carried xs ++ l) (carried-append ps ys) in
    e
    ∙ h
    ∙ ap (λ l. a.handled ++ l) was
    ∙ ap (λ l. a.handled ++ (carried xs ++ (l ++ carried ys))) (sym g)
    ∙ ap (λ l. a.handled ++ l) (sym now)
    ∙ ap (λ l. l ++ carried (xs ++ (ps ++ ys))) (sym f)
keeps {a} {b} {p} {ps} xs ys (takes c w e f g k) one h =
    let (left', right') = alone xs ys p w one in
    let was : carried (xs ++ (p ∷ ys)) ≡ [] =
      carried-append xs (p ∷ ys) ∙ rw (left', g, right') refl in
    let now : carried (xs ++ (ps ++ ys)) ≡ c ∷ [] =
      carried-append xs (ps ++ ys)
      ∙ ap (λ l. carried xs ++ l) (carried-append ps ys)
      ∙ rw (left', k, right') refl in
    e
    ∙ ap (λ l. l ++ (c ∷ [])) (h ∙ ap (λ l. a.handled ++ l) was ∙ append-nil a.handled)
    ∙ sym (rw (f, now) refl)
keeps {a} {b} {p} {ps} xs ys (handles c w e f g k) one h =
    let (left', right') = alone xs ys p w one in
    let was : carried (xs ++ (p ∷ ys)) ≡ c ∷ [] =
      carried-append xs (p ∷ ys) ∙ rw (left', g, right') refl in
    let now : carried (xs ++ (ps ++ ys)) ≡ [] =
      carried-append xs (ps ++ ys)
      ∙ ap (λ l. carried xs ++ l) (carried-append ps ys)
      ∙ rw (left', k, right') refl in
    e
    ∙ h
    ∙ ap (λ l. a.handled ++ l) was
    ∙ sym f
    ∙ sym (ap (λ l. b.handled ++ l) now ∙ append-nil b.handled)

pub Reach-AllHandled : {limit : ℕ} {s : System} → Reach limit s → AllHandled s.actor s.threads
Reach-AllHandled spawned = refl
Reach-AllHandled (later {s = s} r (move {p} {b} {ps} xs ys e mv)) =
    keeps xs ys (change mv) (subst (λ ts. tally workers ts ≤ 1) e (one_worker s (Reach-Inv r)))
      (subst (AllHandled s.actor) e (Reach-AllHandled r))
Reach-AllHandled (later r (send c e)) = Reach-AllHandled r
Reach-AllHandled (later r ask_stop) = Reach-AllHandled r
