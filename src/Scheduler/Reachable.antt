-- ===== src/Scheduler/Reachable.antt =====
-- The invariant holds at the start and is kept by every step of the system.
use grain.Base.{
  ℕ, ◌+◌, true, false, List, [], ◌∷◌, ◌++◌, ◌≡◌, refl, sym, ap, ◌∙◌, subst, fun_ext, append_assoc,
  arith,
}
use grain.Queue
use grain.Queue.{Queue}
use grain.Ring.{push_ok}
use grain.Scheduler.{Actor, Context, Pc, scheduling, new_actor}
use grain.Scheduler.Moves.{Move, System, Step, move, send, ask_stop, Reach, spawned, later}
use grain.Scheduler.Inv.{Group, tally, first_is_initialize, Roles, Wakeups, Phases, History}
use grain.Scheduler.Keep.{
  Nested, before, after, Move-Roles, Move-Wakeups, Move-Phases, Move-History, tally_nested,
  tally-append,
}

abbrev pub count_of : System → Group → ℕ
count_of s w = tally w s.threads

-- Together the invariant of a system.
pub record Inv (s : System) : Type 0 where
  pub roles : Roles s.actor (count_of s)
  pub wakeups : Wakeups s.actor (count_of s)
  pub phases : Phases s.actor (count_of s)
  pub history : History s.actor (count_of s)

-- The goroutines but the one that moves.
abbrev rest_of : List Pc → List Pc → Group → ℕ
rest_of xs ys w = tally w xs + tally w ys

nested_rest : (xs ys : List Pc) → Nested (rest_of xs ys)
nested_rest xs ys = let n = tally_nested xs in let m = tally_nested ys in omega arith

split_before :
    (xs ys : List Pc) (p : Pc)
    → ◌≡◌ {A = Group → ℕ}
        (λ w. tally w (xs ++ (p ∷ ys)))
        (before (rest_of xs ys) (nested_rest xs ys) p)
split_before xs ys p = fun_ext (λ w. omega (arith, tally-append w xs (p ∷ ys)))

split_after :
    (xs ys ps : List Pc)
    → ◌≡◌ {A = Group → ℕ}
        (λ w. tally w (xs ++ (ps ++ ys)))
        (after (rest_of xs ys) (nested_rest xs ys) ps)
split_after xs ys ps =
    fun_ext (λ w. omega (arith, tally-append w xs (ps ++ ys), tally-append w ps ys))

Inv-move :
    {a b : Actor} {p : Pc} {ps : List Pc} (xs ys ts : List Pc)
    → ts ≡ xs ++ (p ∷ ys)
    → Move a p b ps
    → Inv (record { actor = a; threads = ts })
    → Inv (record { actor = b; threads = xs ++ (ps ++ ys) })
Inv-move {a} {b} {p} {ps} xs ys ts e mv v =
    let g = rest_of xs ys in
    let n = nested_rest xs ys in
    let here : ◌≡◌ {A = Group → ℕ} (λ w. tally w ts) (before g n p) =
      ap (λ us. λ w. tally w us) e ∙ split_before xs ys p in
    let r = subst (Roles a) here v.roles in
    let k = subst (Wakeups a) here v.wakeups in
    let f = subst (Phases a) here v.phases in
    let h = subst (History a) here v.history in
    let there = sym (split_after xs ys ps) in
    record {
      roles = subst (Roles b) there (Move-Roles g n mv r);
      wakeups = subst (Wakeups b) there (Move-Wakeups g n mv r k);
      phases = subst (Phases b) there (Move-Phases g n mv r f);
      history = subst (History b) there (Move-History g n mv r f h);
    }

Inv-spawned : (limit : ℕ) → Inv (record { actor = new_actor limit; threads = scheduling ∷ [] })
Inv-spawned limit = record {
  roles = ground arith;
  wakeups = ground arith;
  phases = ground arith;
  history = ground arith;
}

offer-eq-ok :
    (q : Queue Context) (c : Context) {q' : Queue Context}
    → Queue.offer q c ≡ (q', push_ok)
    → (q.closed ≡ false) × (q' ≡ record q { waiting = q.waiting ++ (c ∷ []) })
unfolding Queue.offer
offer-eq-ok q c e = ground arith

first-append :
    (cs : List Context) (c : Context)
    → first_is_initialize cs ≡ true
    → first_is_initialize (cs ++ (c ∷ [])) ≡ true
first-append [] c h = cc
first-append (Context.initialize ∷ cs) c h = refl
first-append (Context.poison ∷ cs) c h = cc
first-append (Context.ordinary n ∷ cs) c h = cc

-- A message that comes in, or a request to stop, beside a goroutine that will schedule.
Inv-send :
    (a : Actor) (ts : List Pc) (c : Context) {q : Queue Context}
    → Queue.offer a.mail c ≡ (q, push_ok)
    → Inv (record { actor = a; threads = ts })
    → Inv (record {
      actor = record a { mail = q; accepted = a.accepted ++ (c ∷ []) };
      threads = scheduling ∷ ts;
    })
Inv-send a ts c {q} e v =
    let (opened, grown) = offer-eq-ok a.mail c e in
    let first = first-append a.mail.waiting c in
    record {
      roles = ground arith;
      wakeups = ground arith;
      phases = ground (arith, first-append a.mail.waiting c);
      history = ground (
        arith,
        append_assoc a.popped (a.dead ++ a.mail.waiting) (c ∷ []),
        append_assoc a.dead a.mail.waiting (c ∷ []),
      );
    }

Inv-ask_stop :
    (a : Actor) (ts : List Pc)
    → Inv (record { actor = a; threads = ts })
    → Inv (record { actor = record a { stop_requested = true }; threads = scheduling ∷ ts })
Inv-ask_stop a ts v = record {
  roles = ground arith;
  wakeups = ground arith;
  phases = ground arith;
  history = ground arith;
}

Step-Inv : {s t : System} → Step s t → Inv s → Inv t
Step-Inv {s} (move xs ys e mv) v = Inv-move xs ys s.threads e mv v
Step-Inv {s} (send c e) v = Inv-send s.actor s.threads c e v
Step-Inv {s} ask_stop v = Inv-ask_stop s.actor s.threads v

pub Reach-Inv : {limit : ℕ} {s : System} → Reach limit s → Inv s
Reach-Inv {limit} spawned = Inv-spawned limit
Reach-Inv (later r st) = Step-Inv st (Reach-Inv r)
