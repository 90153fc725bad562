-- ===== src/Spawn/Reachable.antt =====
-- The invariant holds at the start and is kept by every step of the system.
use grain.Base.{ℕ, ◌+◌, List, [], ◌∷◌, ◌++◌, ◌≡◌, refl, sym, ap, ◌∙◌, subst, fun_ext, arith}
use grain.Spawn.{Spawner, Pc, reserving, looking, removing}
use grain.Spawn.Moves.{Move, System, Step, move, spawn, look, stop, Reach, fresh, later}
use grain.Spawn.Inv.{Group, weight, tally, occurs, SlotOk, ProcessOk, CountOk}
use grain.Spawn.Keep.{
  Nested, before, after, Move-SlotOk, Move-ProcessOk, Move-CountOk, tally_nested, tally-append,
}

-- the invariant of a system, by the shared state and the number of goroutines in each group
pub record Inv (s : Spawner) (n : Group → ℕ) : Type 0 where
  pub slots : (a : ℕ) → SlotOk s n a
  pub processes : (q : ℕ) → ProcessOk s n q
  pub counts : CountOk s n

abbrev pub count_of : List Pc → Group → ℕ
count_of ts w = tally w ts

abbrev rest_of : List Pc → List Pc → Group → ℕ
rest_of xs ys w = tally w xs + tally w ys

nested_rest : (xs ys : List Pc) (a : ℕ) → Nested (rest_of xs ys) a
nested_rest xs ys a = let n = tally_nested xs a in let m = tally_nested ys a in omega arith

split_before :
    (xs ys : List Pc) (p : Pc)
    → count_of (xs ++ (p ∷ ys)) ≡ before (rest_of xs ys) (nested_rest xs ys) p
split_before xs ys p = fun_ext (λ w. omega (arith, tally-append w xs (p ∷ ys)))

split_after :
    (xs ys ps : List Pc)
    → count_of (xs ++ (ps ++ ys)) ≡ after (rest_of xs ys) (nested_rest xs ys) ps
split_after xs ys ps =
    fun_ext (λ w. omega (arith, tally-append w xs (ps ++ ys), tally-append w ps ys))

Inv-move :
    {s t : Spawner} {p : Pc} {ps : List Pc} (xs ys ts : List Pc)
    → ts ≡ xs ++ (p ∷ ys)
    → Move s p t ps
    → Inv s (count_of ts)
    → Inv t (count_of (xs ++ (ps ++ ys)))
Inv-move {s} {t} {p} {ps} xs ys ts e mv v =
    let g = rest_of xs ys in
    let n = nested_rest xs ys in
    let was : Inv s (before g n p) = subst (Inv s) (ap count_of e ∙ split_before xs ys p) v in
    subst (Inv t) (sym (split_after xs ys ps)) (record {
      slots = Move-SlotOk g n mv was.slots;
      processes = Move-ProcessOk g n mv was.slots was.processes;
      counts = Move-CountOk g n mv was.slots was.counts;
    })

occurs-middle : (q p : ℕ) (xs ys : List ℕ) → occurs q (xs ++ (p ∷ ys)) ≡ occurs q (p ∷ xs ++ ys)
occurs-middle q p [] ys = refl
occurs-middle q p (x ∷ xs) ys = omega (arith, occurs-middle q p xs ys)

Inv-idle :
    (s : Spawner) (ts : List Pc) (p : Pc)
    → ((w : Group) → weight w p ≡ 0)
    → Inv s (count_of ts)
    → Inv s (count_of (p ∷ ts))
Inv-idle s ts p none v = subst (Inv s) (fun_ext (λ w. omega (arith, none w))) v

Inv-stop :
    (s : Spawner) (ts : List Pc) (p : ℕ) (xs ys : List ℕ)
    → s.running ≡ xs ++ (p ∷ ys)
    → Inv s (count_of ts)
    → Inv (record s { running = xs ++ ys }) (count_of (removing p ∷ ts))
Inv-stop s ts p xs ys e v = record {
  slots = λ a. ground (arith, v.slots a);
  processes = λ q.
      let before : occurs q s.running ≡ occurs q (p ∷ xs ++ ys) =
        ap (occurs q) e ∙ occurs-middle q p xs ys in
      omega (arith, v.processes q, before);
  counts = ground (arith, v.counts);
}

Step-Inv :
    {x y : System}
    → Step x y
    → Inv x.spawner (count_of x.threads)
    → Inv y.spawner (count_of y.threads)
Step-Inv {x} (move xs ys e mv) v = Inv-move xs ys x.threads e mv v
Step-Inv {x} (spawn k) v = Inv-idle x.spawner x.threads (reserving k) (λ w. ground arith) v
Step-Inv {x} look v = Inv-idle x.spawner x.threads looking (λ w. ground arith) v
Step-Inv {x} (stop {p} xs ys e) v = Inv-stop x.spawner x.threads p xs ys e v

pub Reach-Inv : {x : System} → Reach x → Inv x.spawner (count_of x.threads)
Reach-Inv fresh = record {
  slots = λ a. ground arith;
  processes = λ q. ground arith;
  counts = ground arith;
}
Reach-Inv (later r st) = Step-Inv st (Reach-Inv r)
