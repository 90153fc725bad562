-- ===== src/Spawn/Unique.antt =====
-- One process to an id, none built in vain, and no slot left behind.
use grain.Base.{
  ℕ, ◌≤◌, ◌≡◌, refl, inl, inr, Option, none, some, List, [], ◌∷◌, ◌++◌, length, Option-cases, arith,
}
use grain.Spawn.{Spawn, Pc, registering}
use grain.Spawn.Moves.{System, Reach}
use grain.Spawn.Inv.{Group, users_of, builders_of, publishers, weight, tally, occurs, is_process}
use grain.Spawn.Keep.{tally-append}
use grain.Spawn.Reachable.{Reach-Inv}

occurs-two :
    (p q : ℕ) (rest : List ℕ) (r : Option ℕ)
    → occurs p (p ∷ q ∷ rest) ≤ is_process p r
    → ¬ (occurs q (p ∷ q ∷ rest) ≤ is_process q r)
occurs-two p q rest none h g = ground arith
occurs-two p q rest (some r) h g = ground arith

at_most_one :
    (running : List ℕ) (r : Option ℕ)
    → ((q : ℕ) → occurs q running ≤ is_process q r)
    → length running ≤ 1
at_most_one [] r h = omega arith
at_most_one (p ∷ []) r h = omega arith
at_most_one (p ∷ q ∷ rest) r h = absurd (occurs-two p q rest r (h p) (h q))

-- However the goroutines interleave that spawn under one id, on demand or under a new name, and the
-- processes that stop and are removed, before their `init` as well, at most one process of that id may
-- run: from its registration, after which any send can start it, until it stops.
pub one_process_runs : {x : System} → Reach x → length x.spawner.running ≤ 1
one_process_runs {x} r =
    at_most_one x.spawner.running x.spawner.registered
      (λ q. omega (arith, (Reach-Inv r).processes q))

tally-here : (w : Group) (xs ys : List Pc) (p : Pc) → weight w p ≤ tally w (xs ++ (p ∷ ys))
tally-here w xs ys p = omega (arith, tally-append w xs (p ∷ ys))

-- No process is built in vain: a spawn that is about to register the process it built finds the id
-- free, so a duplicate is refused before its producer runs.
pub built-registers :
    {x : System} (k : Spawn) (a p : ℕ) (xs ys : List Pc)
    → Reach x
    → x.threads ≡ xs ++ (registering k a p ∷ ys)
    → x.spawner.registered ≡ none
built-registers {x} k a p xs ys r e =
    ((Reach-Inv r).slots a).building_absent
      (rw e (grind (arith, tally-here (builders_of a) xs ys (registering k a p))))

-- Once no goroutine is left, `init` was called for every process that was built, and the map of
-- creation slots is empty.
pub spawns_settle :
    {x : System}
    → Reach x
    → x.threads ≡ []
    → (x.spawner.built ≡ x.spawner.started) × (x.spawner.active ≡ none)
spawns_settle {x} r e =
    let v = Reach-Inv r in
    let quiet : (w : Group) → tally w x.threads ≡ 0 = λ w. rw e refl in
    (
      omega (arith, v.counts, quiet publishers),
      elim (Option-cases x.spawner.active) [
        | inl n ↦ n
        | inr (a, h) ↦ absurd (omega (arith, (v.slots a).active_used h, quiet (users_of a)))
      ],
    )
