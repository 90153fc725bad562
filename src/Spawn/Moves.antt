-- ===== src/Spawn/Moves.antt =====
-- The steps of one goroutine that spawns or removes, and of the system of them.
use grain.Base.{ℕ, ◌+◌, ◌-◌, true, false, none, some, List, [], ◌∷◌, ◌++◌, ◌≡◌, ◌≢◌}
use grain.Spawn.{
  Spawn, get_or_spawn, process, panicked, Spawner, Pc, looking, reserving, waiting, rechecking,
  building, registering, starting, unlocking, releasing, removing, put, answer_found, new_spawner,
}

-- `Move s p t ps`: a goroutine at `p` takes the state from `s` to `t` and goes on at `ps`.
pub data Move (s : Spawner) : Pc → Spawner → List Pc → Type 0 where
  -- getOrSpawnProcessor, before the lock
  hit : {p : ℕ} → s.registered ≡ some p → Move s looking s []
  miss : s.registered ≡ none → Move s looking s (reserving get_or_spawn ∷ [])
  -- processorCreator.lock
  reserve_new :
      {k : Spawn}
      → s.active ≡ none
      → Move s
          (reserving k)
          (record s {
            active = some s.next_slot;
            next_slot = s.next_slot + 1;
            users = put s.users s.next_slot 1;
            mu_free = put s.mu_free s.next_slot true;
          })
          (waiting k s.next_slot ∷ [])
  reserve_old :
      {k : Spawn} {a : ℕ}
      → s.active ≡ some a
      → Move s (reserving k) (record s { users = put s.users a (s.users a + 1) }) (waiting k a ∷ [])
  lock :
      {k : Spawn} {a : ℕ}
      → s.mu_free a ≡ true
      → Move s (waiting k a) (record s { mu_free = put s.mu_free a false }) (rechecking k a ∷ [])
  -- spawnNewProcessor and getOrSpawnProcessor, under the lock
  taken :
      {k : Spawn} {a p : ℕ}
      → s.registered ≡ some p
      → Move s (rechecking k a) s (unlocking a (answer_found k p) ∷ [])
  untaken :
      {k : Spawn} {a : ℕ} → s.registered ≡ none → Move s (rechecking k a) s (building k a ∷ [])
  build :
      {k : Spawn} {a : ℕ}
      → Move s (building k a) (record s { built = s.built + 1 }) (registering k a s.built ∷ [])
  -- The producer is user code, and the lock is given back by `defer`.
  build_panics : {k : Spawn} {a : ℕ} → Move s (building k a) s (unlocking a panicked ∷ [])
  inserted :
      {k : Spawn} {a p : ℕ}
      → s.registered ≡ none
      → Move s
          (registering k a p)
          (record s { registered = some p; running = p ∷ s.running })
          (starting k a p ∷ [])
  not_inserted :
      {k : Spawn} {a p r : ℕ}
      → s.registered ≡ some r
      → Move s (registering k a p) s (unlocking a (answer_found k r) ∷ [])
  start :
      {k : Spawn} {a p : ℕ}
      → Move s
          (starting k a p)
          (record s { started = s.started + 1 })
          (unlocking a (process p) ∷ [])
  -- processorCreator.unlock
  unlock :
      {a : ℕ} {r : _}
      → Move s (unlocking a r) (record s { mu_free = put s.mu_free a true }) (releasing a r ∷ [])
  release :
      {a : ℕ} {r : _}
      → s.users a - 1 ≢ 0
      → Move s (releasing a r) (record s { users = put s.users a (s.users a - 1) }) []
  release_last :
      {a : ℕ} {r : _}
      → s.users a - 1 ≡ 0
      → Move s
          (releasing a r)
          (record s { users = put s.users a (s.users a - 1); active = none })
          []
  -- registry.remove
  remove_own :
      {p : ℕ} → s.registered ≡ some p → Move s (removing p) (record s { registered = none }) []
  remove_other : {p : ℕ} → s.registered ≢ some p → Move s (removing p) s []

pub record System : Type 0 where
  pub spawner : Spawner
  pub threads : List Pc

-- A goroutine moves; someone spawns, under a new name or on demand; or a process that may run stops,
-- which it does once, also before its `init` (whose `schedule` then finds it stopped), and is about to
-- leave the registry.
pub data Step (s : System) : System → Type 0 where
  move :
      {p : Pc} {t : Spawner} {ps : List Pc} (xs ys : List Pc)
      → s.threads ≡ xs ++ (p ∷ ys)
      → Move s.spawner p t ps
      → Step s (record { spawner = t; threads = xs ++ (ps ++ ys) })
  spawn : (k : Spawn) → Step s (record { spawner = s.spawner; threads = reserving k ∷ s.threads })
  look : Step s (record { spawner = s.spawner; threads = looking ∷ s.threads })
  stop :
      {p : ℕ} (xs ys : List ℕ)
      → s.spawner.running ≡ xs ++ (p ∷ ys)
      → Step s (record {
        spawner = record (s.spawner) { running = xs ++ ys };
        threads = removing p ∷ s.threads;
      })

pub data Reach : System → Type 0 where
  fresh : Reach (record { spawner = new_spawner; threads = [] })
  later : {s t : System} → Reach s → Step s t → Reach t
