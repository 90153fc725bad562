-- ===== src/Spawn.antt =====
-- registry.go and processor_spawn.go: how the goroutines that spawn, look up and remove the process
-- of one actor id share the registry and the per-id creation lock. Entries of other ids are apart.
-- A critical section of the bookkeeping mutex, an operation of the registry and an operation on the
-- mutex of a slot are one step each; steps of different goroutines interleave freely.
pub mod Moves
pub mod Inv
pub mod Keep
pub mod Reachable
pub mod Unique
mod Tests
use grain.Base.{ℕ, Bool, true, Option, none, some, List, [], nat_eqb, if◌then◌else◌}

-- Who spawns: `spawnNewProcessor`, which refuses a taken id, or `getOrSpawnProcessor`.
pub data Spawn : Type 0 where
  spawn_new get_or_spawn : Spawn

-- What a spawn ends with: a process, ErrNameExists, or the panic of a producer.
pub data Answer : Type 0 where
  process : ℕ → Answer
  name_exists panicked : Answer

-- Slots have addresses, and the fields `users` and `mu` of a processorCreationSlot are functions of
-- the address. Processes are numbered as they are built. The last two fields are history: which
-- processes may run, and how often `init` was called. A process may run from its registration on, since
-- whoever finds it may send to it and so start its drainer before `init` does, and until it stops.
pub record Spawner : Type 0 where
  pub registered : Option ℕ
  pub active : Option ℕ
  pub next_slot : ℕ
  pub users : ℕ → ℕ
  pub mu_free : ℕ → Bool
  pub built : ℕ
  pub running : List ℕ
  pub started : ℕ

-- Where a goroutine stands; each name says what it does next.
pub data Pc : Type 0 where
  looking : Pc  -- the lookup of `getOrSpawnProcessor` that takes no lock
  reserving : Spawn → Pc  -- `lock`: finds or makes the slot,
  waiting : Spawn → (slot : ℕ) → Pc  -- and locks it
  rechecking : Spawn → (slot : ℕ) → Pc  -- the lookup under the lock
  building : Spawn → (slot : ℕ) → Pc
  registering : Spawn → (slot process : ℕ) → Pc
  starting : Spawn → (slot process : ℕ) → Pc  -- `init`
  unlocking : (slot : ℕ) → Answer → Pc  -- `unlock`: unlocks the slot,
  releasing : (slot : ℕ) → Answer → Pc  -- and counts its user off
  removing : (process : ℕ) → Pc  -- a process that stopped leaves the registry

abbrev pub put {ℓ} : {A : Type ℓ} → (ℕ → A) → ℕ → A → ℕ → A
put f a v b = if nat_eqb a b then v else f b

-- the answer of a spawn that finds `found` under its id
abbrev pub answer_found : Spawn → ℕ → Answer
answer_found spawn_new found = name_exists
answer_found get_or_spawn found = process found

abbrev pub new_spawner : Spawner
new_spawner = record {
  registered = none;
  active = none;
  next_slot = 0;
  users = λ _. 0;
  mu_free = λ _. true;
  built = 0;
  running = [];
  started = 0;
}
