-- ===== src/Spawn/Tests.antt =====
-- Two goroutines that spawn under one id, and the theorems at the states they reach.
use grain.Base.{ℕ, ◌≤◌, ◌≡◌, refl, none, List, [], ◌∷◌, ◌++◌, length, ◌≢◌}
use grain.Spawn.{Spawner, spawn_new, get_or_spawn, Pc, waiting}
use grain.Spawn.Moves.{
  Move, System, move, spawn, stop, Reach, fresh, later, reserve_new, reserve_old, lock, taken,
  untaken, build, inserted, start, unlock, release, release_last, remove_own,
}
use grain.Spawn.Unique.{one_process_runs, built-registers}

-- the first goroutine of the list moves
front :
    {s t : Spawner} {p : Pc} {ps ts : List Pc}
    → Reach (record { spawner = s; threads = p ∷ ts })
    → Move s p t ps
    → Reach (record { spawner = t; threads = ps ++ ts })
front {ts = ts} r mv = later r (move [] ts refl mv)

second :
    {s t : Spawner} {o p : Pc} {ps ts : List Pc}
    → Reach (record { spawner = s; threads = o ∷ p ∷ ts })
    → Move s p t ps
    → Reach (record { spawner = t; threads = o ∷ (ps ++ ts) })
second {o = o} {ts = ts} r mv = later r (move (o ∷ []) ts refl mv)

abbrev Run : Type 0
Run = (x : System) × Reach x

-- one goroutine has built the process, another waits for the slot
abbrev racing : Run
racing =
    let r0 = later fresh (spawn spawn_new) in
    let r1 = front r0 (reserve_new refl) in
    let r2 = later r1 (spawn get_or_spawn) in
    let r3 = front r2 (reserve_old refl) in
    let r4 = second r3 (lock refl) in
    let r5 = second r4 (untaken refl) in let r6 = second r5 build in (_, r6)

built-registers_example : racing.0.spawner.registered ≡ none
built-registers_example =
    built-registers spawn_new 0 0 (waiting get_or_spawn 0 ∷ []) [] racing.1 refl

one_is_not_zero : ◌≢◌ {A = ℕ} 1 0
one_is_not_zero e = cc

-- the process is published and runs, and the second goroutine gets it
abbrev shared : Run
shared =
    let r1 = second racing.1 (inserted refl) in
    let r2 = second r1 start in
    let r3 = second r2 unlock in
    let r4 = second r3 (release one_is_not_zero) in
    let r5 = front r4 (lock refl) in
    let r6 = front r5 (taken refl) in
    let r7 = front r6 unlock in let r8 = front r7 (release_last refl) in (_, r8)

one_process_runs_example : length shared.0.spawner.running ≤ 1
one_process_runs_example = one_process_runs shared.1

-- The process stops and leaves.
abbrev over : Run
over = let r1 = later shared.1 (stop [] [] refl) in let r2 = front r1 (remove_own refl) in (_, r2)

-- The process is started by a send, stops and leaves before its `init`; the one that waits builds
-- another.
abbrev overtaken : Run
overtaken =
    let r1 = second racing.1 (inserted refl) in
    let r2 = later r1 (stop [] [] refl) in
    let r3 = front r2 (remove_own refl) in
    let r4 = second r3 start in
    let r5 = second r4 unlock in
    let r6 = front r5 (lock refl) in
    let r7 = front r6 (untaken refl) in
    let r8 = front r7 build in let r9 = front r8 (inserted refl) in (_, r9)

overtaken_runs : overtaken.0.spawner.running ≡ 1 ∷ []
overtaken_runs = refl
