-- ===== src/Activation/Tests.antt =====
-- A run of three nodes on a store in memory, and the result there.
use grain.Base.{◌≤◌, refl, List, [], ◌∷◌, length, Bytes, bytes_comparable}
use grain.Activation.Memory.{in_memory}
use grain.Activation.Lock.{Event, activate, stop, run, one_activation}

abbrev key : Bytes
key = 47 ∷ 103 ∷ []

abbrev kinds : List Bytes
kinds = (107 ∷ []) ∷ []

-- nodes 1 and 2 race, the winner stops, and node 2 takes over
abbrev events : List Event
events =
    activate (49 ∷ [])
    ∷ activate (50 ∷ [])
    ∷ stop (50 ∷ [])
    ∷ stop (49 ∷ [])
    ∷ activate (50 ∷ [])
    ∷ []

one_activation_example :
    length (run in_memory kinds (107 ∷ []) key (record { store = []; running = [] }) events).running
    ≤ 1
one_activation_example = one_activation in_memory kinds (107 ∷ []) key events [] refl
