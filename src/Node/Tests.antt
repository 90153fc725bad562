-- ===== src/Node/Tests.antt =====
-- Two nodes that race for ids on a store in memory, and the theorems there.
use grain.Base.{ℕ, ◌-◌, Option, none, some, List, [], ◌∷◌, Bytes}
use grain.AddrHash.{NodeState}
use grain.SafeMap.{Items}
use grain.Routes.{Provider}
use grain.Activation.Memory.{in_memory}
use grain.Node.{Node}
use grain.Node.Unique.{Party, Event, Distinct, run, node_ids-Distinct}

abbrev node_1 : NodeState
node_1 = record { node_id = 1; address = 97 ∷ []; version = []; time = []; kinds = [] }

abbrev empty_provider : Provider
empty_provider = record { local_provider_version = 1; node_map = []; nodes = none }

-- The id 1 is taken.
abbrev one_taken : Provider
one_taken = record empty_provider { node_map = (49 ∷ [], node_1) ∷ [] }

abbrev marshal : NodeState → Bytes
marshal a = a.node_id ∷ []

abbrev unmarshal : Bytes → Option NodeState
unmarshal (id ∷ []) =
    some (record { node_id = id; address = 97 ∷ []; version = []; time = []; kinds = [] })
unmarshal _ = none

abbrev get_members : Items Bytes Bytes → Option (List (Bytes × Bytes))
get_members s = some s

abbrev last_one : ℕ → ℕ → ℕ
last_one round bound = bound - 1

abbrev fresh_node : Node
fresh_node = record { provider = empty_provider; state = none }

abbrev party : Party
party = record { rand = last_one; now = λ _. []; version = []; kinds = []; addr = 97 ∷ [] }

-- Both try for the same id, and the second one tries again with another view.
abbrev rounds : List Event
rounds =
    record { party = party; round = 16; node = fresh_node }
    ∷ record { party = party; round = 16; node = fresh_node }
    ∷ record { party = party; round = 15; node = record fresh_node { provider = one_taken } }
    ∷ []

node_ids-Distinct_example :
    Distinct
      (run in_memory marshal unmarshal get_members
        (103 ∷ [])
        (record { store = []; ids = [] })
        rounds).ids
node_ids-Distinct_example =
    node_ids-Distinct in_memory marshal unmarshal get_members (103 ∷ []) rounds []
