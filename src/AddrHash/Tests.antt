-- ===== src/AddrHash/Tests.antt =====
-- Runs of the ownership rule, and the results at concrete inputs.
use grain.Base.{ℕ, ◌≡◌, ◌⊎◌, refl, List, [], ◌∷◌, Bytes, bytes_comparable, arith}
use grain.AddrHash.{
  NodeState, fnv32a_add, fnv32a_start, fmix32, consider, consider_all, calc_addr_by_kind8_name,
}
use grain.AddrHash.Winner.{eligible}
use grain.AddrHash.Owner.{Winner, owner_wins, owner_agrees}

-- "room"
abbrev room : Bytes
room = 114 ∷ 111 ∷ 111 ∷ 109 ∷ []

-- "k1"
abbrev name_1 : Bytes
name_1 = 107 ∷ 49 ∷ []

abbrev member : ℕ → Bytes → List Bytes → NodeState
member id addr kinds = record {
  node_id = id;
  address = addr;
  version = [];
  time = [];
  kinds = kinds;
}

-- "n1", "n2", and members that may not be chosen: one of no kind and one of no address
abbrev first : NodeState
first = member 1 (110 ∷ 49 ∷ []) (room ∷ [])

abbrev second : NodeState
second = member 2 (110 ∷ 50 ∷ []) (name_1 ∷ room ∷ [])

abbrev no_kind : NodeState
no_kind = member 3 (110 ∷ 51 ∷ []) []

abbrev no_address : NodeState
no_address = member 4 [] (room ∷ [])

abbrev members : List NodeState
members = no_kind ∷ first ∷ no_address ∷ second ∷ []

-- FNV-1a of "a", as published
fnv_of_a : fnv32a_start (97 ∷ []) ≡ 0xe40c292c
unfolding fnv32a_start fnv32a_add
fnv_of_a = refl

-- murmur3's finalizer at 1
fmix_of_1 : fmix32 1 ≡ 0x514e28b7
unfolding fmix32
fmix_of_1 = refl

owner_here : calc_addr_by_kind8_name members room name_1 ≡ first.address
unfolding calc_addr_by_kind8_name consider_all consider fnv32a_start fnv32a_add fmix32
owner_here = refl

nobody : calc_addr_by_kind8_name (no_kind ∷ no_address ∷ []) room name_1 ≡ []
unfolding calc_addr_by_kind8_name consider_all consider
nobody = refl

owner_wins_example :
    ((eligible room members ≡ []) × (calc_addr_by_kind8_name members room name_1 ≡ []))
    ⊎ Winner name_1 (eligible room members) (calc_addr_by_kind8_name members room name_1)
owner_wins_example = owner_wins members room name_1

owner_agrees_example :
    calc_addr_by_kind8_name (second ∷ first ∷ second ∷ []) room name_1
    ≡ calc_addr_by_kind8_name members room name_1
owner_agrees_example =
    owner_agrees (second ∷ first ∷ second ∷ []) members room name_1 (λ b. ground arith)
