-- ===== src/Dispatch/Cluster.antt =====
-- clusterMemberChanged of system_cluster.go: which processes stop when the members change.
use grain.Base.{
  ℕ, ◌≡◌, refl, ap, inl, inr, Bool, false, not, ◌&&◌, List, [], ◌∷◌, All, if◌then◌else◌, Bytes,
  ◌==◌, bytes_comparable, Bool-cases,
}
use grain.Base.Maybe.{maybe}
use grain.ActorId.{ActorId, new_actor_ref_from_aid, is_direct, is_cluster}
use grain.AddrHash.{NodeState, calc_addr_by_kind8_name}
use grain.Routes.Fresh.{fresh_route}
use grain.SafeMap.{Items}

-- whether the owner of `self` is another node now
abbrev pub is_moved : List NodeState → (addr : Bytes) → ActorId → Bool
is_moved nodes addr self =
    if is_direct self
    then false
    else (let new_addr =
          calc_addr_by_kind8_name nodes self.cache_parse.kind self.cache_parse.name in
        not (new_addr == []) && not (new_addr == addr))

-- `clusterMemberChanged`: the processes that it poisons, of those in the registry
pub cluster_member_changed : List NodeState → (addr : Bytes) → Items Bytes ℕ → List ℕ
cluster_member_changed nodes addr [] = []
cluster_member_changed nodes addr ((id, p) ∷ registry) =
    let rest = cluster_member_changed nodes addr registry in
    if is_moved nodes addr (new_actor_ref_from_aid id) then p ∷ rest else rest

-- the grains of the registry that a send from here would take to another node
abbrev pub sent_elsewhere : List NodeState → (addr : Bytes) → Items Bytes ℕ → List ℕ
sent_elsewhere nodes addr [] = []
sent_elsewhere nodes addr ((id, p) ∷ registry) =
    let rest = sent_elsewhere nodes addr registry in
    let ref = new_actor_ref_from_aid id in
    if is_cluster ref then maybe rest (λ _. p ∷ rest) (fresh_route addr nodes ref).stream else rest

-- When the members change, a node stops exactly the grains that routing now takes to another node,
-- where every id in its registry is one of an actor of the node or of a grain.
pub cluster_member_changed-by_routing :
    (nodes : List NodeState) (addr : Bytes) (registry : Items Bytes ℕ)
    → All
        (λ (kv : Bytes × ℕ).
          is_cluster (new_actor_ref_from_aid kv.0) ≡ not (is_direct (new_actor_ref_from_aid kv.0)))
        registry
    → cluster_member_changed nodes addr registry ≡ sent_elsewhere nodes addr registry
unfolding cluster_member_changed fresh_route
cluster_member_changed-by_routing nodes addr [] h = refl
cluster_member_changed-by_routing nodes addr ((id, p) ∷ registry) (k, h) =
    let ref = new_actor_ref_from_aid id in
    let rest = cluster_member_changed-by_routing nodes addr registry h in
    let owner = calc_addr_by_kind8_name nodes ref.cache_parse.kind ref.cache_parse.name in
    elim (Bool-cases (is_direct ref)) [
      | inl d ↦ rw (k, d) rest
      | inr d ↦ elim (Bool-cases (owner == [])) [
        | inl e ↦ rw (k, d, e) rest
        | inr e ↦ elim (Bool-cases (owner == addr)) [
          | inl o ↦ rw (k, d, e, o) rest
          | inr o ↦ rw (k, d, e, o) (ap (λ l. p ∷ l) rest)
        ]
      ]
    ]
