-- ===== src/Routes.antt =====
-- provider_etcd.go, the member table, and routing_resolver.go: where a message for an actor goes.
-- Decoding a member's JSON is a parameter. A Go map is an association list; its random iteration
-- order does not matter for the owner of a name. Concurrent resolutions take turns here.
pub mod Fresh
pub mod Run
mod Tests
use grain.Base.{
  ℕ, zero, suc, ◌+◌, Bool, true, false, not, ◌&&◌, ◌||◌, Option, none, some, List, [], ◌∷◌, leb,
  nat_eqb, if◌then◌else◌, drop, map, Bytes, ◌==◌, bytes_comparable,
}
use grain.Base.Maybe.{maybe}
use grain.ActorId.{slash, ActorId, new_direct_actor_ref, is_direct, is_cluster}
use grain.AddrHash.{NodeState, calc_addr_by_kind8_name}
use grain.SafeMap.{Items, items_get, items_delete, items_set}

-- `nodesSnapshot`
pub record Snapshot : Type 0 where
  pub version : ℕ
  pub nodes : List NodeState

-- `providerEtcd`: the member table, its version, and what is published of them
pub record Provider : Type 0 where
  pub local_provider_version : ℕ
  pub node_map : Items Bytes NodeState
  pub nodes : Option Snapshot

pub data EventType : Type 0 where
  put_event delete_event : EventType

abbrev pub has_slash : Bytes → Bool
has_slash [] = false
has_slash (c ∷ s) = nat_eqb c slash || has_slash s

-- what follows the last slash of a key, the whole key where there is none
abbrev pub after_last_slash : Bytes → Bytes
after_last_slash [] = []
after_last_slash (b ∷ key) =
    let rest = after_last_slash key in
    let later = has_slash key in if later then rest else if nat_eqb b slash then key else b ∷ key

-- `stream` is what `sendToRemote` sends over: `none` for a local or an unhosted destination.
pub record ResolvedRoute : Type 0 where
  pub address : Bytes
  pub stream : Option ActorId

-- `routingGeneration`
pub record Generation : Type 0 where
  pub version : ℕ
  pub nodes : List NodeState
  pub streams : Items Bytes ActorId

-- `cachedActorRoute`; a system's resolver is known by a number
pub record CachedRoute : Type 0 where
  pub resolver : ℕ
  pub version : ℕ
  pub route : ResolvedRoute

-- "write_stream"
abbrev pub default_write_stream_kind : Bytes
default_write_stream_kind = 119 ∷ 114 ∷ 105 ∷ 116 ∷ 101 ∷ 95 ∷ 115 ∷ 116 ∷ 114 ∷ 101 ∷ 97 ∷ 109 ∷ []

abbrev pub publish_nodes_locked : Provider → Provider
publish_nodes_locked x = record x {
  nodes = some (record {
    version = x.local_provider_version;
    nodes = map (λ (kv : Bytes × NodeState). kv.1) x.node_map;
  });
}

pub get_nodes_version : Provider → ℕ
get_nodes_version x = x.local_provider_version

unfoldable pub get_nodes : Provider → List NodeState × ℕ
get_nodes x = maybe ([], x.local_provider_version) (λ snap. (snap.nodes, snap.version)) x.nodes

-- `json.Unmarshal` into a `tNodeState`; `none` is its error
module _ (unmarshal : Bytes → Option NodeState) where
  -- what a change of a member's key makes of the table
  abbrev pub changed_map : EventType → Bytes → Bytes → Items Bytes NodeState → Items Bytes NodeState
  changed_map delete_event key value node_map = items_delete node_map (after_last_slash key)
  changed_map put_event key value node_map =
      maybe (items_delete node_map (after_last_slash key))
        (λ a. items_set node_map (after_last_slash key) a) (unmarshal value)

  unfoldable pub apply_member_locked : EventType → Bytes → Bytes → Provider → Provider
  apply_member_locked op key value x = record x {
    local_provider_version = x.local_provider_version + 1;
    node_map = changed_map op key value x.node_map;
  }

  unfoldable pub parse_watch : EventType → Bytes → Bytes → Provider → Provider
  parse_watch op key value x = publish_nodes_locked (apply_member_locked op key value x)

  -- the loop of `loadMembers`
  abbrev pub apply_members : List (Bytes × Bytes) → Provider → Provider
  apply_members [] x = x
  apply_members ((key, value) ∷ kvs) x =
      apply_members kvs (apply_member_locked put_event key value x)

-- `currentGeneration`: what the resolver then goes by
pub current_generation : Provider → Option Generation → Generation
current_generation provider none =
    let (nodes, version) = get_nodes provider in
    record { version = version; nodes = nodes; streams = [] }
current_generation provider (some current) =
    let (nodes, version) = get_nodes provider in
    if leb (get_nodes_version provider) current.version
    then current
    else if leb version current.version
    then current
    else record { version = version; nodes = nodes; streams = [] }

-- `streamRef`: the generation with the reference in it, and the reference
pub stream_ref : Bytes → Generation → Bytes → Generation × ActorId
stream_ref addr g address =
    let ref = new_direct_actor_ref default_write_stream_kind address addr in
    maybe (record g { streams = items_set g.streams address ref }, ref) (λ old. (g, old))
      (items_get g.streams address)

-- a system: its resolver's number, its address, and its resolver's generation
pub record Resolver : Type 0 where
  pub resolver_id : ℕ
  pub addr : Bytes
  pub generation : Option Generation

-- the hit test of the actor's route cache
abbrev pub cache_hit : ℕ → ℕ → Option CachedRoute → Option ResolvedRoute
cache_hit id version none = none
cache_hit id version (some entry) =
    if nat_eqb entry.resolver id && nat_eqb entry.version version then some entry.route else none

abbrev pub store_route : ℕ → ℕ → ResolvedRoute → Option CachedRoute → Option CachedRoute
store_route id version route none =
    some (record { resolver = id; version = version; route = route })
store_route id version route (some entry) =
    if not (nat_eqb entry.resolver id) || leb entry.version version
    then some (record { resolver = id; version = version; route = route })
    else some entry

-- the stream of a route to `address`, where one is needed
abbrev pub with_stream : Bytes → Bool → Generation → Bytes → Generation × ResolvedRoute
with_stream addr direct g address =
    if (direct || not (address == [])) && not (address == addr)
    then (let (g', ref) = stream_ref addr g address in
        (g', record { address = address; stream = some ref }))
    else (g, record { address = address; stream = none })

-- `resolveMiss` where the cache misses: the resolver, the route, and the target's cache
pub resolve_miss :
    Resolver
    → Generation
    → ActorId
    → Option CachedRoute
    → Resolver × ResolvedRoute × Option CachedRoute
resolve_miss r g target cache =
    let direct = is_direct target in
    if not direct && not (is_cluster target)
    then (record r { generation = some g }, record { address = []; stream = none }, cache)
    else let (g', route) = with_stream r.addr direct g (
        if direct
        then target.cache_parse.direct_addr
        else calc_addr_by_kind8_name g.nodes target.cache_parse.kind target.cache_parse.name) in
      (record r { generation = some g' }, route, store_route r.resolver_id g.version route cache)

-- `resolve`. Every reference but that of an Ask's reply has a cache.
pub resolve :
    Resolver
    → Provider
    → ActorId
    → Option CachedRoute
    → Resolver × ResolvedRoute × Option CachedRoute
resolve r provider target cache =
    if is_direct target && target.cache_parse.direct_addr == r.addr
    then (r, record { address = target.cache_parse.direct_addr; stream = none }, cache)
    else let g = current_generation provider r.generation in
      maybe (resolve_miss r g target cache)
        (λ route. (record r { generation = some g }, route, cache))
        (cache_hit r.resolver_id g.version cache)
