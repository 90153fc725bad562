-- ===== src/Routes/Fresh.antt =====
-- Neither cache, the generation or that of a reference, is ever seen: a route is what the current
-- members give.
use grain.Base.{
  ℕ, ◌≤◌, ◌<◌, ◌≡◌, refl, ap, ◌∙◌, ◌⊎◌, inl, inr, Bool, true, false, not, ◌&&◌, ◌||◌, Option, none,
  some, List, [], map, leb, nat_eqb, if◌then◌else◌, Bytes, ◌==◌, ==→eq, bytes_comparable,
  Bool-cases, arith,
}
use grain.ActorId.{ActorId, new_direct_actor_ref, is_direct, is_cluster}
use grain.AddrHash.{NodeState, calc_addr_by_kind8_name}
use grain.SafeMap.{Items, items_get, items_set}
use grain.SafeMap.Assoc.{get-set}
use grain.Routes.{
  Provider, ResolvedRoute, Generation, CachedRoute, default_write_stream_kind, get_nodes_version,
  get_nodes, current_generation, stream_ref, with_stream,
}

abbrev pub members : Provider → List NodeState
members x = map (λ (kv : Bytes × NodeState). kv.1) x.node_map

abbrev pub stream_to : Bytes → Bytes → ActorId
stream_to addr address = new_direct_actor_ref default_write_stream_kind address addr

-- the reference: no cache of any kind
abbrev pub route_to : Bytes → Bool → Bytes → ResolvedRoute
route_to addr direct address =
    if (direct || not (address == [])) && not (address == addr)
    then record { address = address; stream = some (stream_to addr address) }
    else record { address = address; stream = none }

unfoldable pub fresh_route : Bytes → List NodeState → ActorId → ResolvedRoute
fresh_route addr nodes target =
    if is_direct target
    then route_to addr true target.cache_parse.direct_addr
    else if is_cluster target
    then route_to addr false
        (calc_addr_by_kind8_name nodes target.cache_parse.kind target.cache_parse.name)
    else record { address = []; stream = none }

-- what is published belongs to the current version
pub record Published (x : Provider) : Type 0 where
  pub together : get_nodes x ≡ (members x, x.local_provider_version)

abbrev pub StreamsOk : Bytes → Items Bytes ActorId → Type 0
StreamsOk addr streams =
    (a : Bytes) → (items_get streams a ≡ none) ⊎ (items_get streams a ≡ some (stream_to addr a))

-- A generation is of a version up to the current one, and of the current members if of that.
pub record Current (x : Provider) (addr : Bytes) (g : Generation) : Type 0 where
  pub not_ahead : g.version ≤ x.local_provider_version
  pub same_nodes : (g.version < x.local_provider_version) ⊎ (g.nodes ≡ members x)
  pub streams_ok : StreamsOk addr g.streams

-- likewise the cache of a reference, as far as the resolver of that number filled it
pub record CacheOk (x : Provider) (id : ℕ) (addr : Bytes) (target : ActorId) (e : CachedRoute)
    : Type 0 where
  pub not_ahead : e.version ≤ x.local_provider_version
  pub same_route :
      (nat_eqb e.resolver id ≡ false)
      ⊎ ((e.version < x.local_provider_version) ⊎ (e.route ≡ fresh_route addr (members x) target))

-- A generation's references to streams are those that it would build.
stream_ref_lem :
    (addr : Bytes) (g : Generation) (address : Bytes)
    → StreamsOk addr g.streams
    → ((stream_ref addr g address).1 ≡ stream_to addr address)
      × ((stream_ref addr g address).0.version ≡ g.version)
      × ((stream_ref addr g address).0.nodes ≡ g.nodes)
      × StreamsOk addr (stream_ref addr g address).0.streams
unfolding stream_ref
stream_ref_lem addr g address ok = elim (ok address) [
  | inl h ↦ rw h (refl, refl, refl, added)
  | inr h ↦ rw h (refl, refl, refl, ok)
]
  where
    added : StreamsOk addr (items_set g.streams address (stream_to addr address))
    added a = elim (Bool-cases (address == a)) [
      | inl e ↦ inr (
          get-set g.streams address (stream_to addr address) a
          ∙ rw e (ap (λ b. some (stream_to addr b)) (==→eq address a e)))
      | inr e ↦
          let other = get-set g.streams address (stream_to addr address) a ∙ rw e refl in
          elim (ok a) [ inl h ↦ inl (other ∙ h) | inr h ↦ inr (other ∙ h) ]
    ]

pub with_stream_lem :
    (addr : Bytes) (direct : Bool) (g : Generation) (address : Bytes)
    → StreamsOk addr g.streams
    → ((with_stream addr direct g address).1 ≡ route_to addr direct address)
      × ((with_stream addr direct g address).0.version ≡ g.version)
      × ((with_stream addr direct g address).0.nodes ≡ g.nodes)
      × StreamsOk addr (with_stream addr direct g address).0.streams
with_stream_lem addr direct g address ok =
    let (ref, version, nodes, streams) = stream_ref_lem addr g address ok in
    elim (Bool-cases ((direct || not (address == [])) && not (address == addr))) [
      | inr h ↦ rw h (refl, refl, refl, ok)
      | inl h ↦
          rw h
            (ap (λ t. record { address = address; stream = some t }) ref, version, nodes, streams)
    ]

-- the generation that a resolution goes by
abbrev pub GenerationOk : Provider → Bytes → Option Generation → Type 0
GenerationOk x addr none = Unit
GenerationOk x addr (some g) = Current x addr g

pub current_generation_lem :
    (x : Provider) (addr : Bytes) (o : Option Generation)
    → Published x
    → GenerationOk x addr o
    → ((current_generation x o).version ≡ x.local_provider_version)
      × ((current_generation x o).nodes ≡ members x)
      × StreamsOk addr (current_generation x o).streams
unfolding current_generation get_nodes_version
current_generation_lem x addr none p ok = rw p.together (refl, refl, λ a. inl refl)
current_generation_lem x addr (some g) p ok =
    elim (Bool-cases (leb x.local_provider_version g.version)) [
      | inl h ↦
          let same : g.version ≡ x.local_provider_version = ground (arith, ok.not_ahead) in
          let nodes : g.nodes ≡ members x = elim ok.same_nodes [
            | inl behind ↦ absurd (omega arith)
            | inr e ↦ e
          ] in
          rw (p.together, h) (same, nodes, ok.streams_ok)
      | inr h ↦ rw (p.together, h) (refl, refl, λ a. inl refl)
    ]
