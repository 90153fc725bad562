-- ===== src/Routes/Run.antt =====
-- A system's routes over time: changes of the members and resolutions of one reference.
use grain.Base.{
  ℕ, ◌+◌, ◌≡◌, refl, sym, ap, ap₂, map, ◌∙◌, inl, inr, Bool, true, false, not, ◌&&◌, ◌||◌, Option,
  none, some, List, [], ◌∷◌, leb, nat_eqb, Bytes, ◌==◌, bytes_comparable, Bool-cases, Option-cases,
  arith,
}
use grain.ActorId.{ActorId, is_direct, is_cluster}
use grain.AddrHash.{NodeState, calc_addr_by_kind8_name}
use grain.Routes.{
  Provider, EventType, ResolvedRoute, Generation, CachedRoute, changed_map, apply_member_locked,
  parse_watch, get_nodes, current_generation, Resolver, cache_hit, store_route, with_stream,
  resolve_miss, resolve,
}
use grain.Routes.Fresh.{
  members, route_to, fresh_route, Published, StreamsOk, CacheOk, GenerationOk, with_stream_lem,
  current_generation_lem,
}

abbrev pub CachedOk : Provider → ℕ → Bytes → ActorId → Option CachedRoute → Type 0
CachedOk x id addr target none = Unit
CachedOk x id addr target (some e) = CacheOk x id addr target e

-- what holds between the provider, the resolver and the cache of a reference
pub record Ok (x : Provider) (r : Resolver) (target : ActorId) (cache : Option CachedRoute)
    : Type 0 where
  pub published : Published x
  pub generation_ok : GenerationOk x r.addr r.generation
  pub cached_ok : CachedOk x r.resolver_id r.addr target cache

-- A resolution gives the fresh route, and leaves the resolver's number and address.
pub record Resolved (x : Provider) (r : Resolver) (target : ActorId)
    (out : Resolver × ResolvedRoute × Option CachedRoute) : Type 0 where
  pub route_fresh : out.1 ≡ fresh_route r.addr (members x) target
  pub same_id : out.0.resolver_id ≡ r.resolver_id
  pub same_addr : out.0.addr ≡ r.addr
  pub still_ok : Ok x out.0 target out.2

module _ (x : Provider) (target : ActorId) where
  stored-CachedOk :
      (id : ℕ) (addr : Bytes) (version : ℕ) (route : ResolvedRoute) (cache : Option CachedRoute)
      → version ≡ x.local_provider_version
      → route ≡ fresh_route addr (members x) target
      → CachedOk x id addr target cache
      → CachedOk x id addr target (store_route id version route cache)
  stored-CachedOk id addr version route none v f c = record {
    not_ahead = omega arith;
    same_route = inr (inr f);
  }
  stored-CachedOk id addr version route (some e) v f c =
      elim (Bool-cases (not (nat_eqb e.resolver id) || leb e.version version)) [
        | inl h ↦ rw h (record { not_ahead = omega arith; same_route = inr (inr f) })
        | inr h ↦ rw h c
      ]

  module _ (r : Resolver) (g : Generation) (cache : Option CachedRoute) (ok : Ok x r target cache)
      (v : g.version ≡ x.local_provider_version) (n : g.nodes ≡ members x)
      (s : StreamsOk r.addr g.streams) where
    kept-Ok :
        (c : Option CachedRoute)
        → CachedOk x r.resolver_id r.addr target c
        → Ok x (record r { generation = some g }) target c
    kept-Ok c h = record {
      published = ok.published;
      generation_ok = record { not_ahead = omega arith; same_nodes = inr n; streams_ok = s };
      cached_ok = h;
    }

    sent :
        (direct : Bool) (address : Bytes)
        → route_to r.addr direct address ≡ fresh_route r.addr (members x) target
        → (let (g', route) = with_stream r.addr direct g address in
            Resolved x r target (
              record r { generation = some g' },
              route,
              store_route r.resolver_id g.version route cache,
            ))
    sent direct address f =
        let (route, version, nodes, streams) = with_stream_lem r.addr direct g address s in
        record {
          route_fresh = route ∙ f;
          same_id = refl;
          same_addr = refl;
          still_ok = record {
            published = ok.published;
            generation_ok = record {
              not_ahead = omega arith;
              same_nodes = inr (nodes ∙ n);
              streams_ok = streams;
            };
            cached_ok =
                stored-CachedOk r.resolver_id r.addr g.version _ cache v (route ∙ f) ok.cached_ok;
          };
        }

    miss-Resolved : Resolved x r target (resolve_miss r g target cache)
    unfolding resolve_miss fresh_route
    miss-Resolved = elim (Bool-cases (is_direct target)) [
      | inl d ↦ rw d (sent true target.cache_parse.direct_addr (rw d refl))
      | inr d ↦ elim (Bool-cases (is_cluster target)) [
        | inl c ↦
            rw (d, c)
              (sent false
                (calc_addr_by_kind8_name g.nodes target.cache_parse.kind target.cache_parse.name)
                (rw (d, c, n) refl))
        | inr c ↦
            rw (d, c)
              (record {
                route_fresh = rw (d, c) refl;
                same_id = refl;
                same_addr = refl;
                still_ok = kept-Ok cache ok.cached_ok;
              })
      ]
    ]

    hit_fresh :
        (o : Option CachedRoute) (route : ResolvedRoute)
        → CachedOk x r.resolver_id r.addr target o
        → cache_hit r.resolver_id g.version o ≡ some route
        → route ≡ fresh_route r.addr (members x) target
    hit_fresh none route c h = cc
    hit_fresh (some e) route c h = ground (arith, c.same_route)

  resolve-Resolved :
      (r : Resolver) (cache : Option CachedRoute)
      → Ok x r target cache
      → Resolved x r target (resolve r x target cache)
  unfolding resolve fresh_route
  resolve-Resolved r cache ok =
      elim (Bool-cases (is_direct target && target.cache_parse.direct_addr == r.addr)) [
        | inl here ↦ rw here (record {
          route_fresh =
              let d : is_direct target ≡ true = ground (arith, here) in
              let e : (target.cache_parse.direct_addr == r.addr) ≡ true = ground (arith, here) in
              rw (d, e) refl;
          same_id = refl;
          same_addr = refl;
          still_ok = ok;
        })
        | inr away ↦
            let g = current_generation x r.generation in
            let (v, n, s) =
              current_generation_lem x r.addr r.generation ok.published ok.generation_ok in
            elim (Option-cases (cache_hit r.resolver_id g.version cache)) [
              | inl h ↦ rw (away, h) (miss-Resolved r g cache ok v n s)
              | inr (route, h) ↦
                  rw (away, h)
                    (record {
                      route_fresh = hit_fresh r g cache ok v n s cache route ok.cached_ok h;
                      same_id = refl;
                      same_addr = refl;
                      still_ok = kept-Ok r g cache ok v n s cache ok.cached_ok;
                    })
            ]
      ]

-- What happens to a system, as far as one reference sees it: a member key changes, or the
-- reference is resolved.
pub data Event : Type 0 where
  change : EventType → Bytes → Bytes → Event
  send : Event

module _ (unmarshal : Bytes → Option NodeState) (target : ActorId) where
  unfoldable pub routes : Provider → Resolver → Option CachedRoute → List Event → List ResolvedRoute
  routes x r cache [] = []
  routes x r cache (change op key value ∷ events) =
      routes (parse_watch unmarshal op key value x) r cache events
  routes x r cache (send ∷ events) =
      let (r', route, cache') = resolve r x target cache in route ∷ routes x r' cache' events

  -- the reference: no cache, and only the member table
  unfoldable pub fresh_routes : Provider → Bytes → List Event → List ResolvedRoute
  fresh_routes x addr [] = []
  fresh_routes x addr (change op key value ∷ events) =
      fresh_routes (apply_member_locked unmarshal op key value x) addr events
  fresh_routes x addr (send ∷ events) =
      fresh_route addr (members x) target ∷ fresh_routes x addr events

  changed-Ok :
      (op : EventType) (key value : Bytes) (x : Provider) (r : Resolver)
      (cache : Option CachedRoute)
      → Ok x r target cache
      → Ok (parse_watch unmarshal op key value x) r target cache
  unfolding parse_watch apply_member_locked get_nodes
  changed-Ok op key value x r cache ok = record {
    published = record { together = refl };
    generation_ok = older_generation r.generation ok.generation_ok;
    cached_ok = older_cache cache ok.cached_ok;
  }
    where
      older_generation :
          (o : Option Generation)
          → GenerationOk x r.addr o
          → GenerationOk (parse_watch unmarshal op key value x) r.addr o
      older_generation none g = tt
      older_generation (some _) g = record {
        not_ahead = omega (arith, g.not_ahead);
        same_nodes = inl (omega (arith, g.not_ahead));
        streams_ok = g.streams_ok;
      }

      older_cache :
          (o : Option CachedRoute)
          → CachedOk x r.resolver_id r.addr target o
          → CachedOk (parse_watch unmarshal op key value x) r.resolver_id r.addr target o
      older_cache none c = tt
      older_cache (some _) c = record {
        not_ahead = omega (arith, c.not_ahead);
        same_route = inr (inl (omega (arith, c.not_ahead)));
      }

  routes_alike :
      (events : List Event) (x y : Provider) (r : Resolver) (cache : Option CachedRoute)
      → Ok x r target cache
      → y.node_map ≡ x.node_map
      → y.local_provider_version ≡ x.local_provider_version
      → routes x r cache events ≡ fresh_routes y r.addr events
  unfolding routes fresh_routes parse_watch apply_member_locked
  routes_alike [] x y r cache ok m v = refl
  routes_alike (change op key value ∷ events) x y r cache ok m v =
      routes_alike events (parse_watch unmarshal op key value x)
        (apply_member_locked unmarshal op key value y) r cache
        (changed-Ok op key value x r cache ok) (ap (changed_map unmarshal op key value) m)
        (ap (λ n. n + 1) v)
  routes_alike (send ∷ events) x y r cache ok m v =
      let z = resolve-Resolved x target r cache ok in
      let route =
        z.route_fresh
        ∙ ap (λ n. fresh_route r.addr (map (λ (kv : Bytes × NodeState). kv.1) n) target) (sym m) in
      let rest =
        routes_alike events x y (resolve r x target cache).0 (resolve r x target cache).2 z.still_ok
          m v
        ∙ ap (λ a. fresh_routes y a events) z.same_addr in
      ap₂ (λ a l. a ∷ l) route rest

  published_start :
      get_nodes (record { local_provider_version = 0; node_map = []; nodes = none }) ≡ ([], 0)
  unfolding get_nodes
  published_start = refl

  -- From a start with no members on, whatever member changes and sends follow, each route that a
  -- send gets is the one that the members of that moment give, with no cache consulted.
  pub routes_fresh :
      (r : Resolver) (events : List Event)
      → r.generation ≡ none
      → routes (record { local_provider_version = 0; node_map = []; nodes = none }) r none events
        ≡ fresh_routes
            (record { local_provider_version = 0; node_map = []; nodes = none })
            r.addr
            events
  routes_fresh r events e =
      let start : Provider = record { local_provider_version = 0; node_map = []; nodes = none } in
      routes_alike events start start r none
        (record {
          published = record { together = published_start };
          generation_ok = rw e tt;
          cached_ok = tt;
        })
        refl refl
