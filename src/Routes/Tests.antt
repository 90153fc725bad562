-- ===== src/Routes/Tests.antt =====
-- A system's routes in a run, and the result at concrete inputs.
use grain.Base.{
  ◌≡◌, refl, Option, none, some, List, [], ◌∷◌, if◌then◌else◌, Bytes, ◌==◌, bytes_comparable,
}
use grain.ActorId.{ActorId, new_cluster_actor_ref}
use grain.AddrHash.{NodeState}
use grain.Routes.{Resolver, put_event}
use grain.Routes.Run.{Event, change, send, routes, fresh_routes, routes_fresh}

-- "k"
abbrev kind : Bytes
kind = 107 ∷ []

-- "n1" hosts the kind; its JSON is taken to be "1"
abbrev peer : NodeState
peer = record { node_id = 1; address = 110 ∷ 49 ∷ []; version = []; time = []; kinds = kind ∷ [] }

abbrev decode : Bytes → Option NodeState
decode value = if value == (49 ∷ []) then some peer else none

abbrev target : ActorId
target = new_cluster_actor_ref kind kind

abbrev self : Resolver
self = record { resolver_id = 1; addr = 110 ∷ 50 ∷ []; generation = none }

-- nobody hosts the kind, then the peer does, then its entry is garbled
abbrev events : List Event
events =
    send
    ∷ change put_event (109 ∷ 47 ∷ 49 ∷ []) (49 ∷ [])
    ∷ send
    ∷ send
    ∷ change put_event (109 ∷ 47 ∷ 49 ∷ []) []
    ∷ send
    ∷ []

routes_fresh_example :
    routes decode target
      (record { local_provider_version = 0; node_map = []; nodes = none })
      self
      none
      events
    ≡ fresh_routes decode target
        (record { local_provider_version = 0; node_map = []; nodes = none })
        self.addr
        events
routes_fresh_example = routes_fresh decode target self events refl
