-- ===== src/Dispatch/Tests.antt =====
-- A send to a grain whose kind no member hosts, by an Ask, an envelope for it, two spawns and a poison.
use grain.Base.Decimal.{format_uint}
use grain.Dispatch.Control.{poison_ref, signal, told, BuildsNoActor, poison_ref-BuildsNoActor}
use grain.Dispatch.{Effect, poison}
use grain.Config.{new_opts, apply_kind_opts}
use grain.Dispatch.Named.{
  Taken, Reached, spawn_named, spawn, invalid_name, name_exists, panicked, spawns-Reached,
}
use grain.Base.{
  bytes_comparable, List, ℕ, ◌≡◌, refl, ◌⊎◌, Option, none, false, some, [], ◌∷◌, Bytes,
}
use grain.ActorId.{
  NameError, validate_name, parse_cache, is_direct, is_cluster, new_actor_ref_from_aid, ActorId,
  new_direct_actor_ref, new_cluster_actor_ref, default_reply_kind,
}
use grain.Routes.{ResolvedRoute}
use grain.Routes.Fresh.{fresh_route}
use grain.Dispatch.{System, Message, other}
use grain.Dispatch.Receive.{Envelope}
use grain.SafeMap.{Items, items_get}
use grain.AddrHash.{NodeState}
use grain.Dispatch.Cluster.{
  cluster_member_changed, sent_elsewhere, cluster_member_changed-by_routing,
}
use grain.Dispatch.Account.{Accounted}

-- "k"
abbrev kind : Bytes
kind = 107 ∷ []

abbrev here : System
here = record {
  registry = [];
  addr = 110 ∷ 49 ∷ [];
  kinds = kind ∷ [];
  draining = false;
  next_process = 0;
}

abbrev grain_k : ActorId
grain_k = new_cluster_actor_ref kind kind

abbrev asker : ActorId
asker = new_direct_actor_ref default_reply_kind (55 ∷ []) here.addr

-- An envelope for the grain from another node, and a decoder that knows every message by one name.
abbrev decode : Bytes → Bytes → Option Message
decode msg_name content = some (other 1)

abbrev envelope : Envelope
envelope = record { target = grain_k.full_path; sender = []; msg_name = 109 ∷ []; content = [] }

abbrev nowhere : ResolvedRoute
nowhere = record { address = []; stream = none }

-- Node 2 has joined and hosts the kind alone.
abbrev node_2 : NodeState
node_2 = record { node_id = 2; address = 110 ∷ 50 ∷ []; version = []; time = []; kinds = kind ∷ [] }

abbrev registry : Items Bytes ℕ
registry = (grain_k.full_path, 3) ∷ []

cluster_member_changed-by_routing_example :
    cluster_member_changed (node_2 ∷ []) here.addr registry
    ≡ sent_elsewhere (node_2 ∷ []) here.addr registry
unfolding new_cluster_actor_ref new_actor_ref_from_aid parse_cache is_direct is_cluster
cluster_member_changed-by_routing_example =
    cluster_member_changed-by_routing (node_2 ∷ []) here.addr registry (refl, tt)

-- A spawn under the name "b" and one under a generated id, with the default options, where "b" is free.
spawns-Reached_example :
    (let ref = λ (n : Bytes). new_direct_actor_ref (new_opts 7 []).kind n here.addr in
      (((e : NameError) × (validate_name (98 ∷ []) ≡ some e)
          × (spawn_named here 7 (98 ∷ []) [] ≡ (here, invalid_name e)))
        ⊎ (Taken here (ref (98 ∷ [])) (spawn_named here 7 (98 ∷ []) []) name_exists
            ⊎ Reached here
                (ref (98 ∷ []))
                (spawn_named here 7 (98 ∷ []) [])
                nowhere
                (other 1)
                none))
      × (Taken here (ref (format_uint 12)) (spawn here 7 12 []) panicked
          ⊎ Reached here (ref (format_uint 12)) (spawn here 7 12 []) nowhere (other 1) none))
unfolding new_opts apply_kind_opts validate_name
spawns-Reached_example =
    spawns-Reached here 7 [] nowhere (other 1) none (98 ∷ []) 12 refl refl refl refl

-- The grain does not run here, and no member hosts its kind.
poison_ref-BuildsNoActor_example :
    (let route = fresh_route here.addr [] grain_k in
      ((p : ℕ) × (items_get here.registry grain_k.full_path ≡ some p)
        × (poison_ref here route grain_k ≡ (here, signal p)))
      ⊎ ((effects : List Effect) × (items_get here.registry grain_k.full_path ≡ none)
          × ((poison_ref here route grain_k).1 ≡ told effects)
          × Accounted grain_k poison none effects
          × BuildsNoActor here route (poison_ref here route grain_k).0))
poison_ref-BuildsNoActor_example = poison_ref-BuildsNoActor here [] grain_k
