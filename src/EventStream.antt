-- ===== src/EventStream.antt =====
-- event_stream.go and system_eventstream.go, over al/safemap/rwmap.go: which actors of a node an event
-- goes to, and which nodes. The provider's calls can fail, which is an argument. A Go map is an
-- association list; a `Range` over one is in its order.
pub mod Key
pub mod Entries
pub mod Delivery
pub mod Listed
pub mod Follow
mod Tests
use grain.Base.{
  ℕ, zero, suc, ◌+◌, ◌-◌, ◌^◌, Bool, true, false, not, ◌&&◌, ◌||◌, Option, none, some, List, [],
  ◌∷◌, ◌++◌, map, nat_eqb, leb, if◌then◌else◌, Bytes, ◌==◌, bytes_comparable, nat_comparable, drop,
  take,
}
use grain.Base.Decimal.{format_uint, parse_uint}
use grain.Base.Maybe.{maybe, ◌>>=◌}
use grain.ActorId.{slash, index_byte, ActorId, new_actor_ref_from_aid}
use grain.SafeMap.{Items, items_get, items_set, items_delete}
use grain.Routes.{EventType, put_event, delete_event}

-- `RWMap.GetOrCreate` with the empty map for a new one
abbrev pub get_or_create : {V : Type 0} → Items Bytes (Items ℕ V) → Bytes → Items ℕ V
get_or_create m key = maybe [] (λ actors. actors) (items_get m key)

-- `eventStream`; `self` is its own reference.
pub record EventStream : Type 0 where
  pub self : ActorId
  pub node_id : ℕ
  pub event_stream_prefix : Bytes
  pub event_stream_maps : Items Bytes (Items ℕ ActorId)
  pub sub : Items Bytes (Items Bytes ActorId)

-- `newEventStream`
unfoldable pub new_event_stream : ActorId → ℕ → Bytes → EventStream
new_event_stream self node_id event_stream_prefix = record {
  self = self;
  node_id = node_id;
  event_stream_prefix = event_stream_prefix;
  event_stream_maps = [];
  sub = [];
}

-- What it asks of the provider, and of the system.
pub data Effect : Type 0 where
  register : (path val : Bytes) → Effect
  unregister : (path : Bytes) → Effect
  tell : ActorId → (event_name : Bytes) → Effect

-- `strings.ReplaceAll(s, "//", "/")`
abbrev pub replace_double : Bytes → Bytes
replace_double [] = []
replace_double (b ∷ []) = b ∷ []
replace_double (b ∷ c ∷ s) =
    let found = replace_double s in
    let skipped = replace_double (c ∷ s) in
    if nat_eqb b slash && nat_eqb c slash then slash ∷ found else b ∷ skipped

-- `strings.SplitN(s, "/", n + 1)`
abbrev pub split_n : ℕ → Bytes → List Bytes
split_n zero s = s ∷ []
split_n (suc n) s = maybe (s ∷ []) (λ i. take i s ∷ split_n n (drop (i + 1) s)) (index_byte s slash)

-- `strings.TrimPrefix(s, "/")`
abbrev pub trim_prefix : Bytes → Bytes
trim_prefix [] = []
trim_prefix (b ∷ s) = if nat_eqb b slash then s else b ∷ s

-- `strconv.Atoi` and the conversion of its result to uint64, which wraps; '-' is 45 and '+' is 43.
abbrev pub atoi_uint64 : Bytes → Option ℕ
atoi_uint64 [] = none
atoi_uint64 (b ∷ s) =
    if nat_eqb b 45
    then parse_uint (2 ^ 63 + 1) s >>= (λ n. some (if nat_eqb n 0 then 0 else 2 ^ 64 - n))
    else if nat_eqb b 43
    then parse_uint (2 ^ 63) s
    else parse_uint (2 ^ 63) (b ∷ s)

-- "event_stream", and `getEventStreamWatchPath`, the prefix of every event stream of a cluster
abbrev pub event_stream_watch_name : Bytes
event_stream_watch_name = 101 ∷ 118 ∷ 101 ∷ 110 ∷ 116 ∷ 95 ∷ 115 ∷ 116 ∷ 114 ∷ 101 ∷ 97 ∷ 109 ∷ []

abbrev pub get_event_stream_watch_path : Bytes → Bytes
get_event_stream_watch_path cluster_name =
    slash ∷ (cluster_name ++ (slash ∷ (event_stream_watch_name ++ (slash ∷ []))))

pub get_event_name_path : EventStream → Bytes → Bytes
get_event_name_path x event_name =
    replace_double
      (x.event_stream_prefix ++ (slash ∷ (event_name ++ (slash ∷ format_uint x.node_id))))

pub register_event_stream : Bool → EventStream → Bytes → EventStream × List Effect
register_event_stream ok x event_name = (
  if ok
      then record x {
        event_stream_maps =
            items_set x.event_stream_maps event_name
              (items_set (get_or_create x.event_stream_maps event_name) x.node_id x.self);
      }
      else x,
  register (get_event_name_path x event_name) x.self.full_path ∷ [],
)

pub unregister_event_stream : Bool → EventStream → Bytes → EventStream × List Effect
unregister_event_stream ok x event_name = (
  if ok
      then maybe x
          (λ actors. record x {
            event_stream_maps =
                items_set x.event_stream_maps event_name (items_delete actors x.node_id);
          })
          (items_get x.event_stream_maps event_name)
      else x,
  unregister (get_event_name_path x event_name) ∷ [],
)

-- the write at the end of `subscribe`
abbrev pub add_subscriber : EventStream → Bytes → Bytes → Items Bytes ActorId → EventStream
add_subscriber x event_name actor_id actors = record x {
  sub = items_set x.sub event_name (items_set actors actor_id (new_actor_ref_from_aid actor_id));
}

pub subscribe : Bool → EventStream → (event_name actor_id : Bytes) → EventStream × List Effect
subscribe ok x event_name actor_id =
    maybe
      (let (x', effects) = register_event_stream ok x event_name in
        (add_subscriber x' event_name actor_id [], effects))
      (λ actors. (add_subscriber x event_name actor_id actors, [])) (items_get x.sub event_name)

-- what `unsubscribe` does once the actor is found among `actors`
abbrev pub remove_subscriber :
    Bool → EventStream → Bytes → Items Bytes ActorId → EventStream × List Effect
remove_subscriber ok x event_name [] =
    unregister_event_stream ok (record x { sub = items_delete x.sub event_name }) event_name
remove_subscriber ok x event_name (a ∷ actors) =
    (record x { sub = items_set x.sub event_name (a ∷ actors) }, [])

pub unsubscribe : Bool → EventStream → (event_name actor_id : Bytes) → EventStream × List Effect
unsubscribe ok x event_name actor_id =
    maybe (x, [])
      (λ (actors : Items Bytes ActorId).
        maybe (x, []) (λ _. remove_subscriber ok x event_name (items_delete actors actor_id))
          (items_get actors actor_id))
      (items_get x.sub event_name)

abbrev pub tell_all : {K : Type 0} → Bytes → Items K ActorId → List Effect
tell_all event_name [] = []
tell_all event_name ((k, ref) ∷ actors) = tell ref event_name ∷ tell_all event_name actors

pub broadcast_publish : EventStream → Bytes → List Effect
broadcast_publish x event_name =
    maybe [] (λ actors. tell_all event_name actors) (items_get x.event_stream_maps event_name)

pub on_publish : EventStream → Bytes → List Effect
on_publish x event_name =
    maybe [] (λ actors. tell_all event_name actors) (items_get x.sub event_name)

-- what the update of a watched entry does; `none` is an error
abbrev pub apply_entry : EventStream → EventType → Bytes → ℕ → Bytes → Option EventStream
apply_entry x delete_event event_name node_id value = some (
    maybe x
      (λ actors. record x {
        event_stream_maps = items_set x.event_stream_maps event_name (items_delete actors node_id);
      })
      (items_get x.event_stream_maps event_name))
apply_entry x put_event event_name node_id value =
    let ref = new_actor_ref_from_aid value in
    if ref.cache_parse.kind == [] || ref.cache_parse.name == []
    then none
    else some (record x {
      event_stream_maps =
          items_set x.event_stream_maps event_name
            (items_set (get_or_create x.event_stream_maps event_name) node_id ref);
    })

-- the parts of a key
abbrev pub with_parts : EventStream → EventType → Bytes → List Bytes → Option EventStream
with_parts x op value (c ∷ s ∷ event_name ∷ id ∷ []) =
    atoi_uint64 id >>= (λ node_id. apply_entry x op event_name node_id value)
with_parts x op value _ = none

pub parse_watch_event_stream : EventStream → EventType → (key value : Bytes) → Option EventStream
parse_watch_event_stream x op key value = with_parts x op value (split_n 3 (trim_prefix key))

-- What comes to the event stream: `Subscribe`, `Unsubscribe`, `PublishGlobal` and `PublishLocal` of
-- the system, an event by the name of its message.
pub data Request : Type 0 where
  subscribe_to unsubscribe_from : (event_name actor_id : Bytes) → Request
  publish_global publish_local : (event_name : Bytes) → Request

-- `Receive`
pub receive : Bool → EventStream → Request → EventStream × List Effect
receive ok x (subscribe_to e a) = subscribe ok x e a
receive ok x (unsubscribe_from e a) = unsubscribe ok x e a
receive ok x (publish_global e) = (x, broadcast_publish x e)
receive ok x (publish_local e) = (x, on_publish x e)
