-- ===== src/EventStream/Tests.antt =====
-- Requests to an event stream, a key of a node, and the theorems there.
use grain.Base.{
  ℕ, ◌-◌, ◌≡◌, refl, ◌≢◌, inl, inr, Bool, true, false, some, List, [], ◌∷◌, ◌++◌, All, Bytes,
  append-nil, drop, if◌then◌else◌, ==_cases, ==_self, Bool-cases, subst, bytes_comparable, arith,
}
use grain.Routes.{put_event, delete_event}
use grain.SafeMap.Iter.Kept.{to_list, values}
use grain.Watch.{Event, Response, events, Got, as_puts, call_responses, watch_event_stream}
use grain.Watch.History.{state_of, concat, has_prefix, under, GotAll, Watched}
use grain.EventStream.Listed.{listed, ref_of}
use grain.EventStream.Listed.Calls.{entry_path, IsEntry}
use grain.EventStream.Follow.{started, Tells, started-follow}
use grain.Base.Decimal.{digits}
use grain.ActorId.{parse_cache, new_actor_ref_from_aid}
use grain.EventStream.{
  EventStream, Request, subscribe_to, unsubscribe_from, publish_local, on_publish, new_event_stream,
  get_event_name_path, broadcast_publish, tell, parse_watch_event_stream,
  get_event_stream_watch_path,
}
use grain.EventStream.Entries.{told}
use grain.EventStream.Delivery.{wanted, run, publish_reaches}

-- the event stream of node 12 in the cluster "c"
abbrev stream : EventStream
stream = record {
  self = new_actor_ref_from_aid (115 ∷ []);
  node_id = 12;
  event_stream_prefix = get_event_stream_watch_path (99 ∷ []);
  event_stream_maps = [];
  sub = [];
}

-- Two actors subscribe, one of them leaves; the provider fails once.
abbrev requests : List (Request × Bool)
requests =
    (subscribe_to (101 ∷ []) (97 ∷ []), false)
    ∷ (subscribe_to (101 ∷ []) (98 ∷ []), true)
    ∷ (unsubscribe_from (101 ∷ []) (97 ∷ []), true)
    ∷ (publish_local (101 ∷ []), true)
    ∷ []

publish_reaches_example :
    told (98 ∷ []) (on_publish (run stream requests) (101 ∷ []))
    ≡ wanted (101 ∷ []) (98 ∷ []) 0 requests
publish_reaches_example = publish_reaches requests stream (101 ∷ []) (98 ∷ []) refl

c_is_a_name : ◌≢◌ {A = Bytes} (99 ∷ []) []
c_is_a_name e = cc

-- "d/k/n@a" and "d/k/m@b", the event streams of the nodes 1 and 2
abbrev first_stream : Bytes
first_stream = 100 ∷ 47 ∷ 107 ∷ 47 ∷ 110 ∷ 64 ∷ 97 ∷ []

abbrev second_stream : Bytes
second_stream = 100 ∷ 47 ∷ 107 ∷ 47 ∷ 109 ∷ 64 ∷ 98 ∷ []

abbrev cluster : Bytes
cluster = 99 ∷ []

abbrev prefix : Bytes
prefix = get_event_stream_watch_path cluster

abbrev put_by : ℕ → Bytes → Event
put_by n aid = record { event_type = put_event; key = entry_path cluster (101 ∷ []) n; value = aid }

abbrev left : ℕ → Event
left n = record { event_type = delete_event; key = entry_path cluster (101 ∷ []) n; value = [] }

-- Node 1 is there when the stream starts; node 2 comes and node 1 leaves.
abbrev history : List (List Event)
history = (put_by 1 first_stream ∷ []) ∷ (put_by 2 second_stream ∷ []) ∷ (left 1 ∷ []) ∷ []

abbrev got : Got
got = record { revision = 1; kvs = (entry_path cluster (101 ∷ []) 1, first_stream) ∷ [] }

abbrev watch : ℕ → List Response
watch start = events (under prefix (concat (drop (start - 1) history))) ∷ []

path_1 : has_prefix prefix (entry_path cluster (101 ∷ []) 1) ≡ true
unfolding get_event_name_path new_event_stream
path_1 = refl

got-GotAll : GotAll prefix (put_by 1 first_stream ∷ []) got.kvs
got-GotAll key = elim (==_cases (entry_path cluster (101 ∷ []) 1) key) [
  | inl same ↦
      subst
        (λ key. values key got.kvs ≡ (
          if has_prefix prefix key
          then to_list (state_of (put_by 1 first_stream ∷ []) key)
          else []))
        same (rw (path_1, ==_self (entry_path cluster (101 ∷ []) 1)) refl)
  | inr other ↦ elim (Bool-cases (has_prefix prefix key)) [
    | inl p ↦ rw (other, p) refl
    | inr p ↦ rw (other, p) refl
  ]
]

watch-Watched : Watched prefix history watch
watch-Watched start = append-nil (under prefix (concat (drop (start - 1) history)))

entries : All (IsEntry cluster) (as_puts got.kvs ++ call_responses (watch 2))
unfolding get_event_name_path new_event_stream new_actor_ref_from_aid parse_cache
entries = (
  (101 ∷ [], 1, refl, refl, omega arith, refl),
  (
    (101 ∷ [], 2, refl, refl, omega arith, refl),
    ((101 ∷ [], 1, refl, refl, omega arith, refl), tt),
  ),
)

started-follow_example :
    let (x, poisons) =
      started (new_event_stream (new_actor_ref_from_aid first_stream) 3 prefix) (some got) watch in
    let held = state_of (concat history) (entry_path cluster (101 ∷ []) 2) in
    (poisons ≡ false)
    × (listed x (101 ∷ []) 2 ≡ ref_of held)
    × All
        (λ aid. Tells (new_actor_ref_from_aid aid) (101 ∷ []) (broadcast_publish x (101 ∷ [])))
        (to_list held)
started-follow_example =
    started-follow (new_actor_ref_from_aid first_stream) 3 cluster got watch history (101 ∷ []) 2
      c_is_a_name refl refl (omega arith) got-GotAll watch-Watched entries

-- Only node 2 is told.
told_second :
    broadcast_publish
      (started (new_event_stream (new_actor_ref_from_aid first_stream) 3 prefix) (some got) watch).0
      (101 ∷ [])
    ≡ tell (new_actor_ref_from_aid second_stream) (101 ∷ []) ∷ []
unfolding get_event_name_path new_event_stream started watch_event_stream parse_watch_event_stream
    broadcast_publish parse_cache new_actor_ref_from_aid digits
told_second = refl
