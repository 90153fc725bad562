-- ===== src/Watch.antt =====
-- provider_etcd.go, what a node follows in etcd: the member table from start on, the entries of the
-- event stream, the ext data of nodes, and its own lease. The answers of etcd are arguments.
-- A watch is the list of the responses on its channel, and whether the channel is closed after them.
pub mod History
pub mod Table
pub mod Follow
pub mod Members
pub mod Loss
mod Tests
use grain.Base.{
  ℕ, zero, suc, ◌+◌, Bool, true, false, not, ◌&&◌, Option, none, some, List, [], ◌∷◌, ◌++◌, map,
  nat_eqb, if◌then◌else◌, Bytes,
}
use grain.Base.Decimal.{format_uint}
use grain.Base.Maybe.{maybe}
use grain.ActorId.{slash}
use grain.AddrHash.{NodeState}
use grain.Node.{member_segment}
use grain.Routes.{
  Provider, EventType, put_event, delete_event, apply_members, parse_watch, publish_nodes_locked,
  get_nodes,
}

-- `clientv3.Event`
pub record Event : Type 0 where
  pub event_type : EventType
  pub key : Bytes
  pub value : Bytes

-- `clientv3.WatchResponse`: events, or one with `Err()` set
pub data Response : Type 0 where
  events : List Event → Response
  terminated : Response

-- `clientv3.GetResponse`: the revision of the snapshot, and its keys with their values
pub record Got : Type 0 where
  pub revision : ℕ
  pub kvs : List (Bytes × Bytes)

-- What the provider tells the system.
pub data Effect : Type 0 where
  -- `clusterMemberChangedListener`, with what `GetNodes` gives then
  member_changed : List NodeState × ℕ → Effect
  force_stop : Effect

-- `getMemberPrefix`
unfoldable pub get_member_prefix : Bytes → Bytes
get_member_prefix cluster_name =
    slash ∷ (cluster_name ++ (slash ∷ (member_segment ++ (slash ∷ []))))

-- `start` up to the client: a table with no members
unfoldable pub start_table : Provider → Provider
start_table x = publish_nodes_locked (record x { local_provider_version = 1; node_map = [] })

-- `stopping` is read once more by `stopSystemOnWatchLoss` after the caller's test.
abbrev pub stop_system_on_watch_loss : (stopping has_system : Bool) → List Effect
stop_system_on_watch_loss stopping has_system =
    if stopping then [] else if has_system then force_stop ∷ [] else []

-- what the goroutine of a watch of the members ends with; `stopping` and `stopping'` are the two reads
abbrev pub watch_lost : (stopping stopping' has_system : Bool) → List Effect
watch_lost stopping stopping' has_system =
    if stopping then [] else stop_system_on_watch_loss stopping' has_system

module _ (unmarshal : Bytes → Option NodeState) where
  -- `loadMembers`; `none` is an error of etcd
  unfoldable pub load_members : Option Got → Provider → Option (Provider × ℕ)
  load_members rsp x =
      maybe none
        (λ (got : Got).
          some (publish_nodes_locked (apply_members unmarshal got.kvs x), got.revision))
        rsp

  abbrev pub parse_events : List Event → Provider → Provider
  parse_events [] x = x
  parse_events (kv ∷ kvs) x =
      parse_events kvs (parse_watch unmarshal kv.event_type kv.key kv.value x)

  -- `closed`: whether the channel ends; `stopping` and `stopping'`: the two reads of it then
  module _ (closed stopping stopping' has_system : Bool) where
    -- the goroutine of `watchMembers`, with what it has done before
    unfoldable pub watch_loop : List Response → Provider → List Effect → Provider × List Effect
    watch_loop [] x effects =
        (x, effects ++ (if closed then watch_lost stopping stopping' has_system else []))
    watch_loop (terminated ∷ wch) x effects =
        (x, effects ++ watch_lost stopping stopping' has_system)
    watch_loop (events kvs ∷ wch) x effects =
        let x' = parse_events kvs x in
        watch_loop wch x' (effects ++ (member_changed (get_nodes x') ∷ []))

    -- `watchMembers`; `watch` is etcd's watch of the member prefix from a revision on
    unfoldable pub watch_members :
        (watch : ℕ → List Response) → (rev : ℕ) → Provider → Provider × List Effect
    watch_members watch rev x = watch_loop (watch (rev + 1)) x []

-- the goroutine of `keepAlive`: each answer of etcd is dropped, until the channel is closed
pub keep_alive : (stopping has_system : Bool) → (answers : ℕ) → (closed : Bool) → List Effect
keep_alive stopping has_system zero closed =
    if closed && not stopping && has_system then force_stop ∷ [] else []
keep_alive stopping has_system (suc answers) closed = keep_alive stopping has_system answers closed

-- the events that the goroutine of a watch gets to, up to the end or the loss of its channel
abbrev pub call_responses : List Response → List Event
call_responses [] = []
call_responses (terminated ∷ wch) = []
call_responses (events kvs ∷ wch) = kvs ++ call_responses wch

abbrev pub as_puts : List (Bytes × Bytes) → List Event
as_puts [] = []
as_puts ((key, value) ∷ kvs) =
    record { event_type = put_event; key = key; value = value } ∷ as_puts kvs

-- `watchEventStream`: the calls of `f`, which gets the kind of an event with its key and value
unfoldable pub watch_event_stream : Option Got → (watch : ℕ → List Response) → Option (List Event)
watch_event_stream rsp watch =
    maybe none (λ (got : Got). some (as_puts got.kvs ++ call_responses (watch (got.revision + 1))))
      rsp

-- "member_ext"
abbrev pub member_ext_segment : Bytes
member_ext_segment = 109 ∷ 101 ∷ 109 ∷ 98 ∷ 101 ∷ 114 ∷ 95 ∷ 101 ∷ 120 ∷ 116 ∷ []

-- `getMemberExtDataPath`; no id is that of a watch of all nodes
pub get_member_ext_data_path : Bytes → Bytes → Option ℕ → Bytes
get_member_ext_data_path cluster_name sub_key id =
    let path = slash ∷ (cluster_name ++ (slash ∷ (member_ext_segment ++ (slash ∷ sub_key)))) in
    maybe path (λ n. if nat_eqb n 0 then path else path ++ (slash ∷ format_uint n)) id

abbrev pub with_key : Event → Bytes × Bytes
with_key kv = (kv.key, kv.value)

-- `WatchNodeExtData`: the calls of `f`, which is not told whether a key was deleted
pub watch_node_ext_data : Option Got → (watch : ℕ → List Response) → Option (List (Bytes × Bytes))
watch_node_ext_data rsp watch =
    maybe none
      (λ (got : Got). some (got.kvs ++ map with_key (call_responses (watch (got.revision + 1)))))
      rsp

abbrev pub first_value : List (Bytes × Bytes) → Bytes
first_value [] = []
first_value (kv ∷ kvs) = kv.1

-- `GetNodeExtData`; the empty text where there is no such key
pub get_node_ext_data : Option Got → Option Bytes
get_node_ext_data rsp = maybe none (λ (got : Got). some (first_value got.kvs)) rsp
