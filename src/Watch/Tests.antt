-- ===== src/Watch/Tests.antt =====
-- A short history of three nodes, the watch of a node that starts in it, and the theorems there.
use grain.Base.{
  ℕ, ◌-◌, ◌≡◌, refl, inl, inr, true, false, Option, none, some, List, [], ◌∷◌, append-nil,
  if◌then◌else◌, drop, Bytes, ==_cases, ==_self, subst, bytes_comparable, Bool-cases,
}
use grain.Base.Maybe.{◌>>=◌}
use grain.Base.Decimal.{digits}
use grain.AddrHash.{NodeState}
use grain.Routes.{Provider, put_event, delete_event, parse_watch, apply_member_locked}
use grain.Routes.Fresh.{Published}
use grain.SafeMap.Iter.Kept.{to_list, values}
use grain.Node.{get_member_path}
use grain.Watch.{
  Event, Response, events, terminated, Got, Effect, get_member_prefix, start_table, load_members,
  watch_members, watch_loop, watch_event_stream, watch_node_ext_data, get_node_ext_data,
  get_member_ext_data_path, keep_alive,
}
use grain.Watch.History.{state_of, concat, has_prefix, under, GotAll, Watched}
use grain.Watch.Table.{reading}
use grain.Watch.Follow.{Act, reload, claim}
use grain.Base.Maybe.{maybe}
use grain.Watch.Members.{start_members, start_members-follow}
use grain.Watch.Loss.{changes, stops, batches, is_lost, must_stop, watch_members-ForceStop}

abbrev cluster : Bytes
cluster = 103 ∷ []

abbrev unmarshal : Bytes → Option NodeState
unmarshal (id ∷ []) =
    some (record { node_id = id; address = 97 ∷ []; version = []; time = []; kinds = [] })
unmarshal _ = none

abbrev written_by : ℕ → Bytes → Event
written_by id value = record {
  event_type = put_event;
  key = get_member_path cluster id;
  value = value;
}

abbrev gone : ℕ → Event
gone id = record { event_type = delete_event; key = get_member_path cluster id; value = [] }

-- Node 1 is there when node 2 starts; node 2 claims its id, then node 1 leaves.
abbrev history : List (List Event)
history = (written_by 1 (1 ∷ []) ∷ []) ∷ (written_by 2 (2 ∷ []) ∷ []) ∷ (gone 1 ∷ []) ∷ []

abbrev got : Got
got = record { revision = 1; kvs = (get_member_path cluster 1, 1 ∷ []) ∷ [] }

abbrev watch : ℕ → List Response
watch start = events (under (get_member_prefix cluster) (concat (drop (start - 1) history))) ∷ []

abbrev before : Provider
before = record { local_provider_version = 0; node_map = []; nodes = none }

abbrev acts : List Act
acts = reload got.kvs ∷ claim 2 (2 ∷ []) ∷ []

path_1 : has_prefix (get_member_prefix cluster) (get_member_path cluster 1) ≡ true
unfolding get_member_prefix get_member_path
path_1 = refl

got-GotAll : GotAll (get_member_prefix cluster) (written_by 1 (1 ∷ []) ∷ []) got.kvs
got-GotAll key = elim (==_cases (get_member_path cluster 1) key) [
  | inl same ↦
      subst
        (λ key. values key got.kvs ≡ (
          if has_prefix (get_member_prefix cluster) key
          then to_list (state_of (written_by 1 (1 ∷ []) ∷ []) key)
          else []))
        same (rw (path_1, ==_self (get_member_path cluster 1)) refl)
  | inr other ↦ elim (Bool-cases (has_prefix (get_member_prefix cluster) key)) [
    | inl p ↦ rw (other, p) refl
    | inr p ↦ rw (other, p) refl
  ]
]

watch-Watched : Watched (get_member_prefix cluster) history watch
watch-Watched start =
    append-nil (under (get_member_prefix cluster) (concat (drop (start - 1) history)))

start_members-follow_example :
    (out : Provider × List Effect) × (start_members cluster unmarshal false false false true
        (some got)
        acts
        watch
        before
      ≡ some out)
    × (reading out.0 2 ≡ (state_of (concat history) (get_member_path cluster 2) >>= unmarshal))
    × Published out.0
unfolding get_member_prefix get_member_path digits
start_members-follow_example =
    start_members-follow cluster unmarshal false false false true got acts watch before history 2
      (got-GotAll, ((1, refl), tt))
      (
        ([], concat (drop 1 history), refl, (got-GotAll, ((1, refl), tt))),
        ((some (2 ∷ []), refl), tt),
      )
      watch-Watched ((2, refl), ((1, refl), tt))

abbrev reading_after : ℕ → Option NodeState
reading_after id =
    maybe none (λ (out : Provider × List Effect). reading out.0 id)
      (start_members cluster unmarshal false false false true (some got) acts watch before)

-- The member 2 is in the table, 1 is not.
table_follows : (reading_after 1 ≡ none) × (reading_after 2 ≡ unmarshal (2 ∷ []))
unfolding get_member_prefix get_member_path start_members load_members watch_members watch_loop
    parse_watch apply_member_locked digits start_table
table_follows = (refl, refl)

-- A watch that fails after one batch, on a node that is not stopping.
abbrev failing : ℕ → List Response
failing start = events (gone 1 ∷ []) ∷ terminated ∷ []

watch_members-ForceStop_example :
    (let done = (watch_members unmarshal true false false true failing 3 before).1 in
      (changes done ≡ batches (failing 4))
      × (stops done ≡ must_stop (is_lost true (failing 4)) false false true)
      × (stops (keep_alive false true 2 true) ≡ must_stop true false false true))
watch_members-ForceStop_example =
    watch_members-ForceStop unmarshal true false false true failing 3 before 2

one_stop : must_stop (is_lost true (failing 4)) false false true ≡ 1
one_stop = refl

stream_calls :
    watch_event_stream (some got) watch
    ≡ some (written_by 1 (1 ∷ []) ∷ written_by 2 (2 ∷ []) ∷ gone 1 ∷ [])
unfolding watch_event_stream get_member_prefix get_member_path
stream_calls = refl

-- A deleted key comes as one with an empty value.
ext_calls :
    watch_node_ext_data (some got) watch
    ≡ some (
        (get_member_path cluster 1, 1 ∷ [])
        ∷ (get_member_path cluster 2, 2 ∷ [])
        ∷ (get_member_path cluster 1, [])
        ∷ [])
unfolding watch_node_ext_data get_member_prefix get_member_path
ext_calls = refl

ext_value : get_node_ext_data (some got) ≡ some (1 ∷ [])
unfolding get_node_ext_data
ext_value = refl

-- Two nodes have keys of their own, and a watch has the prefix of both.
ext_paths :
    has_prefix
      (get_member_ext_data_path cluster (120 ∷ []) none)
      (get_member_ext_data_path cluster (120 ∷ []) (some 7))
    ≡ true
unfolding get_member_ext_data_path
ext_paths = refl
