-- ===== src/Node.antt =====
-- provider_etcd.go, the claim of a node id: register with freeNodeIds and loadMembers;
-- and the member keys of config.go. etcd, JSON and the random
-- choice are parameters. The leases behind member keys are taken to last.
pub mod Ids
pub mod Claim
pub mod Unique
mod Tests
use grain.Base.{
  ℕ, zero, suc, ◌+◌, Bool, true, false, ◌&&◌, not, Option, none, some, List, [], ◌∷◌, ◌++◌, nat_eqb,
  if◌then◌else◌, get_or, length, Bytes, bytes_comparable,
}
use grain.Base.Decimal.{format_uint}
use grain.Base.Maybe.{maybe}
use grain.ActorId.{slash}
use grain.AddrHash.{NodeState}
use grain.Uuid.{node_max}
use grain.SafeMap.{items_get}
use grain.Routes.{Provider, put_event, apply_members, parse_watch, publish_nodes_locked}
use grain.Activation.{Etcd, set_txn}

-- "member"
abbrev pub member_segment : Bytes
member_segment = 109 ∷ 101 ∷ 109 ∷ 98 ∷ 101 ∷ 114 ∷ []

unfoldable pub get_member_path : Bytes → ℕ → Bytes
get_member_path cluster_name id =
    slash ∷ (cluster_name ++ (slash ∷ (member_segment ++ (slash ∷ format_uint id))))

-- the loop of `freeNodeIds`, `count` ids from `id` on
abbrev pub free_from : Provider → (count id : ℕ) → List ℕ
free_from x zero id = []
free_from x (suc count) id =
    let rest = free_from x count (id + 1) in
    maybe (id ∷ rest) (λ _. rest) (items_get x.node_map (format_uint id))

pub free_node_ids : Provider → List ℕ
free_node_ids x = free_from x node_max 1

abbrev pub register_rounds : ℕ
register_rounds = 16

-- What `register` ends with.
pub data Registration : Type 0 where
  registered : (id : ℕ) → Registration
  all_in_use load_failed lost_race : Registration

-- a node that registers: its member table, and `config.state` once it has been set
pub record Node : Type 0 where
  pub provider : Provider
  pub state : Option NodeState

-- The parameters: the node's name for JSON, a Get of all members, which can fail, and
-- `rand.IntN` and the time, which go by the round.
module _ (etcd : Etcd) (marshal : NodeState → Bytes) (unmarshal : Bytes → Option NodeState)
    (get_members : etcd.Store → Option (List (Bytes × Bytes))) (rand : ℕ → ℕ → ℕ) (now : ℕ → Bytes)
    (cluster_name version : Bytes) (kinds : List Bytes) (addr : Bytes) where
  -- `config.init`
  abbrev pub config_init : (round id : ℕ) → NodeState
  config_init round id = record {
    node_id = id;
    address = addr;
    version = version;
    time = now round;
    kinds = kinds;
  }

  pub load_members : etcd.Store → Provider → Option Provider
  load_members s x =
      maybe none (λ kvs. some (publish_nodes_locked (apply_members unmarshal kvs x)))
        (get_members s)

  -- one round of `register`, with `round` for the random choice; no result means that it goes on
  pub register_round : (round : ℕ) → etcd.Store → Node → etcd.Store × Node × Option Registration
  register_round round s x =
      let free = free_node_ids x.provider in
      let id = get_or free (rand round (length free)) 0 in
      let state = config_init round id in
      let key = get_member_path cluster_name id in
      let (s', ok) = set_txn etcd s key (marshal state) in
      if nat_eqb (length free) 0
      then (s, x, some all_in_use)
      else if ok
      then (
        s',
        record {
          provider = parse_watch unmarshal put_event key (marshal state) x.provider;
          state = some state;
        },
        some (registered id),
      )
      else maybe (s', record x { state = some state }, some load_failed)
          (λ provider. (s', record { provider = provider; state = some state }, none))
          (load_members s' x.provider)

  -- `register` with `n` rounds to go
  pub register : ℕ → etcd.Store → Node → etcd.Store × Node × Registration
  register zero s x = (s, x, lost_race)
  register (suc n) s x =
      let (s', x', result) = register_round n s x in
      let rest = register n s' x' in maybe rest (λ r. (s', x', r)) result
