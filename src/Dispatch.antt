-- ===== src/Dispatch.antt =====
-- system.go and ensureClusterKindActorExist of system_cluster.go: what becomes of a message that is
-- sent. The route of a target is what Routes gives. Mailboxes and streams are behind their process,
-- a number here; an error told to a sender is listed, and is a message of its own.
pub mod Account
pub mod Receive
pub mod Cluster
pub mod Named
pub mod Control
mod Tests
use grain.Base.{
  ℕ, suc, ◌+◌, Bool, true, false, not, ◌&&◌, Option, none, some, List, [], ◌∷◌, ◌++◌, if◌then◌else◌,
  Bytes, ◌==◌, bytes_comparable,
}
use grain.Base.Maybe.{maybe}
use grain.Base.Order.{contains}
use grain.ActorId.{ActorId, is_direct, is_cluster, is_ask}
use grain.Routes.{ResolvedRoute}
use grain.SafeMap.{Items, items_get, items_set}

-- What the routing tells apart: the poison message, and every other.
pub data Message : Type 0 where
  poison : Message
  other : ℕ → Message

pub data Reason : Type 0 where
  not_found no_owner : Reason

pub data Effect : Type 0 where
  send_to : (process : ℕ) (target : ActorId) → Message → Effect
  -- a call of `deliverReply`, which finds the Ask or drops the reply of one that is over
  deliver_reply : (name : Bytes) → Message → Effect
  tell_error : (sender : ActorId) → Reason → Effect
  dead_letter : (target : ActorId) → Message → Reason → Effect

-- The part of `system` that routing uses. `next_process` numbers the next process built.
pub record System : Type 0 where
  pub registry : Items Bytes ℕ
  pub addr : Bytes
  pub kinds : List Bytes
  pub draining : Bool
  pub next_process : ℕ

-- `getOrSpawnProcessor`, as one step
abbrev pub get_or_spawn : System → Bytes → System × ℕ
get_or_spawn x id =
    maybe
      (
        record x {
          registry = items_set x.registry id x.next_process;
          next_process = x.next_process + 1;
        },
        x.next_process,
      )
      (λ p. (x, p)) (items_get x.registry id)

-- `ensureClusterKindActorExist`, and what a lookup after it finds
pub ensure_cluster_kind_actor_exist : System → ActorId → System × Option ℕ
ensure_cluster_kind_actor_exist x ref =
    if x.draining
    then (x, none)
    else if not (contains x.kinds ref.cache_parse.kind)
    then (x, none)
    else (let (x', p) = get_or_spawn x ref.full_path in (x', some p))

-- the end of a send that found nobody
abbrev pub undeliverable : ActorId → Message → Option ActorId → Reason → List Effect
undeliverable target msg none reason = dead_letter target msg reason ∷ []
undeliverable target msg (some sender) reason =
    if is_ask sender
    then tell_error sender reason ∷ dead_letter target msg reason ∷ []
    else dead_letter target msg reason ∷ []

abbrev pub is_poison : Message → Bool
is_poison poison = true
is_poison (other n) = false

pub send_to_local : System → ActorId → Message → Option ActorId → System × List Effect
send_to_local x target msg sender =
    if is_ask target
    then (x, deliver_reply target.cache_parse.name msg ∷ [])
    else maybe
        (if is_poison msg
          then (x, [])
          else let (x', found) =
              if is_cluster target then ensure_cluster_kind_actor_exist x target else (x, none) in
            maybe (x', undeliverable target msg sender not_found)
              (λ p. (x', send_to p target msg ∷ [])) found)
        (λ p. (x, send_to p target msg ∷ [])) (items_get x.registry target.full_path)

-- The stream is that of a route to another node, which always has one.
pub send_to_remote : System → ResolvedRoute → ActorId → Message → System × List Effect
send_to_remote x route target msg =
    maybe (x, [])
      (λ (stream : ActorId).
        let (x', p) = get_or_spawn x stream.full_path in (x', send_to p target msg ∷ []))
      route.stream

-- The route is that of the target; no target is a nil one, which is logged.
pub tell_with_sender :
    System → ResolvedRoute → Option ActorId → Message → Option ActorId → System × List Effect
tell_with_sender x route none msg sender = (x, [])
tell_with_sender x route (some target) msg sender =
    if is_direct target
    then if target.cache_parse.direct_addr == x.addr
      then send_to_local x target msg sender
      else send_to_remote x route target msg
    else maybe
        (if route.address == []
          then (x, undeliverable target msg sender no_owner)
          else if route.address == x.addr
          then send_to_local x target msg sender
          else send_to_remote x route target msg)
        (λ p. (x, send_to p target msg ∷ [])) (items_get x.registry target.full_path)
