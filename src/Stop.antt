-- ===== src/Stop.antt =====
-- system_life.go, how a system stops, and what start and releaseEtcd of provider_etcd.go hold on to.
-- What the drain sees of the registry at each look, and the clock, are parameters; a look is one
-- turn of the loop of stopActorsImpl.
pub mod Lease
mod Tests
use grain.Base.{
  ℕ, zero, suc, ◌+◌, Bool, true, false, not, ◌&&◌, Option, none, some, List, [], ◌∷◌, ◌++◌, nat_eqb,
  leb, if◌then◌else◌,
}
use grain.Base.Maybe.{maybe, ◌>>=◌}

-- what `start` acquired: the cancel function of the keepalive, the client, and the lease, 0 for none
pub record Resources : Type 0 where
  pub cancel_func : Bool
  pub client : Bool
  pub lease_id : ℕ

-- What a system does as it stops, or gives up starting.
pub data Effect : Type 0 where
  before_quit after_quit : Effect
  poison : (process : ℕ) → Effect
  cancel_keep_alive : Effect
  revoke : (lease : ℕ) → Effect
  close_client : Effect
  stop_rpc : Effect

pub release_etcd : Bool → Resources → Resources × List Effect
release_etcd revoke_lease x = (
  record { cancel_func = false; client = false; lease_id = if x.client then 0 else x.lease_id },
  (if x.cancel_func then cancel_keep_alive ∷ [] else [])
      ++ ((if x.client && not (nat_eqb x.lease_id 0) && revoke_lease
            then revoke x.lease_id ∷ []
            else [])
          ++ (if x.client then close_client ∷ [] else [])),
)

-- how each call of `start` goes; `grant` is the lease
pub record Calls : Type 0 where
  pub new_client : Bool
  pub grant : Option ℕ
  pub keep_alive : Bool
  pub load_members : Bool
  pub register : Bool
  pub watch_members : Bool

-- the deferred clean-up of a start that failed
abbrev pub give_up : Resources → Resources × List Effect × Bool
give_up x = let (x', effects) = release_etcd true x in (x', effects, false)

-- `start`, with whether it returned without an error
pub start : Calls → Resources × List Effect × Bool
start calls =
    if not calls.new_client
    then (record { cancel_func = false; client = false; lease_id = 0 }, [], false)
    else maybe (give_up (record { cancel_func = false; client = true; lease_id = 0 }))
        (λ lease.
          let x : Resources = record { cancel_func = true; client = true; lease_id = lease } in
          if not calls.keep_alive
          then give_up x
          else if not calls.load_members
          then give_up x
          else if not calls.register
          then give_up x
          else if not calls.watch_members
          then give_up x
          else (x, [], true))
        calls.grant

-- a process, and `poisonFirstOnQuit` of its options where it has any
pub record Process : Type 0 where
  pub id : ℕ
  pub poison_first_on_quit : Option Bool

-- whether a phase of the drain has to do with a process
abbrev pub is_claimed : Bool → Process → Bool
is_claimed first v = not (first && maybe false not v.poison_first_on_quit)

abbrev pub left_of : Bool → List Process → List ℕ
left_of first [] = []
left_of first (v ∷ vs) =
    let rest = left_of first vs in if is_claimed first v then v.id ∷ rest else rest

abbrev pub poison_all : List ℕ → List Effect
poison_all [] = []
poison_all (p ∷ ps) = poison p ∷ poison_all ps

abbrev pub no_one : List ℕ → Bool
no_one [] = true
no_one (p ∷ ps) = false

-- the result of a drain: whether all stopped, the look at which it ended, what it did
pub record Drain : Type 0 where
  pub drained : Bool
  pub last_look : ℕ
  pub effects : List Effect

-- `look k` is the registry at the k-th look, `time k` the clock then, `wait` is stopWaitTimeSecond.
module _ (look : ℕ → List Process) (time : ℕ → ℕ) (wait : ℕ) where
  -- `stopActorsImpl` from look `k` on, with the deadline of its phase; `none` is out of fuel
  pub stop_actors_impl : (fuel : ℕ) (first : Bool) (deadline k : ℕ) → List Effect → Option Drain
  stop_actors_impl zero first deadline k effects = none
  stop_actors_impl (suc fuel) first deadline k effects =
      let left = left_of first (look k) in
      let effects' = effects ++ poison_all left in
      let rest = stop_actors_impl fuel first deadline (k + 1) effects' in
      if no_one left
      then some (record { drained = true; last_look = k; effects = effects' })
      else if leb deadline (time k)
      then some (record { drained = false; last_look = k; effects = effects' })
      else rest

  -- `stopActors`: the second phase runs however the first one ended
  pub stop_actors : ℕ → List Effect → Option Drain
  stop_actors fuel effects =
      stop_actors_impl fuel true (time 0 + wait) 0 effects >>= (λ (d : Drain).
        let k = d.last_look + 1 in
        stop_actors_impl fuel false (time k + wait) k d.effects
        >>= (λ (e : Drain). some (record e { drained = d.drained && e.drained })))

  -- `WaitStopSignal`, once a signal came or `ForceStop` was called, with the provider's resources
  pub wait_stop_signal : ℕ → (signal : Bool) → Resources → Option Drain
  wait_stop_signal fuel signal x =
      stop_actors fuel (if signal then before_quit ∷ [] else []) >>= (λ (d : Drain).
        some (record d {
          effects = d.effects ++ ((release_etcd d.drained x).1 ++ (stop_rpc ∷ after_quit ∷ []));
        }))

-- `ForceStop`: what `forceCloseChan`, of capacity one, holds after it
pub force_stop : Option Bool → Option Bool
force_stop chan = maybe (some true) (λ b. some b) chan
