-- ===== src/Dispatch/Control.antt =====
-- Poison of system.go: the control signal of a process here, and a message to any other.
use grain.Base.{
  ℕ, ◌≡◌, refl, ◌⊎◌, inl, inr, none, some, List, [], ◌==◌, bytes_comparable, Bool-cases,
  Option-cases,
}
use grain.Base.Maybe.{maybe}
use grain.ActorId.{ActorId, is_direct, is_ask}
use grain.AddrHash.{NodeState}
use grain.Routes.{ResolvedRoute}
use grain.Routes.Fresh.{fresh_route}
use grain.SafeMap.{items_get}
use grain.Dispatch.{
  System, poison, Effect, get_or_spawn, send_to_local, send_to_remote, tell_with_sender,
}
use grain.Dispatch.Account.{Accounted, target-Accounted}

-- What `Poison` does: it signals a process, or it sends a message.
pub data Poisoned : Type 0 where
  signal : (process : ℕ) → Poisoned
  told : List Effect → Poisoned

-- `Poison`
pub poison_ref : System → ResolvedRoute → ActorId → System × Poisoned
poison_ref x route ref =
    maybe
      (let (x', effects) = tell_with_sender x route (some ref) poison none in (x', told effects))
      (λ p. (x, signal p)) (items_get x.registry ref.full_path)

-- No process is built but the writer of a stream to another node.
abbrev pub BuildsNoActor : System → ResolvedRoute → System → Type 0
BuildsNoActor x route x' =
    (x' ≡ x)
    ⊎ ((stream : ActorId) × (route.stream ≡ some stream)
        × (x' ≡ (get_or_spawn x stream.full_path).0))

module _ (x : System) (route : ResolvedRoute) (ref : ActorId) where
  local-BuildsNoActor : BuildsNoActor x route (send_to_local x ref poison none).0
  unfolding send_to_local
  local-BuildsNoActor = elim (Bool-cases (is_ask ref)) [
    | inl a ↦ rw a (inl refl)
    | inr a ↦ elim (Option-cases (items_get x.registry ref.full_path)) [
      | inl h ↦ rw (a, h) (inl refl)
      | inr (p, h) ↦ rw (a, h) (inl refl)
    ]
  ]

  remote-BuildsNoActor : BuildsNoActor x route (send_to_remote x route ref poison).0
  unfolding send_to_remote
  remote-BuildsNoActor = elim (Option-cases route.stream) [
    | inl h ↦ rw h (inl refl)
    | inr (stream, h) ↦ inr (stream, h, rw h refl)
  ]

  told-BuildsNoActor : BuildsNoActor x route (tell_with_sender x route (some ref) poison none).0
  unfolding tell_with_sender
  told-BuildsNoActor = elim (Bool-cases (is_direct ref)) [
    | inl d ↦ elim (Bool-cases (ref.cache_parse.direct_addr == x.addr)) [
      | inl e ↦ rw (d, e) local-BuildsNoActor
      | inr e ↦ rw (d, e) remote-BuildsNoActor
    ]
    | inr d ↦ elim (Option-cases (items_get x.registry ref.full_path)) [
      | inr (p, h) ↦ rw (d, h) (inl refl)
      | inl h ↦ elim (Bool-cases (route.address == [])) [
        | inl e ↦ rw (d, h, e) (inl refl)
        | inr e ↦ elim (Bool-cases (route.address == x.addr)) [
          | inl o ↦ rw (d, h, e, o) local-BuildsNoActor
          | inr o ↦ rw (d, h, e, o) remote-BuildsNoActor
        ]
      ]
    ]
  ]

-- Poison signals just the process that runs here under the id, past its mailbox. Where none runs, no
-- actor is started to be stopped: at most the stream to another node is opened, and the message is
-- accounted for as any other is, on the route that the members give.
pub poison_ref-BuildsNoActor :
    (x : System) (nodes : List NodeState) (ref : ActorId)
    → let route = fresh_route x.addr nodes ref in
      ((p : ℕ) × (items_get x.registry ref.full_path ≡ some p)
        × (poison_ref x route ref ≡ (x, signal p)))
      ⊎ ((effects : List Effect) × (items_get x.registry ref.full_path ≡ none)
          × ((poison_ref x route ref).1 ≡ told effects)
          × Accounted ref poison none effects
          × BuildsNoActor x route (poison_ref x route ref).0)
unfolding poison_ref
poison_ref-BuildsNoActor x nodes ref =
    let route = fresh_route x.addr nodes ref in
    elim (Option-cases (items_get x.registry ref.full_path)) [
      | inr (p, h) ↦ inl (p, h, rw h refl)
      | inl h ↦ inr (
        (tell_with_sender x route (some ref) poison none).1,
        h,
        rw h refl,
        target-Accounted x ref poison none nodes,
        rw h (told-BuildsNoActor x route ref),
      )
    ]
