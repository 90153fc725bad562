-- ===== src/Dispatch/Account.antt =====
-- No message vanishes without a word.
use grain.Base.{
  ℕ, ◌≡◌, refl, ◌⊎◌, inl, inr, true, false, Option, none, some, List, [], ◌∷◌, if◌then◌else◌, Bytes,
  ◌==◌, ==→eq, bytes_comparable, Bool-cases, Option-cases, arith,
}
use grain.Base.Maybe.{maybe}
use grain.ActorId.{ActorId, default_reply_kind, is_direct, is_cluster, is_ask}
use grain.AddrHash.{NodeState, calc_addr_by_kind8_name}
use grain.Routes.{ResolvedRoute}
use grain.Routes.Fresh.{fresh_route, route_to, stream_to}
use grain.SafeMap.{items_get}
use grain.Dispatch.{
  System, Message, poison, Reason, not_found, no_owner, Effect, send_to, deliver_reply, tell_error,
  dead_letter, get_or_spawn, ensure_cluster_kind_actor_exist, undeliverable, is_poison,
  send_to_local, send_to_remote, tell_with_sender,
}

-- One dead letter; and where the sender waits in an Ask, it is told the error before.
abbrev pub Failed : ActorId → Message → Option ActorId → List Effect → Type 0
Failed target msg sender effects =
    (reason : Reason) × (((effects ≡ dead_letter target msg reason ∷ [])
        × ((sender ≡ none) ⊎ ((s : ActorId) × (sender ≡ some s) × (is_ask s ≡ false))))
      ⊎ ((s : ActorId) × (sender ≡ some s)
          × (is_ask s ≡ true)
          × (effects ≡ tell_error s reason ∷ dead_letter target msg reason ∷ [])))

-- A message goes to one process; or it is given to `deliverReply`, where the target is an Ask's sender;
-- or it is the poison of an actor that does not run; or it fails.
abbrev pub Accounted : ActorId → Message → Option ActorId → List Effect → Type 0
Accounted target msg sender effects =
    ((p : ℕ) × (effects ≡ send_to p target msg ∷ []))
    ⊎ (((effects ≡ deliver_reply target.cache_parse.name msg ∷ [])
          × (target.cache_parse.kind ≡ default_reply_kind))
        ⊎ (((effects ≡ []) × (msg ≡ poison)) ⊎ Failed target msg sender effects))

ask_kind : (x : ActorId) → is_ask x ≡ true → x.cache_parse.kind ≡ default_reply_kind
unfolding is_ask
ask_kind x h = ==→eq x.cache_parse.kind default_reply_kind h

undeliverable-Failed :
    (target : ActorId) (msg : Message) (sender : Option ActorId) (reason : Reason)
    → Failed target msg sender (undeliverable target msg sender reason)
undeliverable-Failed target msg none reason = (reason, inl (refl, inl refl))
undeliverable-Failed target msg (some s) reason = elim (Bool-cases (is_ask s)) [
  | inl a ↦ (reason, inr (s, refl, a, rw a refl))
  | inr a ↦ (reason, inl (rw a refl, inr (s, refl, a)))
]

module _ (x : System) (target : ActorId) (msg : Message) (sender : Option ActorId) where
  local-Accounted : Accounted target msg sender (send_to_local x target msg sender).1
  unfolding send_to_local
  local-Accounted = elim (Bool-cases (is_ask target)) [
    | inl a ↦ rw a (inr (inl (refl, ask_kind target a)))
    | inr a ↦ elim (Option-cases (items_get x.registry target.full_path)) [
      | inr (p, h) ↦ rw (a, h) (inl (p, refl))
      | inl h ↦ elim (Bool-cases (is_poison msg)) [
        | inl q ↦ rw (a, h, q) (inr (inr (inl (refl, ground (arith, q)))))
        | inr q ↦
            rw (a, h, q)
              (found-Accounted
                (if is_cluster target then ensure_cluster_kind_actor_exist x target else (x, none)))
      ]
    ]
  ]
    where
      found-Accounted :
          (r : System × Option ℕ)
          → Accounted target msg sender
              (maybe {B = System × List Effect}
                (r.0, undeliverable target msg sender not_found)
                (λ p. (r.0, send_to p target msg ∷ []))
                r.1).1
      found-Accounted (y, none) = inr (inr (inr (undeliverable-Failed target msg sender not_found)))
      found-Accounted (y, some p) = inl (p, refl)

  remote-Accounted :
      (route : ResolvedRoute) (stream : ActorId)
      → route.stream ≡ some stream
      → Accounted target msg sender (send_to_remote x route target msg).1
  unfolding send_to_remote
  remote-Accounted route stream h = rw h (inl ((get_or_spawn x stream.full_path).1, refl))

  -- what the owner's address decides
  routed-Accounted :
      (a : Bytes)
      → (let route = route_to x.addr false a in
          Accounted target msg sender
            (if route.address == []
              then (x, undeliverable target msg sender no_owner)
              else if route.address == x.addr
              then send_to_local x target msg sender
              else send_to_remote x route target msg).1)
  routed-Accounted [] = inr (inr (inr (undeliverable-Failed target msg sender no_owner)))
  routed-Accounted (b ∷ a) = elim (Bool-cases ((b ∷ a) == x.addr)) [
    | inl e ↦ rw (e, e) local-Accounted
    | inr e ↦
        rw (e, e)
          (remote-Accounted (record { address = b ∷ a; stream = some (stream_to x.addr (b ∷ a)) })
            (stream_to x.addr (b ∷ a)) refl)
  ]

  -- of a target that is not nil, on the route that the members give
  pub target-Accounted :
      (nodes : List NodeState)
      → Accounted target msg sender
          (tell_with_sender x (fresh_route x.addr nodes target) (some target) msg sender).1
  unfolding tell_with_sender fresh_route
  target-Accounted nodes = elim (Bool-cases (is_direct target)) [
    | inl d ↦ elim (Bool-cases (target.cache_parse.direct_addr == x.addr)) [
      | inl e ↦ rw (d, e) local-Accounted
      | inr e ↦
          rw (d, e)
            (remote-Accounted
              (record {
                address = target.cache_parse.direct_addr;
                stream = some (stream_to x.addr target.cache_parse.direct_addr);
              })
              (stream_to x.addr target.cache_parse.direct_addr) refl)
    ]
    | inr d ↦ elim (Option-cases (items_get x.registry target.full_path)) [
      | inr (p, h) ↦ rw (d, h) (inl (p, refl))
      | inl h ↦ elim (Bool-cases (is_cluster target)) [
        | inr c ↦ rw (d, h, c) (inr (inr (inr (undeliverable-Failed target msg sender no_owner))))
        | inl c ↦
            rw (d, h, c)
              (routed-Accounted
                (calc_addr_by_kind8_name nodes target.cache_parse.kind target.cache_parse.name))
      ]
    ]
  ]

-- the route of a target; a nil one needs none
abbrev pub route_of : (addr : Bytes) → List NodeState → Option ActorId → ResolvedRoute
route_of addr nodes none = record { address = []; stream = none }
route_of addr nodes (some target) = fresh_route addr nodes target
