-- ===== src/Dispatch/Named.antt =====
-- Spawn and SpawnNamed of system.go: a new actor under a name, and what a send to it comes to.
use grain.Base.{
  ℕ, ◌+◌, ◌≡◌, refl, ap, ◌∙◌, ◌⊎◌, inl, inr, false, Option, none, some, List, [], ◌∷◌, ◌++◌, Bytes,
  ◌==◌, ==_self, bytes_comparable, Option-cases,
}
use grain.Base.Decimal.{format_uint}
use grain.Base.Maybe.{maybe}
use grain.ActorId.{
  slash, at_sign, default_reply_kind, index_byte, NameError, validate_name, ActorId,
  new_direct_actor_ref, is_ask, CacheParse,
}
use grain.ActorId.Roundtrip.{new_direct-parses}
use grain.ActorId.Reply.{format_uint-name}
use grain.Config.{KindOpt, with_opts_direct_self, new_opts}
use grain.Config.Self.{new_opts-direct_self}
use grain.Routes.{ResolvedRoute}
use grain.SafeMap.{items_get, items_set}
use grain.Dispatch.{System, Message, send_to, send_to_local, tell_with_sender}

-- What a spawn returns: a reference, the error of the name, or ErrNameExists; or it panics.
pub data Spawned : Type 0 where
  spawned : ActorId → Spawned
  invalid_name : NameError → Spawned
  name_exists : Spawned
  panicked : Spawned

-- `spawnNewProcessor`, as one step; no reference is a nil one
abbrev pub spawn_new_processor : System → Option ActorId → System × Spawned
spawn_new_processor x none = (x, panicked)
spawn_new_processor x (some self) =
    maybe
      (
        record x {
          registry = items_set x.registry self.full_path x.next_process;
          next_process = x.next_process + 1;
        },
        spawned self,
      )
      (λ _. (x, name_exists)) (items_get x.registry self.full_path)

-- `SpawnNamed` with the producer `p`
pub spawn_named : System → (p : ℕ) → (name : Bytes) → List KindOpt → System × Spawned
spawn_named x p name opts =
    maybe
      (spawn_new_processor x (new_opts p (opts ++ (with_opts_direct_self name x.addr ∷ []))).self)
      (λ e. (x, invalid_name e)) (validate_name name)

-- the panic of `Spawn` on an error
abbrev pub or_panic : Spawned → Spawned
or_panic (spawned ref) = spawned ref
or_panic (invalid_name e) = panicked
or_panic name_exists = panicked
or_panic panicked = panicked

-- `Spawn`, where `Generate` gives `id`
pub spawn : System → (p id : ℕ) → List KindOpt → System × Spawned
spawn x p id opts = let (x', r) = spawn_named x p (format_uint id) opts in (x', or_panic r)

-- An actor that was not there, and what a send to its reference comes to.
abbrev pub Reached :
    System → ActorId → System × Spawned → ResolvedRoute → Message → Option ActorId → Type 0
Reached x ref done route msg sender =
    (items_get x.registry ref.full_path ≡ none)
    × (done.1 ≡ spawned ref)
    × (tell_with_sender done.0 route (some ref) msg sender
        ≡ (done.0, send_to x.next_process ref msg ∷ []))

-- The id is taken, and nothing happens.
abbrev pub Taken : System → ActorId → System × Spawned → Spawned → Type 0
Taken x ref done result =
    (p : ℕ) × (items_get x.registry ref.full_path ≡ some p) × (done ≡ (x, result))

module _ (x : System) (p : ℕ) (opts : List KindOpt) (route : ResolvedRoute) (msg : Message)
    (sender : Option ActorId) where
  named-Reached :
      (name : Bytes)
      → validate_name (new_opts p opts).kind ≡ none
      → ((new_opts p opts).kind == default_reply_kind) ≡ false
      → index_byte x.addr slash ≡ none
      → index_byte x.addr at_sign ≡ none
      → validate_name name ≡ none
      → let ref = new_direct_actor_ref (new_opts p opts).kind name x.addr in
        Taken x ref (spawn_named x p name opts) name_exists
        ⊎ Reached x ref (spawn_named x p name opts) route msg sender
  unfolding spawn_named tell_with_sender send_to_local is_ask
  named-Reached name kind_ok no_reply hs ha named =
      let ref = new_direct_actor_ref (new_opts p opts).kind name x.addr in
      let (parsed, direct, _) =
        new_direct-parses (new_opts p opts).kind name x.addr kind_ok named hs ha in
      let its_self = new_opts-direct_self p opts name x.addr in
      elim (Option-cases (items_get x.registry ref.full_path)) [
        | inr (p', h) ↦ inl (p', h, rw (named, its_self, h) refl)
        | inl h ↦ inr (
          h,
          rw (named, its_self, h) refl,
          rw
              (
                named,
                its_self,
                h,
                direct,
                ap (λ (c : CacheParse). c.direct_addr == x.addr) parsed ∙ ==_self x.addr,
              )
              (rw
                (
                  ap (λ (c : CacheParse). c.kind == default_reply_kind) parsed ∙ no_reply,
                  ==_self ref.full_path,
                )
                refl),
        )
      ]

  -- A refused name starts nothing, and an id that is taken neither; else the actor is new, and a send
  -- to the reference that comes back reaches it, on whatever route. `SpawnNamed` returns the error;
  -- `Spawn` panics where the id that it generates is taken, and its name is never refused. The kind is
  -- a name and is not "reply", and the node's address has neither separator.
  pub spawns-Reached :
      (name : Bytes) (id : ℕ)
      → validate_name (new_opts p opts).kind ≡ none
      → ((new_opts p opts).kind == default_reply_kind) ≡ false
      → index_byte x.addr slash ≡ none
      → index_byte x.addr at_sign ≡ none
      → let ref = λ (n : Bytes). new_direct_actor_ref (new_opts p opts).kind n x.addr in
        (((e : NameError) × (validate_name name ≡ some e)
            × (spawn_named x p name opts ≡ (x, invalid_name e)))
          ⊎ (Taken x (ref name) (spawn_named x p name opts) name_exists
              ⊎ Reached x (ref name) (spawn_named x p name opts) route msg sender))
        × (Taken x (ref (format_uint id)) (spawn x p id opts) panicked
            ⊎ Reached x (ref (format_uint id)) (spawn x p id opts) route msg sender)
  unfolding spawn spawn_named
  spawns-Reached name id kind_ok no_reply hs ha = (
    elim (Option-cases (validate_name name)) [
      | inr (e, h) ↦ inl (e, h, rw h refl)
      | inl h ↦ inr (named-Reached name kind_ok no_reply hs ha h)
    ],
    elim (named-Reached (format_uint id) kind_ok no_reply hs ha (format_uint-name id)) [
      | inl (p', h, e) ↦ inl (p', h, ap (λ (r : System × Spawned). (r.0, or_panic r.1)) e)
      | inr (h, e, told) ↦ inr (h, ap or_panic e, told)
    ],
  )
