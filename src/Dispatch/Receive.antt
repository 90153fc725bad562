-- ===== src/Dispatch/Receive.antt =====
-- system_envelope.go, and Reply and Forward of context_impl.go: what comes from another node, and
-- what a handler sends back. Decoding a message by its name is a parameter.
use grain.Base.{
  ℕ, ◌≡◌, refl, ◌⊎◌, inl, inr, false, Option, none, some, List, [], ◌∷◌, if◌then◌else◌, Bytes, ◌==◌,
  bytes_comparable, Bool-cases,
}
use grain.Base.Decimal.{format_uint}
use grain.Base.Maybe.{maybe}
use grain.ActorId.{
  ActorId, slash, at_sign, index_byte, default_reply_kind, new_actor_ref_from_aid,
  new_direct_actor_ref, is_ask,
}
use grain.ActorId.Roundtrip.{new_direct-parses}
use grain.Routes.{ResolvedRoute}
use grain.ActorId.Reply.{format_uint-name, reply_is_name}
use grain.Dispatch.{System, Message, Effect, deliver_reply, send_to_local, tell_with_sender}
use grain.Dispatch.Account.{Accounted}

pub record Envelope : Type 0 where
  pub target : Bytes
  pub sender : Bytes
  pub msg_name : Bytes
  pub content : Bytes

-- "message.Initialize"
abbrev pub msg_name_initialize : Bytes
msg_name_initialize =
    109 ∷ 101 ∷ 115 ∷ 115 ∷ 97 ∷ 103 ∷ 101 ∷ 46 ∷ 73 ∷ 110 ∷ 105 ∷ 116 ∷ 105 ∷ 97 ∷ 108 ∷ 105 ∷ 122
    ∷ 101 ∷ []

-- no sender for an empty text
abbrev pub sender_of : Envelope → Option ActorId
sender_of e = if e.sender == [] then none else some (new_actor_ref_from_aid e.sender)

module _ (decode : (msg_name content : Bytes) → Option Message)
    (route : ActorId → ResolvedRoute) where
  -- `RecvEnvelope`
  pub recv_envelope : System → Option Envelope → System × List Effect
  recv_envelope x none = (x, [])
  recv_envelope x (some e) =
      if e.msg_name == msg_name_initialize
      then (x, [])
      else maybe (x, [])
          (λ msg.
            if e.target == []
            then (x, [])
            else let target = new_actor_ref_from_aid e.target in
              tell_with_sender x (route target) (some target) msg (sender_of e))
          (decode e.msg_name e.content)

-- `newReplyRef`, by its id
abbrev pub new_reply_ref : (sn_id : ℕ) (addr : Bytes) → ActorId
new_reply_ref sn_id addr = new_direct_actor_ref default_reply_kind (format_uint sn_id) addr

-- `Reply` to an Ask of number `sn_id` from `addr`, by an actor `target` of this system: one's own Asks
-- are answered without routing.
pub reply :
    System
    → ResolvedRoute
    → (sn_id : ℕ) (addr : Bytes) → (target : ActorId) → Message
    → System × List Effect
reply x route sn_id addr target msg =
    if addr == x.addr
    then (x, deliver_reply (format_uint sn_id) msg ∷ [])
    else tell_with_sender x route (some (new_reply_ref sn_id addr)) msg (some target)

-- Why an envelope is refused.
abbrev pub Refused : (Bytes → Bytes → Option Message) → Option Envelope → Type 0
Refused decode none = Unit
Refused decode (some e) =
    (e.msg_name ≡ msg_name_initialize) ⊎ ((decode e.msg_name e.content ≡ none) ⊎ (e.target ≡ []))

-- What else becomes of its message, which is not the one that starts an actor.
abbrev pub Routed : (Bytes → Bytes → Option Message) → Option Envelope → List Effect → Type 0
Routed decode envelope effects =
    (e : Envelope) × (msg : Message) × (envelope ≡ some e)
    × (decode e.msg_name e.content ≡ some msg)
    × ((e.msg_name == msg_name_initialize) ≡ false)
    × ((e.target == []) ≡ false)
    × Accounted (new_actor_ref_from_aid e.target) msg (sender_of e) effects

-- Answering one's own Asks without routing changes nothing: `Reply` does what sending to the reply's
-- reference does, where the address has neither separator.
pub reply-by_routing :
    (x : System) (route : ResolvedRoute) (sn_id : ℕ) (addr : Bytes) (target : ActorId)
    (msg : Message)
    → index_byte addr slash ≡ none
    → index_byte addr at_sign ≡ none
    → reply x route sn_id addr target msg
      ≡ tell_with_sender x route (some (new_reply_ref sn_id addr)) msg (some target)
unfolding reply tell_with_sender send_to_local is_ask
reply-by_routing x route sn_id addr target msg hs ha =
    let (parsed, direct, _) =
      new_direct-parses default_reply_kind (format_uint sn_id) addr reply_is_name
        (format_uint-name sn_id) hs ha in
    elim (Bool-cases (addr == x.addr)) [
      | inl own ↦ rw (own, direct, parsed, own) refl
      | inr other ↦ rw (other, direct, parsed, other) refl
    ]
