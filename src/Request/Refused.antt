-- ===== src/Request/Refused.antt =====
-- What a call of Ask does, and with what it ends.
use grain.Base.{
  ℕ, ◌≡◌, ◌⊎◌, refl, inl, inr, Bool, true, false, Option, none, some, List, [], ◌∷◌, Bool-cases,
  Option-cases, arith,
}
use grain.Request.{
  Message, poison, err_code, user, Outcome, value, no_value, await_reply, Effect, register, suspend,
  tell, cancel, resume, CallKind, call_start, call_receive, call_stop, Gate, current_execution,
  Meeting, ask_impl, ask_in, ask,
}

-- no message of the framework's own
abbrev pub is_user : Message → Bool
is_user (user id text) = true
is_user _ = false

abbrev pub has_value : Outcome → Bool
has_value (value m) = true
has_value no_value = true
has_value _ = false

-- The calls of an Ask that sends: each is undone, in the reverse order.
abbrev pub paired : List Effect
paired = register ∷ suspend ∷ tell ∷ cancel ∷ resume ∷ []

-- What a success comes from: the value is the reply, of the type asked for and no message of the
-- framework's own; or the zero value stands for the reply, which is a nil pointer to an ErrCode.
abbrev pub Succeeds : (Message → Bool) → Option Message → Outcome → Type 0
Succeeds is_t reply outcome =
    ((m : Message) × (outcome ≡ value m) × (reply ≡ some m) × (is_t m ≡ true) × (is_user m ≡ true))
    ⊎ ((outcome ≡ no_value) × (reply ≡ some (err_code none)))

await_reply-Succeeds :
    (is_t : Message → Bool) (reply : Option Message)
    → has_value (await_reply is_t reply) ≡ true
    → Succeeds is_t reply (await_reply is_t reply)
unfolding await_reply
await_reply-Succeeds is_t none h = cc
await_reply-Succeeds is_t (some poison) h = cc
await_reply-Succeeds is_t (some (err_code none)) h = inr (refl, refl)
await_reply-Succeeds is_t (some (err_code (some e))) h = cc
await_reply-Succeeds is_t (some (user id text)) h = elim (Bool-cases (is_t (user id text))) [
  | inl t ↦ inl (user id text, rw t refl, refl, t, refl)
  | inr f ↦ absurd (elim (Option-cases text) [
    | inl e ↦ ground (arith, h, f, e)
    | inr (t, e) ↦ ground (arith, h, f, e)
  ])
]

-- the cases of `askImpl` from an actor
ask_impl-paired :
    (is_t : Message → Bool) (x : Meeting)
    → (let (effects, outcome) = ask_impl is_t x true in
        ((effects ≡ []) × (has_value outcome ≡ false))
        ⊎ ((effects ≡ paired) × (x.target ≡ true) × (x.open_registration ≡ true)))
unfolding ask_impl
ask_impl-paired is_t x = elim (Bool-cases x.target) [
  | inr f ↦ rw f (inl (refl, refl))
  | inl t ↦ elim (Bool-cases x.open_registration) [
    | inr f ↦ rw (t, f) (inl (refl, refl))
    | inl o ↦ rw (t, o) (inr (refl, refl, refl))
  ]
]

ask_impl-Succeeds :
    (is_t : Message → Bool) (x : Meeting)
    → has_value (ask_impl is_t x true).1 ≡ true
    → Succeeds is_t x.reply (ask_impl is_t x true).1
unfolding ask_impl
ask_impl-Succeeds is_t x h = elim (Bool-cases x.target) [
  | inr f ↦ absurd (ground (arith, h, f))
  | inl t ↦ elim (Bool-cases x.open_registration) [
    | inr f ↦ absurd (ground (arith, h, t, f))
    | inl o ↦ elim (Bool-cases x.tell_panics) [
      | inl p ↦ absurd (ground (arith, h, t, o, p))
      | inr p ↦ rw (t, o, p) (await_reply-Succeeds is_t x.reply (ground (arith, h, t, o, p)))
    ]
  ]
]

-- Nothing is sent where Ask is refused, and where it sends, the suspension and the registration are
-- undone however it ends, a panic of the send included: the registration first.
pub ask-paired :
    (is_t : Message → Bool) (x : Meeting) (inited : Bool) (gate : Option Gate) (goid : ℕ)
    → (let (effects, outcome) = ask is_t x inited gate goid in
        ((effects ≡ []) × (has_value outcome ≡ false))
        ⊎ ((effects ≡ paired)
            × (current_execution gate goid ≡ some call_receive)
            × (inited ≡ true)
            × (x.target ≡ true)
            × (x.open_registration ≡ true)))
unfolding ask ask_impl
ask-paired is_t x false gate goid = inl (refl, refl)
ask-paired is_t x true gate goid = by_call (current_execution gate goid)
  where
    by_call :
        (o : Option CallKind)
        → (let (effects, outcome) = ask_in is_t x o in
            ((effects ≡ []) × (has_value outcome ≡ false))
            ⊎ ((effects ≡ paired)
                × (o ≡ some call_receive)
                × (true ≡ true)
                × (x.target ≡ true)
                × (x.open_registration ≡ true)))
    by_call none = inl (refl, refl)
    by_call (some call_start) = inl (refl, refl)
    by_call (some call_stop) = inl (refl, refl)
    by_call (some call_receive) = elim (ask_impl-paired is_t x) [
      | inl refused ↦ inl refused
      | inr (e, t, o) ↦ inr (e, refl, refl, t, o)
    ]

-- What Ask returns without an error is the reply, of the type asked for, and never a message of the
-- framework's own, not even where that type is an interface that every message has; but for the zero
-- value, which it returns only where the reply is a nil pointer to an ErrCode.
pub ask-Succeeds :
    (is_t : Message → Bool) (x : Meeting) (inited : Bool) (gate : Option Gate) (goid : ℕ)
    → has_value (ask is_t x inited gate goid).1 ≡ true
    → Succeeds is_t x.reply (ask is_t x inited gate goid).1
unfolding ask ask_impl
ask-Succeeds is_t x false gate goid h = cc
ask-Succeeds is_t x true gate goid h = by_call (current_execution gate goid) h
  where
    by_call :
        (o : Option CallKind)
        → has_value (ask_in is_t x o).1 ≡ true
        → Succeeds is_t x.reply (ask_in is_t x o).1
    by_call none g = cc
    by_call (some call_start) g = cc
    by_call (some call_stop) g = cc
    by_call (some call_receive) g = ask_impl-Succeeds is_t x g
