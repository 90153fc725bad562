-- ===== src/StreamWrite/Order.antt =====
-- What becomes of the messages for another node.
use grain.Base.{
  ℕ, ◌≡◌, refl, sym, ap, ap₂, ◌∙◌, inl, inr, Bool, true, false, Option, List, [], ◌∷◌, ◌++◌, map,
  if◌then◌else◌, Bytes, Bool-cases, Option-cases, append-nil,
}
use grain.Base.Maybe.{maybe}
use grain.ActorId.{ActorId, is_ask}
use grain.StreamWrite.{
  Writer, Context, Reason, unreachable, marshal_failed, Effect, send, tell_error, dead_letter,
  close_send, close_conn, poison_self, started, dead_letter_for, send_to_remote, receive, pre_stop,
  Turn, receive_all, life,
}

-- the messages that were sent or dead-lettered, in order
abbrev pub settled : List Effect → List ℕ
settled [] = []
settled (send e ∷ effects) = e.message ∷ settled effects
settled (dead_letter ctx reason ∷ effects) = ctx.message ∷ settled effects
settled (f ∷ effects) = settled effects

-- who was told an error, and who waits for a message that was dead-lettered, each with the reason
abbrev pub told : List Effect → List (ActorId × Reason)
told [] = []
told (tell_error s reason ∷ effects) = (s, reason) ∷ told effects
told (f ∷ effects) = told effects

abbrev pub to_tell : List Effect → List (ActorId × Reason)
to_tell [] = []
to_tell (dead_letter ctx reason ∷ effects) =
    maybe (to_tell effects)
      (λ s. if is_ask s then (s, reason) ∷ to_tell effects else to_tell effects) ctx.sender
to_tell (f ∷ effects) = to_tell effects

settled-append : (xs ys : List Effect) → settled (xs ++ ys) ≡ settled xs ++ settled ys
settled-append [] ys = refl
settled-append (send e ∷ xs) ys = ap (λ l. e.message ∷ l) (settled-append xs ys)
settled-append (dead_letter ctx r ∷ xs) ys = ap (λ l. ctx.message ∷ l) (settled-append xs ys)
settled-append (tell_error s r ∷ xs) ys = settled-append xs ys
settled-append (close_send ∷ xs) ys = settled-append xs ys
settled-append (close_conn ∷ xs) ys = settled-append xs ys
settled-append (poison_self ∷ xs) ys = settled-append xs ys

told-append : (xs ys : List Effect) → told (xs ++ ys) ≡ told xs ++ told ys
told-append [] ys = refl
told-append (send e ∷ xs) ys = told-append xs ys
told-append (dead_letter ctx r ∷ xs) ys = told-append xs ys
told-append (tell_error s r ∷ xs) ys = ap (λ l. (s, r) ∷ l) (told-append xs ys)
told-append (close_send ∷ xs) ys = told-append xs ys
told-append (close_conn ∷ xs) ys = told-append xs ys
told-append (poison_self ∷ xs) ys = told-append xs ys

to_tell-append : (xs ys : List Effect) → to_tell (xs ++ ys) ≡ to_tell xs ++ to_tell ys
to_tell-append [] ys = refl
to_tell-append (send e ∷ xs) ys = to_tell-append xs ys
to_tell-append (dead_letter ctx r ∷ xs) ys = elim (Option-cases ctx.sender) [
  | inl e ↦ rw e (to_tell-append xs ys)
  | inr (s, e) ↦ elim (Bool-cases (is_ask s)) [
    | inl a ↦ rw (e, a) (ap (λ l. (s, r) ∷ l) (to_tell-append xs ys))
    | inr a ↦ rw (e, a) (to_tell-append xs ys)
  ]
]
to_tell-append (tell_error s r ∷ xs) ys = to_tell-append xs ys
to_tell-append (close_send ∷ xs) ys = to_tell-append xs ys
to_tell-append (close_conn ∷ xs) ys = to_tell-append xs ys
to_tell-append (poison_self ∷ xs) ys = to_tell-append xs ys

-- The messages of a list of effects are these, in order, and all who wait for one that failed were
-- told.
record Settles (effects : List Effect) (messages : List ℕ) : Type 0 where
  in_order : settled effects ≡ messages
  all_told : told effects ≡ to_tell effects

Settles-append :
    (xs ys : List Effect) (ms ns : List ℕ)
    → Settles xs ms
    → Settles ys ns
    → Settles (xs ++ ys) (ms ++ ns)
Settles-append xs ys ms ns h g = record {
  in_order = settled-append xs ys ∙ ap₂ (λ a b. a ++ b) h.in_order g.in_order;
  all_told =
      told-append xs ys ∙ ap₂ (λ a b. a ++ b) h.all_told g.all_told ∙ sym (to_tell-append xs ys);
}

dead_letter_for-Settles :
    (ctx : Context) (reason : Reason) → Settles (dead_letter_for ctx reason) (ctx.message ∷ [])
dead_letter_for-Settles ctx reason = elim (Option-cases ctx.sender) [
  | inl e ↦ rw e (record { in_order = refl; all_told = refl })
  | inr (s, e) ↦ elim (Bool-cases (is_ask s)) [
    | inl a ↦ rw (e, a) (record { in_order = refl; all_told = rw a refl })
    | inr a ↦ rw (e, a) (record { in_order = refl; all_told = rw a refl })
  ]
]

closing-Settles :
    (b : Bool) → Settles ((if b then close_conn ∷ [] else []) ++ (poison_self ∷ [])) []
closing-Settles true = record { in_order = refl; all_told = refl }
closing-Settles false = record { in_order = refl; all_told = refl }

receive-Settles :
    (marshaled : Option Bytes) (sent : Bool) (x : Writer) (ctx : Context)
    → Settles (receive marshaled sent x ctx) (ctx.message ∷ [])
unfolding receive send_to_remote
receive-Settles marshaled sent x ctx = elim (Bool-cases x.remote) [
  | inr e ↦ rw e (dead_letter_for-Settles ctx unreachable)
  | inl e ↦ elim (Option-cases marshaled) [
    | inl m ↦ rw (e, m) (dead_letter_for-Settles ctx marshal_failed)
    | inr (content, m) ↦ elim (Bool-cases sent) [
      | inl o ↦ rw (e, m, o) (record { in_order = refl; all_told = refl })
      | inr o ↦
          rw (e, m, o)
            (Settles-append (dead_letter_for ctx unreachable)
              ((if x.conn then close_conn ∷ [] else []) ++ (poison_self ∷ [])) (ctx.message ∷ []) []
              (dead_letter_for-Settles ctx unreachable) (closing-Settles x.conn))
    ]
  ]
]

receive_all-Settles :
    (ts : List Turn) (x : Writer)
    → Settles (receive_all x ts) (map (λ (t : Turn). t.ctx.message) ts)
unfolding receive_all
receive_all-Settles [] x = record { in_order = refl; all_told = refl }
receive_all-Settles (t ∷ ts) x =
    Settles-append (receive t.marshaled t.sent x t.ctx) (receive_all x ts) (t.ctx.message ∷ [])
      (map (λ (t : Turn). t.ctx.message) ts) (receive-Settles t.marshaled t.sent x t.ctx)
      (receive_all-Settles ts x)

begin-Settles : (dialed opened : Bool) (x : Writer) → Settles (started dialed opened x).1 []
unfolding started
begin-Settles true true x = record { in_order = refl; all_told = refl }
begin-Settles true false x = record { in_order = refl; all_told = refl }
begin-Settles false opened x = record { in_order = refl; all_told = refl }

pre_stop-Settles : (x : Writer) → Settles (pre_stop x).1 []
unfolding pre_stop
pre_stop-Settles x = elim (Bool-cases x.remote) [
  | inl r ↦ elim (Bool-cases x.conn) [
    | inl c ↦ rw (r, c) (record { in_order = refl; all_told = refl })
    | inr c ↦ rw (r, c) (record { in_order = refl; all_told = refl })
  ]
  | inr r ↦ elim (Bool-cases x.conn) [
    | inl c ↦ rw (r, c) (record { in_order = refl; all_told = refl })
    | inr c ↦ rw (r, c) (record { in_order = refl; all_told = refl })
  ]
]

-- Over the whole life of a stream writer, whether it connects or not and however its sends go, each
-- message it is given is put on the stream or dead-lettered, once and in the order they came. The
-- errors told are just those for the dead letters whose sender waits in an Ask, in their order: each
-- goes to that sender, with the reason of the dead letter.
pub life_settles :
    (dialed opened : Bool) (ts : List Turn)
    → (settled (life dialed opened ts) ≡ map (λ (t : Turn). t.ctx.message) ts)
      × (told (life dialed opened ts) ≡ to_tell (life dialed opened ts))
unfolding life
life_settles dialed opened ts =
    let closed : Writer = record { conn = false; remote = false } in
    let x = (started dialed opened closed).0 in
    let messages = map (λ (t : Turn). t.ctx.message) ts in
    let whole =
      Settles-append (started dialed opened closed).1 (receive_all x ts ++ (pre_stop x).1) []
        (messages ++ []) (begin-Settles dialed opened closed)
        (Settles-append (receive_all x ts) (pre_stop x).1 messages [] (receive_all-Settles ts x)
          (pre_stop-Settles x)) in
    (whole.in_order ∙ append-nil messages, whole.all_told)
