-- ===== src/StreamWrite.antt =====
-- stream_write.go: the actor that writes what leaves for another node. grpc and the encoding of
-- messages are behind their results, which are arguments. A message goes by a number.
pub mod Order
mod Tests
use grain.Base.{
  ℕ, Bool, true, false, not, Option, none, some, List, [], ◌∷◌, ◌++◌, if◌then◌else◌, Bytes,
}
use grain.Base.Maybe.{maybe}
use grain.ActorId.{ActorId, is_ask}

-- `streamWriteActor`: whether it has a connection and a stream
pub record Writer : Type 0 where
  pub conn : Bool
  pub remote : Bool

-- what `Receive` is given
pub record Context : Type 0 where
  pub target : ActorId
  pub sender : Option ActorId
  pub msg_sn_id : ℕ
  pub message : ℕ

-- `remote.Envelope`, less its header
pub record Envelope : Type 0 where
  pub sender : Bytes
  pub target : Bytes
  pub msg_sn_id : ℕ
  pub message : ℕ
  pub content : Bytes

pub data Reason : Type 0 where
  unreachable marshal_failed : Reason

pub data Effect : Type 0 where
  send : Envelope → Effect
  tell_error : (sender : ActorId) → Reason → Effect
  dead_letter : Context → Reason → Effect
  close_send close_conn poison_self : Effect

-- `Started`, with the results of dialing and of opening the stream
pub started : (dialed opened : Bool) → Writer → Writer × List Effect
started dialed opened x =
    if not dialed
    then (x, poison_self ∷ [])
    else if not opened
    then (x, close_conn ∷ poison_self ∷ [])
    else (record { conn = true; remote = true }, [])

-- `deadLetter`
abbrev pub dead_letter_for : Context → Reason → List Effect
dead_letter_for ctx reason =
    maybe (dead_letter ctx reason ∷ [])
      (λ s.
        if is_ask s
        then tell_error s reason ∷ dead_letter ctx reason ∷ []
        else dead_letter ctx reason ∷ [])
      ctx.sender

-- the envelope of a message
abbrev pub envelope_of : Context → Bytes → Envelope
envelope_of ctx content = record {
  sender = maybe [] (λ (s : ActorId). s.full_path) ctx.sender;
  target = ctx.target.full_path;
  msg_sn_id = ctx.msg_sn_id;
  message = ctx.message;
  content = content;
}

-- `sendToRemote`, with the result of `Send`
pub send_to_remote : Bool → Writer → Context → Envelope → List Effect
send_to_remote sent x ctx envelope =
    if sent
    then send envelope ∷ []
    else dead_letter_for ctx unreachable
      ++ ((if x.conn then close_conn ∷ [] else []) ++ (poison_self ∷ []))

-- `Receive`, with the results of `proto.Marshal` and of `Send`
pub receive : Option Bytes → Bool → Writer → Context → List Effect
receive marshaled sent x ctx =
    if not x.remote
    then dead_letter_for ctx unreachable
    else maybe (dead_letter_for ctx marshal_failed)
        (λ content. send_to_remote sent x ctx (envelope_of ctx content)) marshaled

-- `PreStop`
pub pre_stop : Writer → Writer × List Effect
pre_stop x = (
  record { conn = false; remote = false },
  (if x.remote then close_send ∷ [] else []) ++ (if x.conn then close_conn ∷ [] else []),
)

-- a message with the results of its calls
pub record Turn : Type 0 where
  pub ctx : Context
  pub marshaled : Option Bytes
  pub sent : Bool

-- The mailbox gives the messages one at a time.
pub receive_all : Writer → List Turn → List Effect
receive_all x [] = []
receive_all x (t ∷ ts) = receive t.marshaled t.sent x t.ctx ++ receive_all x ts

-- From its start, which is over before the first message, to its stop, after the last one.
pub life : (dialed opened : Bool) → List Turn → List Effect
life dialed opened ts =
    let (x, begin) = started dialed opened (record { conn = false; remote = false }) in
    begin ++ (receive_all x ts ++ (pre_stop x).1)
