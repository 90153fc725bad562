-- ===== src/Ask.antt =====
-- The pending table of Asks: registerAsk, deliverReply and cancelAsk of system.go, wakePendingAsks of
-- system_life.go, and askImpl with awaitReply of request_helper.go. A critical section of the
-- admission lock, an operation of the table and an operation on a channel are one step each.
pub mod Moves
pub mod Inv
pub mod Keep
pub mod Reachable
pub mod Shutdown
mod Tests
use grain.Base.{
  ℕ, ◌+◌, Bool, true, false, Option, none, some, List, [], ◌∷◌, nat_eqb, if◌then◌else◌,
}
use grain.Base.Maybe.{maybe}

-- What a channel carries: errSystemStopping of the shutdown, or a reply.
pub data Reply : Type 0 where
  system_stopping : Reply
  message : ℕ → Reply

-- The channel of an Ask, which holds one message, goes by the number of the Ask. `pending` lists the
-- numbers in the table. The last field is history: the replies that were sent, with their numbers.
pub record Asks : Type 0 where
  pub next_sn_id : ℕ
  pub pending : List ℕ
  pub pending_registration_closed : Bool
  pub channel : ℕ → Option Reply
  pub replies : List (ℕ × ℕ)

-- What `askImpl` returns with.
pub data Outcome : Type 0 where
  received : Reply → Outcome
  timed_out unwound : Outcome

-- Where a goroutine stands; each name says what it does next.
pub data Pc : Type 0 where
  registering : ℕ → Pc  -- `askImpl`: registers the Ask,
  sending : ℕ → Pc  -- sends the message,
  awaiting : ℕ → Pc  -- waits for the reply or the timeout,
  canceling : ℕ → Outcome → Pc  -- and takes the Ask off the table
  popping : ℕ → (reply : ℕ) → Pc  -- `deliverReply`: takes the channel off the table,
  delivering : ℕ → (reply : ℕ) → Pc  -- and fills it
  closing : Pc  -- `wakePendingAsks`: closes registration,
  collecting : (todo found : List ℕ) → Pc  -- goes through the table,
  waking : List ℕ → Pc  -- and fills the channels it found

abbrev pub put {ℓ} : {A : Type ℓ} → (ℕ → A) → ℕ → A → ℕ → A
put f a v b = if nat_eqb a b then v else f b

abbrev pub occurs : ℕ → List ℕ → ℕ
occurs n [] = 0
occurs n (m ∷ ms) = (if nat_eqb n m then 1 else 0) + occurs n ms

-- the removal of a key
abbrev pub without : ℕ → List ℕ → List ℕ
without n [] = []
without n (m ∷ ms) = let rest = without n ms in if nat_eqb n m then rest else m ∷ rest

-- `registerAsk`, and where `askImpl` goes on, or returns errSystemStopping
abbrev pub register_ask : Asks → ℕ → Asks
register_ask s n = if s.pending_registration_closed then s else record s { pending = n ∷ s.pending }

abbrev pub after_register : Asks → ℕ → List Pc
after_register s n = if s.pending_registration_closed then [] else sending n ∷ []

abbrev pub cancel_ask : Asks → ℕ → Asks
cancel_ask s n = record s { pending = without n s.pending }

-- `deliverReply`: `Pop`, and what follows
abbrev pub pop_pending : Asks → ℕ → Asks
pop_pending s n = record s { pending = without n s.pending }

abbrev pub after_pop : Asks → ℕ → ℕ → List Pc
after_pop s n m = if nat_eqb (occurs n s.pending) 0 then [] else delivering n m ∷ []

-- a send that drops the message when the channel is full
abbrev pub try_send : Asks → ℕ → Reply → Asks
try_send s n r = maybe (record s { channel = put s.channel n (some r) }) (λ _. s) (s.channel n)

-- `wakePendingAsks`: its critical section, and its turn for one entry, which may have left by then
abbrev pub close_registration : Asks → Asks
close_registration s = record s { pending_registration_closed = true }

abbrev pub collect_entry : Asks → ℕ → List ℕ → List ℕ
collect_entry s n found = if nat_eqb (occurs n s.pending) 0 then found else n ∷ found

abbrev pub new_asks : Asks
new_asks = record {
  next_sn_id = 0;
  pending = [];
  pending_registration_closed = false;
  channel = λ _. none;
  replies = [];
}
