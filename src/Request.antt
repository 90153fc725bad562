-- ===== src/Request.antt =====
-- request_helper.go and `Ask` of baseactor.go, with currentExecution of execution_gate.go: one call of
-- Ask from its checks to its result. What interleaves with it is in Ask.
pub mod Refused
mod Tests
use Prim.Native.String.{String}
use grain.Base.{
  ℕ, Bool, true, false, not, ◌||◌, Option, none, some, List, [], ◌∷◌, ◌++◌, nat_eqb, if◌then◌else◌,
}
use grain.Base.Maybe.{maybe}
use grain.Codes.{
  ErrCode, with_err, code_ask_not_running, code_ask_invalid_context, code_system_stopping,
}

-- A message, as `awaitReply` tells them apart: the poison, a pointer to an ErrCode, which may be nil,
-- and any other one, with its text where it is an error.
pub data Message : Type 0 where
  poison : Message
  err_code : Option ErrCode → Message
  user : (id : ℕ) → Option String → Message

-- what Ask comes to: a value, the zero value of T with no error, an error, or a panic
pub data Outcome : Type 0 where
  value : Message → Outcome
  no_value : Outcome
  failed : ErrCode → Outcome
  panicked : Outcome

-- message.go
abbrev pub err_ask_invalid_context : ErrCode
err_ask_invalid_context = record {
  code = code_ask_invalid_context;
  des = "ask requires the owning actor handler goroutine";
}

abbrev pub err_system_stopping : ErrCode
err_system_stopping = record { code = code_system_stopping; des = "actor system is stopping" }

abbrev pub err_ask_not_running : ErrCode
err_ask_not_running = record {
  code = code_ask_not_running;
  des =
      "ask is only allowed from a normal handler, not Started() or PreStop(); tell self a message to defer startup work";
}

-- `awaitReply[T]`; `is_t` is the test for T, and no reply is the timeout
pub await_reply : (Message → Bool) → Option Message → Outcome
await_reply is_t none = failed (with_err "ask reply timeout")
await_reply is_t (some poison) = failed (with_err "ask reply poisoned")
await_reply is_t (some (err_code none)) = no_value
await_reply is_t (some (err_code (some e))) = failed e
await_reply is_t (some (user id text)) =
    if is_t (user id text)
    then value (user id text)
    else maybe (failed (with_err "msg type err")) (λ t. failed (with_err t)) text

-- What a call of Ask does, in order.
pub data Effect : Type 0 where
  register : Effect
  suspend : Effect
  tell : Effect
  cancel : Effect
  resume : Effect

-- `callKind`
pub data CallKind : Type 0 where
  call_start call_receive call_stop : CallKind

-- `executionGate`: who may execute, zero for nobody, and the call that does
pub record Gate : Type 0 where
  pub execution_owner_id : ℕ
  pub executing_call : Option CallKind

-- `currentExecution`, on the goroutine `goid`
pub current_execution : Option Gate → ℕ → Option CallKind
current_execution none goid = none
current_execution (some g) goid =
    if nat_eqb g.execution_owner_id 0 || not (nat_eqb g.execution_owner_id goid)
    then none
    else g.executing_call

-- What Ask meets: whether there is a target, whether registration is open, whether the send panics, and
-- the reply, if one comes in time
pub record Meeting : Type 0 where
  pub target : Bool
  pub open_registration : Bool
  pub tell_panics : Bool
  pub reply : Option Message

-- the deferred calls of `askImpl`, the last one first
abbrev pub deferred : Bool → List Effect
deferred from_actor = cancel ∷ (if from_actor then resume ∷ [] else [])

-- `askImpl`; `from_actor` is whether there is a call to suspend
pub ask_impl : (Message → Bool) → Meeting → (from_actor : Bool) → List Effect × Outcome
ask_impl is_t x from_actor =
    if not x.target
    then ([], failed (with_err "ask target is nil"))
    else if not x.open_registration
    then ([], failed err_system_stopping)
    else (
      register ∷ ((if from_actor then suspend ∷ [] else []) ++ (tell ∷ deferred from_actor)),
      if x.tell_panics then panicked else await_reply is_t x.reply,
    )

-- `NoReentryAsk`
pub no_reentry_ask : (Message → Bool) → Meeting → List Effect × Outcome
no_reentry_ask is_t x = ask_impl is_t x false

abbrev pub ask_in : (Message → Bool) → Meeting → Option CallKind → List Effect × Outcome
ask_in is_t x none = ([], failed err_ask_invalid_context)
ask_in is_t x (some call_receive) = ask_impl is_t x true
ask_in is_t x (some _) = ([], failed err_ask_not_running)

-- `BaseActor.Ask`; `inited` is whether the actor was spawned
pub ask :
    (Message → Bool) → Meeting → (inited : Bool) → Option Gate → (goid : ℕ) → List Effect × Outcome
ask is_t x inited gate goid =
    if inited then ask_in is_t x (current_execution gate goid) else ([], panicked)
