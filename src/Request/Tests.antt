-- ===== src/Request/Tests.antt =====
-- Asks from a handler, from a hook and from nowhere, and the theorems at one of them.
use grain.Base.{◌≡◌, ◌⊎◌, refl, Bool, true, false, none, some, [], ◌∷◌}
use grain.Request.{
  Message, user, err_code, no_value, value, failed, panicked, Gate, call_start, call_receive,
  current_execution, Meeting, ask, ask_impl, no_reentry_ask, await_reply, err_ask_not_running,
  err_ask_invalid_context, register, tell, cancel,
}
use grain.Request.Refused.{has_value, paired, ask-paired, ask-Succeeds, Succeeds}

-- T is an interface that every message has.
abbrev any : Message → Bool
any m = true

abbrev answered : Meeting
answered = record {
  target = true;
  open_registration = true;
  tell_panics = false;
  reply = some (user 5 none);
}

abbrev handler : Gate
handler = record { execution_owner_id = 7; executing_call = some call_receive }

ask-Succeeds_example : Succeeds any answered.reply (ask any answered true (some handler) 7).1
unfolding ask ask_impl await_reply current_execution
ask-Succeeds_example = ask-Succeeds any answered true (some handler) 7 refl

-- The reply is a nil pointer to an ErrCode: there is no error, and no value either.
nil_reply :
    (ask any (record answered { reply = some (err_code none) }) true (some handler) 7).1 ≡ no_value
unfolding ask ask_impl await_reply current_execution
nil_reply = refl

ask-paired_example :
    (let (effects, outcome) = ask any answered true (some handler) 7 in
      ((effects ≡ []) × (has_value outcome ≡ false))
      ⊎ ((effects ≡ paired)
          × (current_execution (some handler) 7 ≡ some call_receive)
          × (true ≡ true)
          × (answered.target ≡ true)
          × (answered.open_registration ≡ true)))
ask-paired_example = ask-paired any answered true (some handler) 7

-- from another goroutine, from `Started`, before the spawn, and from code that is no actor
refusals :
    (ask any answered true (some handler) 8 ≡ ([], failed err_ask_invalid_context))
    × (ask any answered true (some (record handler { executing_call = some call_start })) 7
        ≡ ([], failed err_ask_not_running))
    × (ask any answered false (some handler) 7 ≡ ([], panicked))
    × (no_reentry_ask any answered ≡ (register ∷ tell ∷ cancel ∷ [], value (user 5 none)))
unfolding ask ask_impl await_reply current_execution no_reentry_ask
refusals = (refl, refl, refl, refl)
