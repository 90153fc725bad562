-- ===== src/Codes.antt =====
-- message/msg.code.go: the codes of failures, and how they are found in a chain of errors. `errors.Is`
-- and `errors.As` are written out for what the code asks them; an error that joins more than two is a
-- join of joins.
pub mod Chain
mod Tests
use Prim.Native.String.{String}
use grain.Base.{ℕ, Bool, true, false, ◌||◌, Option, none, some, List, [], ◌∷◌, if◌then◌else◌}
use grain.Base.Int.{ℤ, pos, negsuc, eqb_ℤ}
use grain.Base.Maybe.{maybe}

-- `Code`, an int32
abbrev pub Code : Type 0
Code = ℤ

abbrev pub code_err : Code
code_err = negsuc 0

abbrev pub code_actor_not_found : Code
code_actor_not_found = negsuc 1

abbrev pub code_ask_not_running : Code
code_ask_not_running = negsuc 2

abbrev pub code_ask_invalid_context : Code
code_ask_invalid_context = negsuc 3

abbrev pub code_system_stopping : Code
code_system_stopping = negsuc 4

pub record ErrCode : Type 0 where
  pub code : Code
  pub des : String

-- An error: a Code, a pointer to an ErrCode, which may be nil, any other one that wraps nothing, one
-- that wraps an error (`%w`), or one that joins two.
pub data Error : Type 0 where
  of_code : Code → Error
  of_err_code : Option ErrCode → Error
  other : String → Error
  wrapped : String → Error → Error
  joined : Error → Error → Error

-- `(*ErrCode).Is` at a Code
abbrev pub err_code_is : Option ErrCode → Code → Bool
err_code_is none target = false
err_code_is (some x) target = eqb_ℤ x.code target

-- `errors.Is(err, target)` at a Code: equal to it, or by the method, or so for what it unwraps to
pub is : Error → Code → Bool
is (of_code c) target = eqb_ℤ c target
is (of_err_code x) target = err_code_is x target
is (other des) target = false
is (wrapped des err) target = is err target
is (joined a b) target = is a target || is b target

-- `errors.As` into a *ErrCode: the first one, which may be nil
pub as_err_code : Error → Option (Option ErrCode)
as_err_code (of_code c) = none
as_err_code (of_err_code x) = some x
as_err_code (other des) = none
as_err_code (wrapped des err) = as_err_code err
as_err_code (joined a b) = maybe (as_err_code b) some (as_err_code a)

-- `errors.As` into a Code
pub as_code : Error → Option Code
as_code (of_code c) = some c
as_code (of_err_code x) = none
as_code (other des) = none
as_code (wrapped des err) = as_code err
as_code (joined a b) = maybe (as_code b) some (as_code a)

abbrev pub code_of_first : Option Code → Option (Option ErrCode) → Option Code
code_of_first code (some (some e)) = some e.code
code_of_first code _ = code

-- `CodeOf`; `none` is its false
pub code_of : Error → Option Code
code_of err = code_of_first (as_code err) (as_err_code err)

abbrev pub with_err : String → ErrCode
with_err des = record { code = code_err; des = des }
