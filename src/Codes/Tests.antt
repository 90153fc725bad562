-- ===== src/Codes/Tests.antt =====
-- Errors that wrap and join others, and their codes.
use grain.Base.{◌≡◌, refl, true, false, none, some}
use grain.Base.Int.{eqb_ℤ}
use grain.Base.Maybe.{maybe}
use grain.Codes.{
  Error, of_err_code, wrapped, joined, code_actor_not_found, code_err, is, as_err_code, as_code,
  code_of,
}
use grain.Codes.Chain.{is-code_of}

abbrev not_found : Error
not_found =
    wrapped "ask: "
      (of_err_code (some (record { code = code_actor_not_found; des = "actor not found" })))

is-code_of_example :
    is not_found code_actor_not_found
    ≡ maybe false (λ c. eqb_ℤ c code_actor_not_found) (code_of not_found)
is-code_of_example = is-code_of not_found code_actor_not_found refl

found : (is not_found code_actor_not_found ≡ true) × (is not_found code_err ≡ false)
unfolding is
found = (refl, refl)

-- In a join a nil pointer hides a later ErrCode from `CodeOf`, not from `errors.Is`.
hidden :
    (is (joined (of_err_code none) not_found) code_actor_not_found ≡ true)
    × (code_of (joined (of_err_code none) not_found) ≡ none)
unfolding is code_of as_err_code as_code
hidden = (refl, refl)
