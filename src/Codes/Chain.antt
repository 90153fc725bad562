-- ===== src/Codes/Chain.antt =====
-- `errors.Is` and `CodeOf` tell the same of an error.
use grain.Base.{◌≡◌, refl, Bool, true, false, none, some}
use grain.Base.Int.{eqb_ℤ}
use grain.Base.Maybe.{maybe}
use grain.Codes.{
  Code, Error, of_code, of_err_code, other, wrapped, joined, is, as_err_code, as_code, code_of,
}

-- one error wraps the next, and none joins two
abbrev pub is_chain : Error → Bool
is_chain (wrapped des err) = is_chain err
is_chain (joined a b) = false
is_chain _ = true

-- On a chain of errors, nil pointers included, `errors.Is` finds a code just where `CodeOf` gives it.
pub is-code_of :
    (err : Error) (target : Code)
    → is_chain err ≡ true
    → is err target ≡ maybe false (λ c. eqb_ℤ c target) (code_of err)
unfolding is code_of as_err_code as_code
is-code_of (of_code c) target h = refl
is-code_of (of_err_code none) target h = refl
is-code_of (of_err_code (some x)) target h = refl
is-code_of (other des) target h = refl
is-code_of (wrapped des err) target h = is-code_of err target h
is-code_of (joined a b) target h = cc
