-- ===== src/Base/Maybe.antt =====
-- Chains of steps that can fail, over the library's `Option`.
use mathlib.Core.Path.{◌≡◌, refl}
use mathlib.Core.Option.{Option, none, some}

infixl 5 ◌>>=◌
abbrev pub ◌>>=◌ {ℓ κ} : {A : Type ℓ} {B : Type κ} → Option A → (A → Option B) → Option B
none >>= f = none
some a >>= f = f a

pub >>=-eq-some {ℓ κ} :
    {A : Type ℓ} {B : Type κ} (m : Option A) (f : A → Option B) {b : B}
    → (m >>= f) ≡ some b
    → (a : A) × (m ≡ some a) × (f a ≡ some b)
>>=-eq-some none f h = cc
>>=-eq-some (some a) f h = (a, refl, h)

-- a test of an optional result: what to do where there is none, and with one
module _ {ℓ κ} {A : Type ℓ} {B : Type κ} where
  abbrev pub maybe : B → (A → B) → Option A → B
  maybe absent present none = absent
  maybe absent present (some a) = present a

pub maybe_self {ℓ} : {A : Type ℓ} (o : Option A) → maybe none some o ≡ o
maybe_self none = refl
maybe_self (some a) = refl
