-- ===== src/Base/Decimal.antt =====
-- strconv: the decimal text of an unsigned number, and reading it back.
use Prim.Native.Nat.{ℕ, zero, suc, ◌+◌, ◌-◌, ◌*◌, ◌/◌, ◌%◌, ◌≤◌, ◌<◌}
use mathlib.Core.Path.{◌≡◌, refl, ◌∙◌}
use mathlib.Core.Bool.{Bool, true, ◌&&◌}
use mathlib.Core.Logic.{◌≢◌, inl, inr}
use mathlib.Core.Option.{Option, none, some}
use mathlib.Core.List.{[], ◌∷◌, ◌++◌}
use native.Mathlib.Omega.{arith}
use grain.Base.Tests.{ltb, leb, if◌then◌else◌, Bool-cases, lt→ltb}
use grain.Base.Lists.{All}
use grain.Base.Keys.{Bytes}
use grain.Base.Maybe.{◌>>=◌}

-- on fuel, which is enough once it exceeds the number
unfoldable pub digits : ℕ → ℕ → Bytes
digits zero n = []
digits (suc fuel) n =
    let rest = digits fuel (n / 10) in
    if ltb n 10 then (48 + n) ∷ [] else rest ++ ((48 + n % 10) ∷ [])

-- `strconv.FormatUint(n, 10)`
abbrev pub format_uint : ℕ → Bytes
format_uint n = digits (suc n) n

abbrev pub is_digit : ℕ → Bool
is_digit b = leb 48 b && leb b 57

-- the digits after those that gave `acc`
abbrev pub read_digits : ℕ → Bytes → Option ℕ
read_digits acc [] = some acc
read_digits acc (b ∷ s) =
    let rest = read_digits (acc * 10 + (b - 48)) s in if is_digit b then rest else none

-- `strconv.ParseUint(s, 10, bits)` with `bound` for 2 ^ bits; `none` is its error
abbrev pub parse_uint : ℕ → Bytes → Option ℕ
parse_uint bound [] = none
parse_uint bound (b ∷ s) = read_digits 0 (b ∷ s) >>= (λ n. if ltb n bound then some n else none)

read-append :
    (acc : ℕ) (xs ys : Bytes)
    → read_digits acc (xs ++ ys) ≡ (read_digits acc xs >>= (λ a. read_digits a ys))
read-append acc [] ys = refl
read-append acc (b ∷ xs) ys = elim (Bool-cases (is_digit b)) [
  | inl h ↦ rw h (read-append (acc * 10 + (b - 48)) xs ys)
  | inr h ↦ rw h refl
]

digit_value : (n : ℕ) → n < 10 → (is_digit (48 + n) ≡ true) × (48 + n - 48 ≡ n)
digit_value n h = ground arith

pub read-digits : (fuel n : ℕ) → n < fuel → read_digits 0 (digits fuel n) ≡ some n
unfolding digits
read-digits zero n h = absurd (omega arith)
read-digits (suc fuel) n h = elim (Bool-cases (ltb n 10)) [
  | inl small ↦
      let (d, v) = digit_value n (ground (arith, small)) in rw small (rw d (ground (arith, v)))
  | inr big ↦
      let (d, v) = digit_value (n % 10) (omega arith) in
      let ten : 10 ≤ n = ground (arith, big) in
      rw big (
        read-append 0 (digits fuel (n / 10)) ((48 + n % 10) ∷ [])
        ∙ rw (read-digits fuel (n / 10) (omega (arith, h, ten))) (rw d (ground (arith, v))))
]

AllDigits-append :
    (xs ys : Bytes)
    → All (λ b. (48 ≤ b) × (b ≤ 57)) xs
    → All (λ b. (48 ≤ b) × (b ≤ 57)) ys
    → All (λ b. (48 ≤ b) × (b ≤ 57)) (xs ++ ys)
AllDigits-append [] ys h g = g
AllDigits-append (x ∷ xs) ys (e, h) g = (e, AllDigits-append xs ys h g)

pub digits-AllDigits : (fuel n : ℕ) → All (λ b. (48 ≤ b) × (b ≤ 57)) (digits fuel n)
unfolding digits
digits-AllDigits zero n = tt
digits-AllDigits (suc fuel) n = elim (Bool-cases (ltb n 10)) [
  | inl small ↦ rw small ((omega arith, ground (arith, small)), tt)
  | inr big ↦ rw big (
      AllDigits-append (digits fuel (n / 10)) ((48 + n % 10) ∷ []) (digits-AllDigits fuel (n / 10))
        ((omega arith, omega arith), tt))
]

append_nonempty : (xs : Bytes) (b : ℕ) → xs ++ (b ∷ []) ≢ []
append_nonempty [] b e = cc
append_nonempty (x ∷ xs) b e = cc

pub digits-nonempty : (fuel n : ℕ) → digits (suc fuel) n ≢ []
unfolding digits
digits-nonempty fuel n = elim (Bool-cases (ltb n 10)) [
  | inl small ↦ rw small (λ e. cc)
  | inr big ↦ rw big (append_nonempty (digits fuel (n / 10)) (48 + n % 10))
]

parse_read :
    (bound n : ℕ) (l : Bytes)
    → l ≢ []
    → read_digits 0 l ≡ some n
    → n < bound
    → parse_uint bound l ≡ some n
parse_read bound n [] ne e h = absurd (ne refl)
parse_read bound n (b ∷ s) ne e h = rw e (rw (lt→ltb n bound h) refl)

-- What `FormatUint` writes, `ParseUint` reads back.
pub parse-format : (bound n : ℕ) → n < bound → parse_uint bound (format_uint n) ≡ some n
parse-format bound n h =
    parse_read bound n (format_uint n) (digits-nonempty n n) (read-digits (suc n) n (omega arith)) h
