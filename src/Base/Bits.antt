-- ===== src/Base/Bits.antt =====
-- `&` with a mask of low ones and `|` of fields that do not overlap, as arithmetic.
use Prim.Native.Nat.{
  ℕ, zero, suc, ◌+◌, ◌*◌, ◌/◌, ◌%◌, ◌^◌, ◌≤◌, ◌<◌, min, max, bit_and, bit_or, digits,
  bit_and-bitwise, bit_or-bitwise,
}
use mathlib.Core.Path.{◌≡◌, refl, ap}
use native.Mathlib.Nat.{pow-suc, one-le-pow, div-add-mod}
use native.Mathlib.Omega.{arith}

-- The recursion that the two operations share, over any rule for one digit.
module _ (rest : ℕ → ℕ) (rule : ℕ → ℕ → ℕ) where
  pub digits_enough :
      (n m a b : ℕ) → a ≤ n → a ≤ m → digits rest rule n a b ≡ digits rest rule m a b
  digits_enough zero zero a b p q = refl
  digits_enough zero (suc m) zero b p q = refl
  digits_enough zero (suc m) (suc a) b p q = absurd (omega arith)
  digits_enough (suc n) zero zero b p q = refl
  digits_enough (suc n) zero (suc a) b p q = absurd (omega arith)
  digits_enough (suc n) (suc m) zero b p q = refl
  digits_enough (suc n) (suc m) (suc a) b p q =
      let half : digits rest rule n (suc a / 2) (b / 2) ≡ digits rest rule m (suc a / 2) (b / 2) =
        digits_enough n m (suc a / 2) (b / 2) (omega arith) (omega arith) in
      ap (λ (t : ℕ). t * 2 + rule (suc a % 2) (b % 2)) half

and_zero_left : (b : ℕ) → bit_and 0 b ≡ 0
and_zero_left b = bit_and-bitwise 0 b

or_zero_left : (b : ℕ) → bit_or 0 b ≡ b
or_zero_left b = bit_or-bitwise 0 b

pub bit_and_halves : (a b : ℕ) → bit_and a b ≡ bit_and (a / 2) (b / 2) * 2 + min (a % 2) (b % 2)
bit_and_halves zero b = omega (arith, and_zero_left b, and_zero_left (b / 2))
bit_and_halves (suc a) b = omega (
  arith,
  bit_and-bitwise (suc a) b,
  bit_and-bitwise (suc a / 2) (b / 2),
  digits_enough (λ _. zero) min a (suc a / 2) (suc a / 2) (b / 2) (omega arith) (omega arith),
)

pub bit_or_halves : (a b : ℕ) → bit_or a b ≡ bit_or (a / 2) (b / 2) * 2 + max (a % 2) (b % 2)
bit_or_halves zero b = omega (arith, or_zero_left b, or_zero_left (b / 2))
bit_or_halves (suc a) b = omega (
  arith,
  bit_or-bitwise (suc a) b,
  bit_or-bitwise (suc a / 2) (b / 2),
  digits_enough (λ t. t) max a (suc a / 2) (suc a / 2) (b / 2) (omega arith) (omega arith),
)

-- `k` ones
abbrev pub ones : ℕ → ℕ
ones zero = 0
ones (suc k) = ones k * 2 + 1

and_zero_upto : (n a : ℕ) → a ≤ n → bit_and a 0 ≡ 0
and_zero_upto zero zero h = refl
and_zero_upto zero (suc a) h = absurd (omega arith)
and_zero_upto (suc n) zero h = refl
and_zero_upto (suc n) (suc a) h =
    omega (arith, bit_and_halves (suc a) 0, and_zero_upto n (suc a / 2) (omega arith))

double_power : (k : ℕ) → 2 ^ suc k ≡ 2 ^ k * 2
double_power k = omega (arith, pow-suc 2 k)

mod_double : (m a : ℕ) → 0 < m → a % (m * 2) ≡ a / 2 % m * 2 + a % 2
mod_double m a h = grind (arith, div-add-mod a (m * 2), div-add-mod (a / 2) m)

pub bit_and-ones : (k a : ℕ) → bit_and a (ones k) ≡ a % 2 ^ k
bit_and-ones zero a = omega (arith, and_zero_upto a a (omega arith))
bit_and-ones (suc k) a =
    let shift : (ones k * 2 + 1) / 2 ≡ ones k = omega arith in
    omega (
      arith,
      bit_and_halves a (ones (suc k)),
      ap (bit_and (a / 2)) shift,
      bit_and-ones k (a / 2),
      ap (λ (t : ℕ). a % t) (double_power k),
      mod_double (2 ^ k) a (one-le-pow k 2 (omega arith)),
    )

or_zero_upto : (n a : ℕ) → a ≤ n → bit_or a 0 ≡ a
or_zero_upto zero zero h = refl
or_zero_upto zero (suc a) h = absurd (omega arith)
or_zero_upto (suc n) zero h = refl
or_zero_upto (suc n) (suc a) h =
    omega (arith, bit_or_halves (suc a) 0, or_zero_upto n (suc a / 2) (omega arith))

double_field : (q k : ℕ) → q * 2 ^ suc k ≡ q * 2 ^ k * 2
double_field q k = omega (arith, ap (λ (t : ℕ). q * t) (pow-suc 2 k))

-- A field above bit `k` and one below it.
pub bit_or_apart : (k q r : ℕ) → r < 2 ^ k → bit_or (q * 2 ^ k) r ≡ q * 2 ^ k + r
bit_or_apart zero q r h =
    let none' : r ≡ 0 = omega arith in
    let one : q * 2 ^ 0 ≡ q = omega arith in
    rw (none', one, or_zero_upto q q (omega arith)) (omega arith)
bit_or_apart (suc k) q r h =
    let half : q * 2 ^ suc k / 2 ≡ q * 2 ^ k = omega (arith, double_field q k) in
    omega (
      arith,
      bit_or_halves (q * 2 ^ suc k) r,
      double_field q k,
      ap (λ (t : ℕ). bit_or t (r / 2)) half,
      bit_or_apart k q (r / 2) (omega (arith, double_power k)),
    )
