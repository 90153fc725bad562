-- ===== src/Base/Xor.antt =====
-- `^` on numbers digit by digit: it undoes itself, and goes with shifting down.
use Prim.Native.Nat.{
  ℕ, zero, suc, ◌+◌, ◌-◌, ◌*◌, ◌/◌, ◌%◌, ◌^◌, ◌≤◌, ◌<◌, bit_xor, bit_xor-bitwise, differ,
}
use mathlib.Core.Path.{◌≡◌, refl, ap, ap₂, sym, ◌∙◌}
use native.Mathlib.Nat.{pow-suc, div-le_self, div-one, div-div-eq-div-mul}
use native.Mathlib.Omega.{arith}
use grain.Base.Bits.{digits_enough}

xor_zero_left : (b : ℕ) → bit_xor 0 b ≡ b
xor_zero_left b = bit_xor-bitwise 0 b

differ_lem : (x y : ℕ) → differ x y ≡ x - y + (y - x)
differ_lem zero y = omega arith
differ_lem (suc x) zero = omega arith
differ_lem (suc x) (suc y) = omega (arith, differ_lem x y)

-- one digit at a time, as arithmetic
bit_xor_halves :
    (a b : ℕ) → bit_xor a b ≡ bit_xor (a / 2) (b / 2) * 2 + (a % 2 - b % 2 + (b % 2 - a % 2))
bit_xor_halves zero b = omega (arith, xor_zero_left b, xor_zero_left (b / 2))
bit_xor_halves (suc a) b = omega (
  arith,
  bit_xor-bitwise (suc a) b,
  bit_xor-bitwise (suc a / 2) (b / 2),
  differ_lem (suc a % 2) (b % 2),
  digits_enough (λ t. t) differ a (suc a / 2) (suc a / 2) (b / 2) (omega arith) (omega arith),
)

xor_undo_upto : (n a b : ℕ) → a ≤ n → b ≤ n → bit_xor (bit_xor a b) b ≡ a
xor_undo_upto zero zero zero p q = refl
xor_undo_upto zero zero (suc b) p q = absurd (omega arith)
xor_undo_upto zero (suc a) b p q = absurd (omega arith)
xor_undo_upto (suc n) a b p q =
    let half : bit_xor a b / 2 ≡ bit_xor (a / 2) (b / 2) = omega (arith, bit_xor_halves a b) in
    omega (
      arith,
      bit_xor_halves a b,
      bit_xor_halves (bit_xor a b) b,
      ap (λ t. bit_xor t (b / 2)) half,
      xor_undo_upto n (a / 2) (b / 2) (omega arith) (omega arith),
    )

xor_undo : (a b : ℕ) → bit_xor (bit_xor a b) b ≡ a
xor_undo a b = xor_undo_upto (a + b) a b (omega arith) (omega arith)

div_power_suc : (k a : ℕ) → a / 2 ^ suc k ≡ a / 2 / 2 ^ k
div_power_suc k a =
    ap (λ t. a / t) (omega (arith, pow-suc 2 k)) ∙ sym (div-div-eq-div-mul a 2 (2 ^ k))

xor_shift : (k a b : ℕ) → bit_xor a b / 2 ^ k ≡ bit_xor (a / 2 ^ k) (b / 2 ^ k)
xor_shift zero a b = rw (div-one (bit_xor a b), div-one a, div-one b) refl
xor_shift (suc k) a b =
    let half : bit_xor a b / 2 ≡ bit_xor (a / 2) (b / 2) = omega (arith, bit_xor_halves a b) in
    rw (div_power_suc k (bit_xor a b), div_power_suc k a, div_power_suc k b, half)
      (xor_shift k (a / 2) (b / 2))

pub xor_below : (k a b : ℕ) → a < 2 ^ k → b < 2 ^ k → bit_xor a b < 2 ^ k
xor_below zero a b p q =
    let za : a ≡ 0 = omega arith in let zb : b ≡ 0 = omega arith in rw (za, zb) (omega arith)
xor_below (suc k) a b p q = omega (
  arith,
  pow-suc 2 k,
  bit_xor_halves a b,
  xor_below k (a / 2) (b / 2) (omega (arith, pow-suc 2 k)) (omega (arith, pow-suc 2 k)),
)

shrinks : (n k a : ℕ) → a ≤ suc n → a / 2 ^ suc k ≤ n
shrinks n k a h = omega (arith, div_power_suc k a, div-le_self (a / 2) (2 ^ k))

-- `h ^ (h >> k)` tells every `h` from every other.
shifted_upto :
    (n k a b : ℕ) → a ≤ n → b ≤ n → bit_xor a (a / 2 ^ suc k) ≡ bit_xor b (b / 2 ^ suc k) → a ≡ b
shifted_upto zero k a b p q e = omega arith
shifted_upto (suc n) k a b p q e =
    let under : a / 2 ^ suc k ≡ b / 2 ^ suc k =
      shifted_upto n k (a / 2 ^ suc k) (b / 2 ^ suc k) (shrinks n k a p) (shrinks n k b q) (
        sym (xor_shift (suc k) a (a / 2 ^ suc k))
        ∙ ap (λ t. t / 2 ^ suc k) e
        ∙ xor_shift (suc k) b (b / 2 ^ suc k)) in
    sym (xor_undo a (a / 2 ^ suc k)) ∙ ap₂ bit_xor e under ∙ xor_undo b (b / 2 ^ suc k)

pub xor_shifted-injective :
    (k a b : ℕ) → bit_xor a (a / 2 ^ suc k) ≡ bit_xor b (b / 2 ^ suc k) → a ≡ b
xor_shifted-injective k a b e = shifted_upto (a + b) k a b (omega arith) (omega arith) e
