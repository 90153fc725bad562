-- ===== src/AddrHash/Hash.antt =====
-- The hash behind the score: the resumed form is the whole one, and the finalizer adds no ties.
use native.Mathlib.Nat.{div-le_self}
use grain.Base.{ℕ, ◌/◌, ◌^◌, ◌<◌, ◌≡◌, refl, ap, [], ◌∷◌, ◌++◌, Bytes, sym, ◌∙◌, arith}
use grain.Base.Xor.{xor_shifted-injective, xor_below}
use grain.AddrHash.{
  fnv32a_add, fnv32a_start, fnv32a_two, fmix32, mul_u32, xor_shift, fnv_prime_32,
  fnv_offset_basis_32,
}
use Prim.Native.Nat.{bit_xor}

fnv32a_add-append : (a b : Bytes) (h : ℕ) → fnv32a_add h (a ++ b) ≡ fnv32a_add (fnv32a_add h a) b
unfolding fnv32a_add
fnv32a_add-append [] b h = refl
fnv32a_add-append (x ∷ a) b h = fnv32a_add-append a b (mul_u32 (bit_xor h x) fnv_prime_32)

-- Hashing a prefix once and going on from there gives the hash of the whole string.
pub fnv32a_two_lem : (a b : Bytes) → fnv32a_two a b ≡ fnv32a_start (a ++ b)
unfolding fnv32a_two fnv32a_start
fnv32a_two_lem a b = sym (fnv32a_add-append a b fnv_offset_basis_32)

-- The two factors have inverses modulo 2 ^ 32.
first_factor : (a : ℕ) → a < 2 ^ 32 → mul_u32 (mul_u32 a 0x85ebca6b) 2781581891 ≡ a
first_factor a p = omega arith

second_factor : (a : ℕ) → a < 2 ^ 32 → mul_u32 (mul_u32 a 0xc2b2ae35) 2127672349 ≡ a
second_factor a p = omega arith

xor_shift_below : (k h : ℕ) → h < 2 ^ 32 → xor_shift k h < 2 ^ 32
xor_shift_below k h p = xor_below 32 h (h / 2 ^ k) p (omega (arith, div-le_self h (2 ^ k)))

-- No two uint32 values have the same finalized value.
pub fmix32-injective : (a b : ℕ) → a < 2 ^ 32 → b < 2 ^ 32 → fmix32 a ≡ fmix32 b → a ≡ b
unfolding fmix32
fmix32-injective a b p q e =
    let turn : ℕ → ℕ = λ h. mul_u32 (xor_shift 16 h) 0x85ebca6b in
    let second : mul_u32 (xor_shift 13 (turn a)) 0xc2b2ae35
        ≡ mul_u32 (xor_shift 13 (turn b)) 0xc2b2ae35 =
      xor_shifted-injective 15 _ _ e in
    let below : (h : ℕ) → turn h < 2 ^ 32 = λ h. omega arith in
    let first : turn a ≡ turn b = xor_shifted-injective 12 (turn a) (turn b) (
      sym (second_factor (xor_shift 13 (turn a)) (xor_shift_below 13 (turn a) (below a)))
      ∙ ap (λ h. mul_u32 h 2127672349) second
      ∙ second_factor (xor_shift 13 (turn b)) (xor_shift_below 13 (turn b) (below b))) in
    xor_shifted-injective 15 a b (
      sym (first_factor (xor_shift 16 a) (xor_shift_below 16 a p))
      ∙ ap (λ h. mul_u32 h 2781581891) first
      ∙ first_factor (xor_shift 16 b) (xor_shift_below 16 b q))
