-- ===== src/Base/Keys.antt =====
-- Comparable keys: Go's `==` on numbers and on strings, which are lists of bytes here.
use Prim.Native.Nat.{ℕ}
use mathlib.Core.Path.{◌≡◌, refl}
use mathlib.Core.Logic.{◌↔◌, ◌≢◌, ◌⊎◌, inl, inr}
use mathlib.Core.Bool.{Bool, true, false, ◌&&◌}
use mathlib.Core.List.{List, [], ◌∷◌}
use native.Mathlib.Omega.{arith}
use grain.Base.Tests.{nat_eqb, nat_eqb_iff, Bool-cases}

pub record Comparable {ℓ} (A : Type ℓ) : Type ℓ where
  pub same : A → A → Bool
  pub same_iff : (a b : A) → (same a b ≡ true) ↔ (a ≡ b)

infix 50 ◌==◌
abbrev pub ◌==◌ {ℓ} : {A : Type ℓ} ⦃e : Comparable A⦄ → A → A → Bool
◌==◌ ⦃e⦄ = e.same

module _ {ℓ} {A : Type ℓ} ⦃e : Comparable A⦄ where
  pub ==→eq : (a b : A) → (a == b) ≡ true → a ≡ b
  ==→eq a b = (e.same_iff a b).0

  pub ==_self : (a : A) → (a == a) ≡ true
  ==_self a = (e.same_iff a a).1 refl

  pub ==_of_ne : (a b : A) → a ≢ b → (a == b) ≡ false
  ==_of_ne a b h = elim (Bool-cases (a == b)) [ inl t ↦ absurd (h (==→eq a b t)) | inr f ↦ f ]

  pub ==_cases : (a b : A) → (a ≡ b) ⊎ ((a == b) ≡ false)
  ==_cases a b = elim (Bool-cases (a == b)) [ inl t ↦ inl (==→eq a b t) | inr f ↦ inr f ]

instance abbrev pub nat_comparable : Comparable ℕ
nat_comparable = record { same = nat_eqb; same_iff = nat_eqb_iff }

-- A Go string: its bytes.
abbrev pub Bytes : Type 0
Bytes = List ℕ

abbrev pub bytes_eqb : Bytes → Bytes → Bool
bytes_eqb [] [] = true
bytes_eqb [] (y ∷ ys) = false
bytes_eqb (x ∷ xs) [] = false
bytes_eqb (x ∷ xs) (y ∷ ys) = nat_eqb x y && bytes_eqb xs ys

bytes_eqb→eq : (xs ys : Bytes) → bytes_eqb xs ys ≡ true → xs ≡ ys
bytes_eqb→eq [] [] h = refl
bytes_eqb→eq [] (y ∷ ys) h = cc
bytes_eqb→eq (x ∷ xs) [] h = cc
bytes_eqb→eq (x ∷ xs) (y ∷ ys) h = ground (arith, bytes_eqb→eq xs ys)

bytes_eqb_self : (xs : Bytes) → bytes_eqb xs xs ≡ true
bytes_eqb_self [] = refl
bytes_eqb_self (x ∷ xs) = ground (arith, bytes_eqb_self xs)

pub bytes_eqb_iff : (xs ys : Bytes) → (bytes_eqb xs ys ≡ true) ↔ (xs ≡ ys)
bytes_eqb_iff xs ys = (bytes_eqb→eq xs ys, λ p. rw p (bytes_eqb_self ys))

instance abbrev pub bytes_comparable : Comparable Bytes
bytes_comparable = record { same = bytes_eqb; same_iff = bytes_eqb_iff }
