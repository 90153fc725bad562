-- ===== src/Base/Order.antt =====
-- Go's `<` on strings, byte by byte: a total order. And `slices.Contains`.
use mathlib.Core.Path.{◌≡◌, refl}
use mathlib.Core.Bool.{Bool, true, false, not, ◌&&◌, ◌||◌}
use mathlib.Core.List.{List, [], ◌∷◌}
use native.Mathlib.Omega.{arith}
use grain.Base.Tests.{ltb, nat_eqb}
use grain.Base.Keys.{Comparable, Bytes, ◌==◌}

abbrev pub bytes_ltb : Bytes → Bytes → Bool
bytes_ltb xs [] = false
bytes_ltb [] (y ∷ ys) = true
bytes_ltb (x ∷ xs) (y ∷ ys) = ltb x y || (nat_eqb x y && bytes_ltb xs ys)

abbrev pub bytes_leb : Bytes → Bytes → Bool
bytes_leb xs ys = not (bytes_ltb ys xs)

pub bytes_leb_self : (xs : Bytes) → bytes_leb xs xs ≡ true
bytes_leb_self [] = refl
bytes_leb_self (x ∷ xs) = ground (arith, bytes_leb_self xs)

pub bytes_leb_antisym : (xs ys : Bytes) → bytes_leb xs ys ≡ true → bytes_leb ys xs ≡ true → xs ≡ ys
bytes_leb_antisym [] [] p q = refl
bytes_leb_antisym [] (y ∷ ys) p q = cc
bytes_leb_antisym (x ∷ xs) [] p q = cc
bytes_leb_antisym (x ∷ xs) (y ∷ ys) p q = ground (arith, bytes_leb_antisym xs ys)

pub bytes_leb_trans :
    (xs ys zs : Bytes) → bytes_leb xs ys ≡ true → bytes_leb ys zs ≡ true → bytes_leb xs zs ≡ true
bytes_leb_trans [] ys [] p q = refl
bytes_leb_trans [] ys (z ∷ zs) p q = refl
bytes_leb_trans (x ∷ xs) [] zs p q = cc
bytes_leb_trans (x ∷ xs) (y ∷ ys) [] p q = cc
bytes_leb_trans (x ∷ xs) (y ∷ ys) (z ∷ zs) p q = ground (arith, bytes_leb_trans xs ys zs)

pub bytes_ltb→leb : (xs ys : Bytes) → bytes_ltb xs ys ≡ true → bytes_leb xs ys ≡ true
bytes_ltb→leb [] ys h = ground arith
bytes_ltb→leb (x ∷ xs) [] h = cc
bytes_ltb→leb (x ∷ xs) (y ∷ ys) h = ground (arith, bytes_ltb→leb xs ys)

module _ {ℓ} {A : Type ℓ} ⦃e : Comparable A⦄ where
  abbrev pub contains : List A → A → Bool
  contains [] a = false
  contains (x ∷ xs) a = (x == a) || contains xs a
