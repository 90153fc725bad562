-- ===== src/Base/Tally.antt =====
-- Goroutines as a list of places, counted by groups: each place has a weight in each group.
use Prim.Native.Nat.{ℕ, ◌+◌, ◌≤◌}
use mathlib.Core.Path.{◌≡◌, fun_ext}
use mathlib.Core.List.{List, [], ◌∷◌, ◌++◌}
use native.Mathlib.Omega.{arith}

module _ {W P : Type 0} (weight : W → P → ℕ) where
  abbrev pub tally : W → List P → ℕ
  tally w [] = 0
  tally w (p ∷ ps) = weight w p + tally w ps

  abbrev pub count_of : List P → W → ℕ
  count_of ts w = tally w ts

  abbrev pub rest_of : List P → List P → W → ℕ
  rest_of xs ys w = tally w xs + tally w ys

  -- what a goroutine adds to the counts of the others, and what those add that take its place
  abbrev pub before : (W → ℕ) → P → W → ℕ
  before g p w = g w + weight w p

  abbrev pub after : (W → ℕ) → List P → W → ℕ
  after g ps w = g w + tally w ps

  pub tally-append : (w : W) (xs ys : List P) → tally w (xs ++ ys) ≡ tally w xs + tally w ys
  tally-append w [] ys = omega arith
  tally-append w (x ∷ xs) ys = omega (arith, tally-append w xs ys)

  pub split_before : (xs ys : List P) (p : P) → count_of (xs ++ (p ∷ ys)) ≡ before (rest_of xs ys) p
  split_before xs ys p = fun_ext (λ w. omega (arith, tally-append w xs (p ∷ ys)))

  pub split_after : (xs ys ps : List P) → count_of (xs ++ (ps ++ ys)) ≡ after (rest_of xs ys) ps
  split_after xs ys ps =
      fun_ext (λ w. omega (arith, tally-append w xs (ps ++ ys), tally-append w ps ys))

  pub tally_here : (w : W) (xs ys : List P) (p : P) → weight w p ≤ tally w (xs ++ (p ∷ ys))
  tally_here w xs ys p = omega (arith, tally-append w xs (p ∷ ys))
