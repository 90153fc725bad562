-- ===== src/SafeMap/Drain/Order.antt =====
-- The order within a shard does not matter where a key has one entry at most.
use mathlib.Core.List.{Permᴰ}
use grain.Base.{
  ℕ, zero, suc, ◌≤◌, ◌≡◌, refl, sym, ap, ◌∙◌, subst, inl, inr, List, [], ◌∷◌, Comparable, ◌==◌,
  Bool-cases, length, get_or, arith,
}
use grain.SafeMap.{Items}
use grain.SafeMap.Iter.Kept.{values}
use grain.SafeMap.Drain.{ShardSnapshots}

pub ShardSnapshots-get_or :
    {A : Type 0} (shards chs : List (List A))
    → ShardSnapshots shards chs
    → (i : ℕ) → Permᴰ (get_or shards i []) (get_or chs i [])
ShardSnapshots-get_or [] [] h i = Permᴰ.nil
ShardSnapshots-get_or [] (ch ∷ chs) h i = elim h [ ]
ShardSnapshots-get_or (items ∷ shards) [] h i = elim h [ ]
ShardSnapshots-get_or (items ∷ shards) (ch ∷ chs) (p, h) zero = p
ShardSnapshots-get_or (items ∷ shards) (ch ∷ chs) (p, h) (suc i) =
    ShardSnapshots-get_or shards chs h i

module _ {K V : Type 0} ⦃e : Comparable K⦄ (j : K) where
  swapped :
      (a b : K × V) (l : Items K V)
      → length (values j (a ∷ b ∷ l)) ≤ 1
      → values j (b ∷ a ∷ l) ≡ values j (a ∷ b ∷ l)
  swapped a b l h = elim (Bool-cases (a.0 == j)) [
    | inl s ↦ elim (Bool-cases (b.0 == j)) [
      | inl t ↦ absurd (ground (arith, h, s, t))
      | inr t ↦ rw (s, t) refl
    ]
    | inr s ↦ elim (Bool-cases (b.0 == j)) [ inl t ↦ rw (s, t) refl | inr t ↦ rw (s, t) refl ]
  ]

  pub values_permuted :
      {l l' : Items K V} → Permᴰ l l' → length (values j l) ≤ 1 → values j l' ≡ values j l
  values_permuted Permᴰ.nil h = refl
  values_permuted (Permᴰ.cons {a} {b} {l₁} {l₂} e d) h =
      ap (λ c. values j (c ∷ l₂)) (sym e) ∙ elim (Bool-cases (a.0 == j)) [
        | inl t ↦ let ih = values_permuted d (ground (arith, h, t)) in rw (t, ih) refl
        | inr f ↦ let ih = values_permuted d (ground (arith, h, f)) in rw (f, ih) refl
      ]
  values_permuted (Permᴰ.swap {a} {b} {a'} {b'} {l} e f) h =
      ap (λ c. values j (c ∷ b' ∷ l)) (sym f)
      ∙ ap (λ c. values j (b ∷ c ∷ l)) (sym e)
      ∙ swapped a b l h
  values_permuted (Permᴰ.trans d d') h =
      let first = values_permuted d h in
      values_permuted d' (subst (λ vs. length vs ≤ 1) (sym first) h) ∙ first
