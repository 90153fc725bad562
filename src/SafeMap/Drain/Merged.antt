-- ===== src/SafeMap/Drain/Merged.antt =====
-- What the merged channel gives of one key.
use grain.Base.{
  ℕ, zero, suc, ◌≡◌, ◌≢◌, refl, sym, ap, ◌∙◌, inl, inr, List, [], ◌∷◌, ◌++◌, Comparable, ◌==◌,
  Bool-cases, length, get_or, ℕ_discrete, arith,
}
use grain.SafeMap.{Items}
use grain.SafeMap.Iter.Kept.{values}
use grain.SafeMap.Drain.{Merge, close, receive}

module _ {A : Type 0} where
  get_or-here : (xs ys : List A) (a d : A) → get_or (xs ++ (a ∷ ys)) (length xs) d ≡ a
  get_or-here [] ys a d = refl
  get_or-here (x ∷ xs) ys a d = get_or-here xs ys a d

  get_or-there :
      (xs ys : List A) (a b d : A) (i : ℕ)
      → length xs ≢ i
      → get_or (xs ++ (a ∷ ys)) i d ≡ get_or (xs ++ (b ∷ ys)) i d
  get_or-there [] ys a b d zero h = absurd (h refl)
  get_or-there [] ys a b d (suc i) h = refl
  get_or-there (x ∷ xs) ys a b d zero h = refl
  get_or-there (x ∷ xs) ys a b d (suc i) h = get_or-there xs ys a b d i (λ e. h (ap suc e))

module _ {K V : Type 0} ⦃e : Comparable K⦄ (j : K) where
  -- no entry of the list is under the key
  apart :
      (t : K × V) (l : Items K V)
      → values j (t ∷ l) ≡ []
      → (values j l ≡ []) × ((out : Items K V) → values j (t ∷ out) ≡ values j out)
  apart t l h = elim (Bool-cases (t.0 == j)) [
    | inl s ↦ absurd (ground (arith, h, s))
    | inr f ↦ (ground (arith, h, f), λ out. rw f refl)
  ]

  with_first :
      (t : K × V) (l out : Items K V)
      → values j out ≡ values j l
      → values j (t ∷ out) ≡ values j (t ∷ l)
  with_first t l out h = elim (Bool-cases (t.0 == j)) [
    | inl s ↦ rw (s, h) refl
    | inr f ↦ rw (f, h) refl
  ]

  -- where one channel only has entries under the key, they come in its order
  pub Merge-values :
      {chs : List (Items K V)} {out : Items K V}
      → Merge chs out
      → (at : ℕ) → ((i : ℕ) → at ≢ i → values j (get_or chs i []) ≡ [])
      → values j out ≡ values j (get_or chs at [])
  Merge-values (close h) at none = sym (ap (values j) (h at))
  Merge-values {chs} {out = t' ∷ out'} (receive xs ys t l e rest) at none =
      let shape = λ (i : ℕ). ap (λ c. get_or c i []) e in
      let taken : get_or chs (length xs) [] ≡ t ∷ l =
        shape (length xs) ∙ get_or-here xs ys (t ∷ l) [] in
      let left : get_or (xs ++ (l ∷ ys)) (length xs) [] ≡ l = get_or-here xs ys l [] in
      let same : (i : ℕ) → length xs ≢ i → get_or (xs ++ (l ∷ ys)) i [] ≡ get_or chs i [] =
        λ i h. get_or-there xs ys l (t ∷ l) [] i h ∙ sym (shape i) in
      elim (ℕ_discrete (length xs) at) [
        | yes here ↦
            let ih =
              Merge-values rest at
                (λ i other. ap (values j) (same i (λ p. other (sym here ∙ p))) ∙ none i other) in
            with_first t l out' (
              ih
              ∙ ap (λ i. values j (get_or (xs ++ (l ∷ ys)) i [])) (sym here)
              ∙ ap (values j) left)
            ∙ ap (values j) (sym taken ∙ ap (λ i. get_or chs i []) here)
        | no away ↦
            let (gone, skips) =
              apart t l (ap (values j) (sym taken) ∙ none (length xs) (λ p. away (sym p))) in
            let ih = Merge-values rest at (λ i other. elim (ℕ_discrete (length xs) i) [
              | yes p ↦
                  ap (λ i. values j (get_or (xs ++ (l ∷ ys)) i [])) (sym p)
                  ∙ ap (values j) left
                  ∙ gone
              | no p ↦ ap (values j) (same i p) ∙ none i other
            ]) in
            skips out' ∙ ih ∙ ap (values j) (same at away)
      ]
