-- ===== src/SafeMap/Assoc.antt =====
-- The association lists that stand for Go maps.
use grain.Base.{
  ◌≡◌, refl, sym, ap, ◌∙◌, inl, inr, none, some, [], ◌∷◌, if◌then◌else◌, Comparable, ◌==◌, ==→eq,
  ==_self, Bool-cases, arith,
}
use grain.SafeMap.{Items, items_get, items_delete, items_set}

module _ {K V : Type 0} ⦃e : Comparable K⦄ where
  pub get-delete :
      (items : Items K V) (key j : K)
      → items_get (items_delete items key) j ≡ (if key == j then none else items_get items j)
  get-delete [] key j = elim (Bool-cases (key == j)) [ inl h ↦ rw h refl | inr h ↦ rw h refl ]
  get-delete ((k, v) ∷ items) key j = elim (Bool-cases (k == key)) [
    | inl h ↦
        let same : k ≡ key = ==→eq k key h in
        elim (Bool-cases (key == j)) [
          | inl g ↦ rw (h, g) (get-delete items key j ∙ rw g refl)
          | inr g ↦ rw (h, g, same) (get-delete items key j ∙ rw g refl)
        ]
    | inr h ↦ elim (Bool-cases (k == j)) [
      | inr g ↦ rw (h, g) (get-delete items key j)
      | inl g ↦ elim (Bool-cases (key == j)) [
        | inr f ↦ rw (h, g, f) refl
        | inl f ↦ absurd (
            let same : k ≡ key = ==→eq k j g ∙ sym (==→eq key j f) in
            ground (arith, ap (λ i. i == key) same, ==_self key))
      ]
    ]
  ]

  pub get-set :
      (items : Items K V) (key : K) (v : V) (j : K)
      → items_get (items_set items key v) j ≡ (if key == j then some v else items_get items j)
  get-set items key v j = elim (Bool-cases (key == j)) [
    | inl h ↦ rw h refl
    | inr h ↦ rw h (get-delete items key j ∙ rw h refl)
  ]
