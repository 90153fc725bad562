-- ===== src/SafeMap/Iter/Range.antt =====
-- What `IterCb` and `rangeIt` visit, against what `Get` finds.
use grain.Base.{
  ℕ, zero, suc, ◌+◌, ◌≡◌, ◌≢◌, refl, sym, ap, ◌∙◌, inl, inr, List, [], ◌∷◌, ◌++◌, append_assoc,
  append-nil, Comparable, ◌==◌, nat_eqb, nat_eqb_iff, Bool-cases, length, length-append, get_or,
  arith,
}
use grain.SafeMap
use grain.SafeMap.{ConcurrentMap, Items, create, count, shard_sizes, get_shard}
use grain.SafeMap.Refine.{Op}
use grain.SafeMap.Iter.{iter_items, iter_shards, add_entry, snapshot_of, range_entries, range_it}
use grain.SafeMap.Iter.Kept.{to_list, values, Kept, after, after_create-Kept}

module _ {K V : Type 0} where
  length-iter_items :
      (items s : Items K V) → length (iter_items add_entry items s) ≡ length s + length items
  length-iter_items [] s = omega arith
  length-iter_items ((k, v) ∷ items) s =
      omega (arith, length-iter_items items (add_entry s k v), length-append s ((k, v) ∷ []))

  length-iter_shards :
      (shards : List (Items K V)) (s : Items K V)
      → length (iter_shards add_entry shards s) ≡ length s + shard_sizes shards
  length-iter_shards [] s = omega arith
  length-iter_shards (items ∷ shards) s =
      omega
        (arith, length-iter_shards shards (iter_items add_entry items s), length-iter_items items s)

  range_entries-logged :
      (items s : Items K V) → range_entries add_entry items s ≡ iter_items add_entry items s
  range_entries-logged [] s = refl
  range_entries-logged ((k, v) ∷ items) s = range_entries-logged items (add_entry s k v)

  module _ ⦃e : Comparable K⦄ where
    values-append : (j : K) (a b : Items K V) → values j (a ++ b) ≡ values j a ++ values j b
    values-append j [] b = refl
    values-append j ((k, v) ∷ a) b = elim (Bool-cases (k == j)) [
      | inl t ↦ rw t (ap (λ l. v ∷ l) (values-append j a b))
      | inr f ↦ rw f (values-append j a b)
    ]

    values-iter_items :
        (j : K) (items s : Items K V)
        → values j (iter_items add_entry items s) ≡ values j s ++ values j items
    values-iter_items j [] s = sym (append-nil (values j s))
    values-iter_items j ((k, v) ∷ items) s =
        values-iter_items j items (add_entry s k v)
        ∙ ap (λ l. l ++ values j items) (values-append j s ((k, v) ∷ []))
        ∙ append_assoc (values j s) (values j ((k, v) ∷ [])) (values j items)
        ∙ elim (Bool-cases (k == j)) [ inl t ↦ rw t refl | inr f ↦ rw f refl ]

    abbrev all_values : K → List (Items K V) → List V
    all_values j [] = []
    all_values j (items ∷ shards) = values j items ++ all_values j shards

    values-iter_shards :
        (j : K) (shards : List (Items K V)) (s : Items K V)
        → values j (iter_shards add_entry shards s) ≡ values j s ++ all_values j shards
    values-iter_shards j [] s = sym (append-nil (values j s))
    values-iter_shards j (items ∷ shards) s =
        values-iter_shards j shards (iter_items add_entry items s)
        ∙ ap (λ l. l ++ all_values j shards) (values-iter_items j items s)
        ∙ append_assoc (values j s) (values j items) (all_values j shards)

    all_values-none :
        (j : K) (shards : List (Items K V))
        → ((i : ℕ) → values j (get_or shards i []) ≡ [])
        → all_values j shards ≡ []
    all_values-none j [] h = refl
    all_values-none j (items ∷ shards) h = rw (h 0) (all_values-none j shards (λ i. h (suc i)))

    all_values-at :
        (j : K) (shards : List (Items K V)) (at : ℕ)
        → ((i : ℕ) → at ≢ i → values j (get_or shards i []) ≡ [])
        → all_values j shards ≡ values j (get_or shards at [])
    all_values-at j [] at h = refl
    all_values-at j (items ∷ shards) zero h =
        rw (all_values-none j shards (λ i. h (suc i) (ground arith))) (append-nil (values j items))
    all_values-at j (items ∷ shards) (suc at) h =
        rw (h 0 (ground arith))
          (all_values-at j shards at (λ i other. h (suc i) (λ p. other (omega (arith, p)))))

    module _ (sharding : K → ℕ) where
      all_values-get :
          (m : ConcurrentMap K V) (key : K)
          → Kept sharding m.shards
          → all_values key m.shards ≡ to_list (SafeMap.get sharding m key)
      unfolding Kept SafeMap.get
      all_values-get m key kept =
          let at = get_shard sharding key in
          all_values-at key m.shards at (λ i other. elim (Bool-cases (nat_eqb at i)) [
            | inl t ↦ absurd (other ((nat_eqb_iff at i).0 t))
            | inr f ↦ kept i key ∙ rw f refl
          ])
          ∙ kept at key
          ∙ rw ((nat_eqb_iff at at).1 refl) refl

      -- After any calls on an empty map, what `rangeIt` goes through has as many entries as `Count`
      -- says, and for every key it has the value that `Get` finds, once, and none where `Get` finds none.
      pub range_it-by_get :
          (ops : List (Op K V)) (key : K)
          → let m = after sharding create ops in
            (length (range_it add_entry m []) ≡ count m)
            × (values key (range_it add_entry m []) ≡ to_list (SafeMap.get sharding m key))
      unfolding range_it count
      range_it-by_get ops key =
          let m = after sharding create ops in
          let logged = range_entries-logged (snapshot_of m) [] in
          (
            ap length logged
                ∙ omega
                    (arith, length-iter_items (snapshot_of m) [], length-iter_shards m.shards []),
            ap (values key) logged
                ∙ values-iter_items key (snapshot_of m) []
                ∙ values-iter_shards key m.shards []
                ∙ all_values-get m key (after_create-Kept sharding ops).0,
          )
