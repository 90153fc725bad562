-- ===== src/SafeMap/Drain/Copies.antt =====
-- The copies of a map and its clearing, against what `Get` finds.
use grain.Base.{
  ℕ, ◌<◌, ◌≤◌, ◌≡◌, ◌⊎◌, refl, ap, ◌∙◌, inl, inr, true, Option, none, some, List, [], ◌∷◌,
  Comparable, ◌==◌, nat_eqb, nat_eqb_iff, Bool-cases, Option-cases, length, get_or, arith,
}
use grain.Base.Maybe.{maybe, maybe_self}
use grain.SafeMap
use grain.SafeMap.{ConcurrentMap, Items, create, items_get, items_set, get_shard, items_of}
use grain.SafeMap.Assoc.{get-set}
use grain.SafeMap.Refine.{Op, remove, step, spec_step, Reads, step_refines, Reads-create}
use grain.SafeMap.Iter.Kept.{to_list, values, Kept, after, after_create-Kept}
use grain.SafeMap.Drain.{IterBuffered, collect, items, clear}
use grain.SafeMap.Drain.Order.{ShardSnapshots-get_or, values_permuted}
use grain.SafeMap.Drain.Merged.{Merge-values}

module _ {K V : Type 0} ⦃e : Comparable K⦄ where
  collect-values :
      (j : K) (ts tmp : Items K V) (o : Option V)
      → values j ts ≡ to_list o
      → items_get (collect ts tmp) j ≡ maybe (items_get tmp j) some o
  unfolding collect
  collect-values j [] tmp none h = refl
  collect-values j [] tmp (some w) h = cc
  collect-values j ((k, v) ∷ ts) tmp o h = elim (Bool-cases (k == j)) [
    | inl t ↦ hit o (collect-values j ts (items_set tmp k v) none) h t
    | inr f ↦
        collect-values j ts (items_set tmp k v) o (ground (arith, h, f))
        ∙ rw (get-set tmp k v j, f) refl
  ]
    where
      hit :
          (o : Option V)
          → (values j ts ≡ []
              → items_get (collect ts (items_set tmp k v)) j ≡ items_get (items_set tmp k v) j)
          → values j ((k, v) ∷ ts) ≡ to_list o
          → (k == j) ≡ true
          → items_get (collect ts (items_set tmp k v)) j ≡ maybe (items_get tmp j) some o
      hit none rest h t = absurd (ground (arith, h, t))
      hit (some w) rest h t =
          let this : v ≡ w = ground (arith, h, t) in
          let no_more : values j ts ≡ [] = ground (arith, h, t) in
          rest no_more ∙ get-set tmp k v j ∙ rw t (ap some this)

  module _ (sharding : K → ℕ) where
    clear-Reads :
        (j : K) (ts : List (K × V)) (m : ConcurrentMap K V) (f : K → Option V)
        → Reads sharding m f
        → (f j ≡ none) ⊎ (0 < length (values j ts))
        → SafeMap.get sharding (clear sharding ts m) j ≡ none
    unfolding clear SafeMap.get
    clear-Reads j [] m f r (inl h) = r.agrees j ∙ h
    clear-Reads j [] m f r (inr h) = absurd (omega (arith, h))
    clear-Reads j ((k, v) ∷ ts) m f r h =
        let (r', _) = step_refines sharding m f (remove k) r in
        clear-Reads j ts (SafeMap.remove sharding m k) (spec_step f (remove k)).0 r'
          (elim (Bool-cases (k == j)) [
            | inl t ↦ inl (rw t refl)
            | inr g ↦ elim h [ inl n ↦ inl (rw (g, n) refl) | inr n ↦ inr (ground (arith, n, g)) ]
          ])

    after-Reads :
        (ops : List (Op K V)) (m : ConcurrentMap K V) (f : K → Option V)
        → Reads sharding m f
        → (g : K → Option V) × Reads sharding (after sharding m ops) g
    unfolding after
    after-Reads [] m f r = (f, r)
    after-Reads (op ∷ ops) m f r =
        after-Reads ops (step sharding m op).0 (spec_step f op).0 (step_refines sharding m f op r).0

    one_value :
        (m : ConcurrentMap K V) (i : ℕ) (key : K)
        → Kept sharding m.shards
        → length (values key (get_or m.shards i [])) ≤ 1
    unfolding Kept
    one_value m i key kept = elim (Bool-cases (nat_eqb (get_shard sharding key) i)) [
      | inl t ↦ elim (Option-cases (items_get (get_or m.shards i []) key)) [
        | inl h ↦ rw (kept i key, t, h) (omega arith)
        | inr (v, h) ↦ rw (kept i key, t, h) (omega arith)
      ]
      | inr f ↦ rw (kept i key, f) (omega arith)
    ]

    merged-values :
        (m : ConcurrentMap K V) (out : List (K × V)) (key : K)
        → Kept sharding m.shards
        → IterBuffered m out
        → values key out ≡ to_list (SafeMap.get sharding m key)
    unfolding Kept SafeMap.get
    merged-values m out key kept (chs, shot, merged) =
        let at = get_shard sharding key in
        let same = λ (i : ℕ).
          values_permuted key (ShardSnapshots-get_or m.shards chs shot i)
            (one_value m i key kept) in
        Merge-values key merged at (λ i other. elim (Bool-cases (nat_eqb at i)) [
          | inl t ↦ absurd (other ((nat_eqb_iff at i).0 t))
          | inr f ↦ same i ∙ kept i key ∙ rw f refl
        ])
        ∙ same at
        ∙ kept at key
        ∙ rw ((nat_eqb_iff at at).1 refl) refl

    found :
        (m : ConcurrentMap K V) (g : K → Option V)
        → Reads sharding m g
        → (key : K) → SafeMap.get sharding m key ≡ g key
    unfolding SafeMap.get
    found m g r key = r.agrees key

    -- After any calls on an empty map, whatever order the entries of each shard come in and however
    -- the shards' entries are merged, the copy that `Items` makes finds what `Get` finds, and `Clear`
    -- leaves nothing to find; where nobody else writes to the map meanwhile.
    pub copies-by_get :
        (ops : List (Op K V)) (out : List (K × V)) (key : K)
        → IterBuffered (after sharding create ops) out
        → let m = after sharding create ops in
          (items_get (items out) key ≡ SafeMap.get sharding m key)
          × (SafeMap.get sharding (clear sharding out m) key ≡ none)
    unfolding items
    copies-by_get ops out key merged =
        let m = after sharding create ops in
        let there = merged-values m out key (after_create-Kept sharding ops).0 merged in
        let (g, r) = after-Reads ops create (λ _. none) (Reads-create sharding) in
        (
          collect-values key out [] (SafeMap.get sharding m key) there ∙ maybe_self _,
          clear-Reads key out m g r (elim (Option-cases (g key)) [
            | inl h ↦ inl h
            | inr (v, h) ↦ inr (ground (arith, there, found m g r key, h))
          ]),
        )
