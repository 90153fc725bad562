-- ===== src/SafeMap/Iter/Kept.antt =====
-- The entries of a sharded map: each lies in the shard of its key, which finds it.
use grain.Base.{
  ℕ, ◌<◌, ◌≡◌, refl, sym, ap, subst, ◌∙◌, inl, inr, false, Option, none, some, List, [], ◌∷◌,
  if◌then◌else◌, Comparable, ◌==◌, ==→eq, ==_cases, nat_eqb, nat_eqb_iff, ==_self, Bool-cases,
  Option-cases, get_or, set, length, get_or-set_self, get_or-set_ne, ℕ_discrete, arith,
}
use grain.SafeMap
use grain.SafeMap.{
  create, shard_count, ConcurrentMap, Items, items_get, items_delete, items_set, get_shard,
  items_of, with_items,
}
use grain.SafeMap.Assoc.{get-delete}
use grain.SafeMap.Refine.{
  Op, put, set_if_not_exist, set_if_absent, upsert, get, has, remove, remove_cb, pop, step,
  spec_step, Reads, step_refines, Reads-create, get_or-replicate,
}

abbrev pub to_list : {A : Type 0} → Option A → List A
to_list none = []
to_list (some a) = a ∷ []

module _ {K V : Type 0} ⦃e : Comparable K⦄ where
  -- what the entries of the list hold under a key, in order
  abbrev pub values : K → Items K V → List V
  values j [] = []
  values j ((k, v) ∷ items) = let rest = values j items in if k == j then v ∷ rest else rest

  values-delete :
      (items : Items K V) (key j : K)
      → values j (items_delete items key) ≡ (if key == j then [] else values j items)
  values-delete [] key j = elim (Bool-cases (key == j)) [ inl h ↦ rw h refl | inr h ↦ rw h refl ]
  values-delete ((k, v) ∷ items) key j = elim (==_cases k key) [
    | inl same ↦ elim (Bool-cases (key == j)) [
      | inl g ↦ rw (same, ==_self key, g) (values-delete items key j ∙ rw g refl)
      | inr g ↦ rw (same, ==_self key, g) (values-delete items key j ∙ rw g refl)
    ]
    | inr other ↦ elim (Bool-cases (key == j)) [
      | inl g ↦
          let f : (k == j) ≡ false = ap (λ i. k == i) (sym (==→eq key j g)) ∙ other in
          rw (other, g, f) (values-delete items key j ∙ rw g refl)
      | inr g ↦ elim (Bool-cases (k == j)) [
        | inl f ↦ rw (other, g, f) (ap (λ l. v ∷ l) (values-delete items key j ∙ rw g refl))
        | inr f ↦ rw (other, g, f) (values-delete items key j ∙ rw g refl)
      ]
    ]
  ]

  module _ (sharding : K → ℕ) where
    -- what the shard at `i` holds under `j`, where each key has at most one entry, in its shard
    abbrev pub kept_values : Items K V → ℕ → K → List V
    kept_values items i j =
        if nat_eqb (get_shard sharding j) i then to_list (items_get items j) else []

    unfoldable pub Kept : List (Items K V) → Type 0
    Kept shards =
        (i : ℕ) (j : K) → values j (get_or shards i []) ≡ kept_values (get_or shards i []) i j

    Kept-with :
        (m : ConcurrentMap K V) (key : K) (items : Items K V)
        → Kept m.shards
        → ((j : K) → values j items ≡ kept_values items (get_shard sharding key) j)
        → get_shard sharding key < length m.shards
        → Kept (with_items sharding m key items).shards
    unfolding Kept
    Kept-with m key items kept h below i j = elim (ℕ_discrete (get_shard sharding key) i) [
      | yes same ↦
          let here : get_or (set m.shards (get_shard sharding key) items) i [] ≡ items =
            ap (λ i. get_or (set m.shards (get_shard sharding key) items) i []) (sym same)
            ∙ get_or-set_self m.shards (get_shard sharding key) items [] below in
          subst (λ l. values j l ≡ kept_values l i j) (sym here)
            (h j ∙ ap (λ i. kept_values items i j) same)
      | no other ↦
          subst (λ l. values j l ≡ kept_values l i j) (sym (get_or-set_ne m.shards items [] other))
            (kept i j)
    ]

    Kept-delete :
        (m : ConcurrentMap K V) (key : K)
        → Kept m.shards
        → get_shard sharding key < length m.shards
        → Kept (with_items sharding m key (items_delete (items_of sharding m key) key)).shards
    unfolding Kept
    Kept-delete m key kept below =
        Kept-with m key _ kept
          (λ j.
            let here = get_shard sharding key in
            let gone = values-delete (items_of sharding m key) key j in
            let finds = get-delete (items_of sharding m key) key j in
            elim (Bool-cases (key == j)) [
              | inl t ↦
                  gone
                  ∙ rw (t, finds, t)
                      (elim (Bool-cases (nat_eqb (get_shard sharding j) here)) [
                        | inl s ↦ rw s refl
                        | inr s ↦ rw s refl
                      ])
              | inr f ↦ gone ∙ rw (f, finds, f) (kept here j)
            ])
          below

    Kept-set :
        (m : ConcurrentMap K V) (key : K) (w : V)
        → Kept m.shards
        → get_shard sharding key < length m.shards
        → Kept (with_items sharding m key (items_set (items_of sharding m key) key w)).shards
    unfolding Kept
    Kept-set m key w kept below =
        Kept-with m key _ kept
          (λ j.
            let here = get_shard sharding key in
            let gone = values-delete (items_of sharding m key) key j in
            let finds = get-delete (items_of sharding m key) key j in
            elim (==_cases key j) [
              | inl same ↦
                  subst
                    (λ j.
                      values j (items_set (items_of sharding m key) key w)
                      ≡ kept_values (items_set (items_of sharding m key) key w) here j)
                    same
                    (rw
                      (
                        ==_self key,
                        values-delete (items_of sharding m key) key key,
                        ==_self key,
                        (nat_eqb_iff here here).1 refl,
                      )
                      refl)
              | inr f ↦ rw (f, gone, f, finds, f) (kept here j)
            ])
          below

    Kept-step :
        (m : ConcurrentMap K V) (op : Op K V)
        → Kept m.shards
        → length m.shards ≡ shard_count
        → Kept (step sharding m op).0.shards
    unfolding SafeMap.put SafeMap.set_if_not_exist SafeMap.set_if_absent SafeMap.upsert SafeMap.get
        SafeMap.has SafeMap.remove SafeMap.remove_cb SafeMap.pop
    Kept-step m (put key v) kept all = Kept-set m key v kept (omega (arith, all))
    Kept-step m (set_if_not_exist key v) kept all =
        elim (Option-cases (items_get (items_of sharding m key) key)) [
          | inl h ↦ rw h (Kept-set m key v kept (omega (arith, all)))
          | inr (w, h) ↦ rw h kept
        ]
    Kept-step m (set_if_absent key v) kept all =
        elim (Option-cases (items_get (items_of sharding m key) key)) [
          | inl h ↦ rw h (Kept-set m key v kept (omega (arith, all)))
          | inr (w, h) ↦ rw h kept
        ]
    Kept-step m (upsert key v cb) kept all =
        Kept-set m key (cb (items_get (items_of sharding m key) key) v) kept (omega (arith, all))
    Kept-step m (get key) kept all = kept
    Kept-step m (has key) kept all = kept
    Kept-step m (remove key) kept all = Kept-delete m key kept (omega (arith, all))
    Kept-step m (remove_cb key cb) kept all =
        elim (Option-cases (items_get (items_of sharding m key) key)) [
          | inl h ↦ rw h kept
          | inr (w, h) ↦ elim (Bool-cases (cb key (some w))) [
            | inl t ↦ rw (h, t) (Kept-delete m key kept (omega (arith, all)))
            | inr f ↦ rw (h, f) kept
          ]
        ]
    Kept-step m (pop key) kept all = Kept-delete m key kept (omega (arith, all))

    -- the map that a client's calls leave
    unfoldable pub after : ConcurrentMap K V → List (Op K V) → ConcurrentMap K V
    after m [] = m
    after m (op ∷ ops) = after (step sharding m op).0 ops

    after-Kept :
        (ops : List (Op K V)) (m : ConcurrentMap K V) (f : K → Option V)
        → Kept m.shards
        → Reads sharding m f
        → Kept (after m ops).shards × (length (after m ops).shards ≡ shard_count)
    unfolding after
    after-Kept [] m f kept r = (kept, r.all_shards)
    after-Kept (op ∷ ops) m f kept r =
        after-Kept ops (step sharding m op).0 (spec_step f op).0 (Kept-step m op kept r.all_shards)
          (step_refines sharding m f op r).0

    pub after_create-Kept :
        (ops : List (Op K V))
        → Kept (after create ops).shards × (length (after create ops).shards ≡ shard_count)
    unfolding Kept create
    after_create-Kept ops =
        after-Kept ops create (λ _. none)
          (λ i j.
            subst (λ l. values j l ≡ kept_values l i j) (sym (get_or-replicate shard_count i []))
              (elim (Bool-cases (nat_eqb (get_shard sharding j) i)) [
                | inl s ↦ rw s refl
                | inr s ↦ rw s refl
              ]))
          (Reads-create sharding)
