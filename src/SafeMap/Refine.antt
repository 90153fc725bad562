-- ===== src/SafeMap/Refine.antt =====
-- The sharded map is one map from keys to values, whatever the shard hash.
use grain.Base.{
  ℕ, zero, suc, ◌≡◌, ◌≢◌, refl, sym, ap, subst, ◌∙◌, inl, inr, Bool, true, false, Option, none,
  some, List, [], ◌∷◌, if◌then◌else◌, Comparable, ◌==◌, ==→eq, Bool-cases, Option-cases, length,
  get_or, set, length-set, get_or-set_self, get_or-set_ne, ℕ_discrete, replicate, arith,
}
use grain.Base.Maybe.{maybe}
use grain.SafeMap
use grain.SafeMap.{
  ConcurrentMap, Items, items_get, items_delete, items_set, shard_count, get_shard, items_of,
  with_items, create,
}
use grain.SafeMap.Assoc.{get-delete, get-set}

-- A client's calls, and what they are answered.
pub data Op (K V : Type 0) : Type 0 where
  put set_if_not_exist set_if_absent : K → V → Op K V
  upsert : K → V → (Option V → V → V) → Op K V
  get has remove pop : K → Op K V
  remove_cb : K → (K → Option V → Bool) → Op K V

pub data Reply (V : Type 0) : Type 0 where
  value : Option V → Reply V
  stored : V → Reply V
  flag : Bool → Reply V
  done : Reply V

pub get_or-replicate : {A : Type 0} (n i : ℕ) (a : A) → get_or (replicate n a) i a ≡ a
get_or-replicate zero i a = refl
get_or-replicate (suc n) zero a = refl
get_or-replicate (suc n) (suc i) a = get_or-replicate n i a

module _ {K V : Type 0} ⦃e : Comparable K⦄ where
  -- the specification: a function, changed at one key
  abbrev pub updated : (K → Option V) → K → Option V → K → Option V
  updated f key o j = if key == j then o else f j

  abbrev pub spec_step : (K → Option V) → Op K V → (K → Option V) × Reply V
  spec_step f (put key v) = (updated f key (some v), value (f key))
  spec_step f (set_if_not_exist key v) =
      (updated f key (maybe (some v) some (f key)), value (f key))
  spec_step f (set_if_absent key v) =
      (updated f key (maybe (some v) some (f key)), flag (maybe true (λ _. false) (f key)))
  spec_step f (upsert key v cb) = (updated f key (some (cb (f key) v)), stored (cb (f key) v))
  spec_step f (get key) = (f, value (f key))
  spec_step f (has key) = (f, flag (maybe false (λ _. true) (f key)))
  spec_step f (remove key) = (updated f key none, done)
  spec_step f (remove_cb key cb) =
      (updated f key (if cb key (f key) then none else f key), flag (cb key (f key)))
  spec_step f (pop key) = (updated f key none, value (f key))

  unfoldable pub spec_run : (K → Option V) → List (Op K V) → List (Reply V)
  spec_run f [] = []
  spec_run f (op ∷ ops) = let (f', r) = spec_step f op in r ∷ spec_run f' ops

  module _ (sharding : K → ℕ) where
    abbrev pub step : ConcurrentMap K V → Op K V → ConcurrentMap K V × Reply V
    step m (put key v) = let (m', o) = SafeMap.put sharding m key v in (m', value o)
    step m (set_if_not_exist key v) =
        let (m', o) = SafeMap.set_if_not_exist sharding m key v in (m', value o)
    step m (set_if_absent key v) =
        let (m', b) = SafeMap.set_if_absent sharding m key v in (m', flag b)
    step m (upsert key v cb) = let (m', v') = SafeMap.upsert sharding m key v cb in (m', stored v')
    step m (get key) = (m, value (SafeMap.get sharding m key))
    step m (has key) = (m, flag (SafeMap.has sharding m key))
    step m (remove key) = (SafeMap.remove sharding m key, done)
    step m (remove_cb key cb) = let (m', b) = SafeMap.remove_cb sharding m key cb in (m', flag b)
    step m (pop key) = let (m', o) = SafeMap.pop sharding m key in (m', value o)

    unfoldable pub run : ConcurrentMap K V → List (Op K V) → List (Reply V)
    run m [] = []
    run m (op ∷ ops) = let (m', r) = step m op in r ∷ run m' ops

    -- every shard is there, and the map reads as `f` does
    pub record Reads (m : ConcurrentMap K V) (f : K → Option V) : Type 0 where
      pub all_shards : length m.shards ≡ shard_count
      pub agrees : (j : K) → items_get (items_of sharding m j) j ≡ f j

    shard_same :
        (m : ConcurrentMap K V) (key : K) (items : Items K V) (j : K)
        → length m.shards ≡ shard_count
        → get_shard sharding key ≡ get_shard sharding j
        → items_of sharding (with_items sharding m key items) j ≡ items
    shard_same m key items j h same =
        ap (λ i. get_or (set m.shards (get_shard sharding key) items) i []) (sym same)
        ∙ get_or-set_self m.shards (get_shard sharding key) items [] (omega (arith, h))

    shard_other :
        (m : ConcurrentMap K V) (key : K) (items : Items K V) (j : K)
        → get_shard sharding key ≢ get_shard sharding j
        → items_of sharding (with_items sharding m key items) j ≡ items_of sharding m j
    shard_other m key items j other = get_or-set_ne m.shards items [] other

    Reads-updated :
        (m : ConcurrentMap K V) (f : K → Option V) (key : K) (o : Option V) (items : Items K V)
        → Reads m f
        → ((j : K)
            → items_get items j ≡ (if key == j then o else items_get (items_of sharding m key) j))
        → Reads (with_items sharding m key items) (updated f key o)
    Reads-updated m f key o items r h = record {
      all_shards = length-set m.shards (get_shard sharding key) items ∙ r.all_shards;
      agrees = agrees';
    }
      where
        agrees' :
            (j : K)
            → items_get (items_of sharding (with_items sharding m key items) j) j
              ≡ updated f key o j
        agrees' j = elim (ℕ_discrete (get_shard sharding key) (get_shard sharding j)) [
          | yes same ↦
              ap (λ l. items_get l j) (shard_same m key items j r.all_shards same)
              ∙ h j
              ∙ ap (λ i. if key == j then o else items_get (get_or m.shards i []) j) same
              ∙ ap (λ v. if key == j then o else v) (r.agrees j)
          | no other ↦
              let differs : (key == j) ≡ false = elim (Bool-cases (key == j)) [
                | inl e ↦ absurd (other (ap (get_shard sharding) (==→eq key j e)))
                | inr e ↦ e
              ] in
              ap (λ l. items_get l j) (shard_other m key items j other)
              ∙ r.agrees j
              ∙ rw differs refl
        ]

    Reads-same :
        (m : ConcurrentMap K V) (f : K → Option V) (key : K) (o : Option V)
        → Reads m f
        → f key ≡ o
        → Reads m (updated f key o)
    Reads-same m f key o r h = record {
      all_shards = r.all_shards;
      agrees = λ j. elim (Bool-cases (key == j)) [
        | inl e ↦ r.agrees j ∙ ap f (sym (==→eq key j e)) ∙ h ∙ rw e refl
        | inr e ↦ r.agrees j ∙ rw e refl
      ];
    }

    Reads-put :
        (m : ConcurrentMap K V) (f : K → Option V) (key : K) (v : V)
        → Reads m f
        → Reads
            (with_items sharding m key (items_set (items_of sharding m key) key v))
            (updated f key (some v))
    Reads-put m f key v r =
        Reads-updated m f key (some v) _ r (get-set (items_of sharding m key) key v)

    Reads-remove :
        (m : ConcurrentMap K V) (f : K → Option V) (key : K)
        → Reads m f
        → Reads
            (with_items sharding m key (items_delete (items_of sharding m key) key))
            (updated f key none)
    Reads-remove m f key r =
        Reads-updated m f key none _ r (get-delete (items_of sharding m key) key)

    -- a write only where there is nothing
    Reads-absent :
        (m : ConcurrentMap K V) (f : K → Option V) (key : K) (v : V)
        → Reads m f
        → Reads
            (maybe
              (with_items sharding m key (items_set (items_of sharding m key) key v))
              (λ _. m)
              (items_get (items_of sharding m key) key))
            (updated f key (maybe (some v) some (f key)))
    Reads-absent m f key v r = elim (Option-cases (f key)) [
      | inl h ↦ rw (r.agrees key, h) (Reads-put m f key v r)
      | inr (w, h) ↦ rw (r.agrees key, h) (Reads-same m f key (some w) r h)
    ]

    Reads-remove_cb :
        (m : ConcurrentMap K V) (f : K → Option V) (key : K) (b : Bool)
        → Reads m f
        → Reads
            (maybe m
              (λ _.
                if b
                then with_items sharding m key (items_delete (items_of sharding m key) key)
                else m)
              (items_get (items_of sharding m key) key))
            (updated f key (if b then none else f key))
    Reads-remove_cb m f key true r = elim (Option-cases (f key)) [
      | inl h ↦ rw (r.agrees key, h) (Reads-same m f key none r h)
      | inr (w, h) ↦ rw (r.agrees key, h) (Reads-remove m f key r)
    ]
    Reads-remove_cb m f key false r = elim (Option-cases (f key)) [
      | inl h ↦ rw (r.agrees key, h) (Reads-same m f key none r h)
      | inr (w, h) ↦ rw (r.agrees key, h) (Reads-same m f key (some w) r h)
    ]

    pub step_refines :
        (m : ConcurrentMap K V) (f : K → Option V) (op : Op K V)
        → Reads m f
        → Reads (step m op).0 (spec_step f op).0 × ((step m op).1 ≡ (spec_step f op).1)
    unfolding SafeMap.put SafeMap.set_if_not_exist SafeMap.set_if_absent SafeMap.upsert SafeMap.get
        SafeMap.has SafeMap.remove SafeMap.remove_cb SafeMap.pop
    step_refines m f (put key v) r = (Reads-put m f key v r, ap value (r.agrees key))
    step_refines m f (set_if_not_exist key v) r =
        (Reads-absent m f key v r, ap value (r.agrees key))
    step_refines m f (set_if_absent key v) r =
        (Reads-absent m f key v r, ap (λ o. flag (maybe true (λ _. false) o)) (r.agrees key))
    step_refines m f (upsert key v cb) r = (
      rw (r.agrees key) (Reads-put m f key (cb (f key) v) r),
      ap (λ o. stored (cb o v)) (r.agrees key),
    )
    step_refines m f (get key) r = (r, ap value (r.agrees key))
    step_refines m f (has key) r = (r, ap (λ o. flag (maybe false (λ _. true) o)) (r.agrees key))
    step_refines m f (remove key) r = (Reads-remove m f key r, refl)
    step_refines m f (remove_cb key cb) r = (
      subst
          (λ o.
            Reads (SafeMap.remove_cb sharding m key cb).0
              (updated f key (if cb key o then none else f key)))
          (r.agrees key)
          (Reads-remove_cb m f key (cb key (items_get (items_of sharding m key) key)) r),
      ap (λ o. flag (cb key o)) (r.agrees key),
    )
    step_refines m f (pop key) r = (Reads-remove m f key r, ap value (r.agrees key))

    runs_alike :
        (ops : List (Op K V)) (m : ConcurrentMap K V) (f : K → Option V)
        → Reads m f
        → run m ops ≡ spec_run f ops
    unfolding run spec_run
    runs_alike [] m f r = refl
    runs_alike (op ∷ ops) m f r =
        let (r', same) = step_refines m f op r in
        rw (same, runs_alike ops (step m op).0 (spec_step f op).0 r') refl

    pub Reads-create : Reads create (λ _. none)
    unfolding create
    Reads-create = record {
      all_shards = refl;
      agrees =
          λ j. ap (λ l. items_get l j) (get_or-replicate shard_count (get_shard sharding j) []);
    }

    -- From an empty map on, no sequence of calls tells the sharded map from a function that is
    -- changed at one key by each write, whatever the shard hash is.
    pub sharded_run_refines : (ops : List (Op K V)) → run create ops ≡ spec_run (λ _. none) ops
    sharded_run_refines ops = runs_alike ops create (λ _. none) Reads-create
