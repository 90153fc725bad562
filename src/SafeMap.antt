-- ===== src/SafeMap.antt =====
-- al/safemap/concurrentmap.go: a map split over shards, each behind its own lock. An operation holds
-- the lock of its key's shard from its read to its write, so it is one step here. A shard's Go map
-- is an association list without a repeated key. The shard hash is a parameter, and so is the
-- number of shards, `ShardCount`, less one.
pub mod Assoc
pub mod Refine
pub mod Iter
pub mod Drain
mod Tests
use grain.Base.{
  ℕ, zero, suc, ◌+◌, ◌%◌, Bool, true, false, not, ◌&&◌, ◌||◌, Option, none, some, List, [], ◌∷◌,
  ◌++◌, nat_eqb, if◌then◌else◌, get_or, set, replicate, Comparable, ◌==◌, length,
}
use grain.Base.Maybe.{maybe}

-- `shard.items`: the Go map of one shard, with its read, write and `delete`
abbrev pub Items : Type 0 → Type 0 → Type 0
Items K V = List (K × V)

module _ {K V : Type 0} ⦃e : Comparable K⦄ where
  abbrev pub items_get : Items K V → K → Option V
  items_get [] key = none
  items_get ((k, v) ∷ items) key =
      let rest = items_get items key in if k == key then some v else rest

  abbrev pub items_delete : Items K V → K → Items K V
  items_delete [] key = []
  items_delete ((k, v) ∷ items) key =
      let rest = items_delete items key in if k == key then rest else (k, v) ∷ rest

  abbrev pub items_set : Items K V → K → V → Items K V
  items_set items key v = (key, v) ∷ items_delete items key

abbrev pub shard_count : ℕ
shard_count = 32

-- `shards`, in order
pub record ConcurrentMap (K V : Type 0) : Type 0 where
  pub shards : List (Items K V)

pub create : {K V : Type 0} → ConcurrentMap K V
create = record { shards = replicate shard_count [] }

-- `GetShard`, as an index
abbrev pub get_shard : {K : Type 0} → (K → ℕ) → K → ℕ
get_shard sharding key = sharding key % shard_count

module _ {K V : Type 0} ⦃e : Comparable K⦄ (sharding : K → ℕ) where
  abbrev pub items_of : ConcurrentMap K V → K → Items K V
  items_of m key = get_or m.shards (get_shard sharding key) []

  abbrev pub with_items : ConcurrentMap K V → K → Items K V → ConcurrentMap K V
  with_items m key items = record { shards = set m.shards (get_shard sharding key) items }

  pub put : ConcurrentMap K V → K → V → ConcurrentMap K V × Option V
  put m key value =
      (with_items m key (items_set (items_of m key) key value), items_get (items_of m key) key)

  pub set_if_not_exist : ConcurrentMap K V → K → V → ConcurrentMap K V × Option V
  set_if_not_exist m key value =
      let old = items_get (items_of m key) key in
      (maybe (with_items m key (items_set (items_of m key) key value)) (λ _. m) old, old)

  -- The callback gets the stored value, if there is one, and the new value.
  pub upsert : ConcurrentMap K V → K → V → (Option V → V → V) → ConcurrentMap K V × V
  upsert m key value cb =
      let res = cb (items_get (items_of m key) key) value in
      (with_items m key (items_set (items_of m key) key res), res)

  pub set_if_absent : ConcurrentMap K V → K → V → ConcurrentMap K V × Bool
  set_if_absent m key value =
      let old = items_get (items_of m key) key in
      (
        maybe (with_items m key (items_set (items_of m key) key value)) (λ _. m) old,
        maybe true (λ _. false) old,
      )

  pub get : ConcurrentMap K V → K → Option V
  get m key = items_get (items_of m key) key

  pub has : ConcurrentMap K V → K → Bool
  has m key = maybe false (λ _. true) (items_get (items_of m key) key)

  pub remove : ConcurrentMap K V → K → ConcurrentMap K V
  remove m key = with_items m key (items_delete (items_of m key) key)

  pub remove_cb : ConcurrentMap K V → K → (K → Option V → Bool) → ConcurrentMap K V × Bool
  remove_cb m key cb =
      let old = items_get (items_of m key) key in
      let yes = cb key old in
      (
        maybe m (λ _. if yes then with_items m key (items_delete (items_of m key) key) else m) old,
        yes,
      )

  pub pop : ConcurrentMap K V → K → ConcurrentMap K V × Option V
  pop m key = (with_items m key (items_delete (items_of m key) key), items_get (items_of m key) key)

abbrev pub shard_sizes : {K V : Type 0} → List (Items K V) → ℕ
shard_sizes [] = 0
shard_sizes (items ∷ shards) = length items + shard_sizes shards

pub count : {K V : Type 0} → ConcurrentMap K V → ℕ
count m = shard_sizes m.shards

pub is_empty : {K V : Type 0} → ConcurrentMap K V → Bool
is_empty m = nat_eqb (count m) 0
