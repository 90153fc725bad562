-- ===== src/SafeMap/Tests.antt =====
-- A run of the sharded map, and its result at concrete inputs.
use grain.Base.{
  ℕ, length, ◌≡◌, refl, false, none, some, List, [], ◌∷◌, ◌++◌, nat_comparable, replicate,
}
use mathlib.Core.List.{Permᴰ}
use grain.SafeMap.Drain.{ShardSnapshots, close, receive, IterBuffered, items, clear}
use grain.SafeMap.Drain.Copies.{copies-by_get}
use grain.SafeMap.{items_get, Items}
use grain.SafeMap.{create, count}
use grain.SafeMap
use grain.SafeMap.Refine.{
  Op, put, set_if_not_exist, get, has, remove, remove_cb, pop, value, flag, done, run, spec_run,
  sharded_run_refines, get_or-replicate,
}
use grain.SafeMap.Iter.{int_fnv32, add_entry, range_it}
use grain.SafeMap.Iter.Kept.{to_list, values, after}
use grain.SafeMap.Iter.Range.{range_it-by_get}

-- 3 and 35 share a shard when the hash is the key itself
abbrev calls : List (Op ℕ ℕ)
calls =
    put 3 30
    ∷ put 35 350
    ∷ set_if_not_exist 3 31
    ∷ get 35
    ∷ remove_cb 3 (λ k o. false)
    ∷ remove 3
    ∷ has 3
    ∷ pop 35
    ∷ pop 35
    ∷ []

abbrev identity : ℕ → ℕ
identity k = k

answers :
    spec_run (λ _. none) calls
    ≡ value none
      ∷ value none
      ∷ value (some 30)
      ∷ value (some 350)
      ∷ flag false
      ∷ done
      ∷ flag false
      ∷ value (some 350)
      ∷ value none
      ∷ []
unfolding spec_run
answers = refl

sharded_run_refines_example : run identity create calls ≡ spec_run (λ _. none) calls
sharded_run_refines_example = sharded_run_refines identity calls

-- The FNV-1 hash of the eight bytes of 3, the lowest first.
hash_three : int_fnv32 3 ≡ 4276181620
hash_three = refl

abbrev asks : List (Op ℕ ℕ)
asks = put 7 70 ∷ put 39 390 ∷ put 8 80 ∷ put 7 71 ∷ remove 8 ∷ []

-- 7 and 39 are in one shard, the later write first.
visited : range_it add_entry (after identity create asks) [] ≡ (7, 71) ∷ (39, 390) ∷ []
unfolding range_it after create SafeMap.put SafeMap.remove
visited = refl

range_it-by_get_example :
    (length (range_it add_entry (after int_fnv32 create asks) [])
      ≡ count (after int_fnv32 create asks))
    × (values 7 (range_it add_entry (after int_fnv32 create asks) [])
        ≡ to_list (SafeMap.get int_fnv32 (after int_fnv32 create asks) 7))
range_it-by_get_example = range_it-by_get int_fnv32 asks 7

abbrev sets : List (Op ℕ ℕ)
sets = put 3 30 ∷ put 35 350 ∷ put 9 90 ∷ []

-- Shard 3 gives its entries the other way round than they are kept, with that of shard 9 between.
abbrev came : Items ℕ ℕ
came = (3, 30) ∷ (9, 90) ∷ (35, 350) ∷ []

abbrev from_9 : List (Items ℕ ℕ)
from_9 = replicate 5 [] ++ (((9, 90) ∷ []) ∷ replicate 22 [])

same_order : (l : Items ℕ ℕ) → Permᴰ l l
same_order [] = Permᴰ.nil
same_order (t ∷ l) = Permᴰ.cons refl (same_order l)

as_kept : (shards : List (Items ℕ ℕ)) → ShardSnapshots shards shards
as_kept [] = tt
as_kept (items ∷ shards) = (same_order items, as_kept shards)

merged : IterBuffered (after identity create sets) came
unfolding after create SafeMap.put
merged = (
  replicate 3 [] ++ (((3, 30) ∷ (35, 350) ∷ []) ∷ from_9),
  (Permᴰ.nil, (Permᴰ.nil, (Permᴰ.nil, (Permᴰ.swap refl refl, as_kept from_9)))),
  receive (replicate 3 []) from_9 (3, 30) ((35, 350) ∷ []) refl
      (receive (replicate 3 [] ++ (((35, 350) ∷ []) ∷ replicate 5 [])) (replicate 22 []) (9, 90) []
        refl
        (receive (replicate 3 []) (replicate 28 []) (35, 350) [] refl
          (close (λ i. get_or-replicate 32 i [])))),
)

copies-by_get_example :
    (items_get (items came) 3 ≡ SafeMap.get identity (after identity create sets) 3)
    × (SafeMap.get identity (clear identity came (after identity create sets)) 3 ≡ none)
copies-by_get_example = copies-by_get identity sets came 3 merged
