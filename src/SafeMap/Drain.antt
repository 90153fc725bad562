-- ===== src/SafeMap/Drain.antt =====
-- al/safemap/concurrentmap.go: the copies through channels. Each shard's entries come over a channel of
-- its own, in any order, since a Go map has none, and are merged as they come, in any order of the
-- shards; other goroutines leave the map alone.
pub mod Order
pub mod Merged
pub mod Copies
use grain.Base.{ℕ, ◌≡◌, get_or, List, [], ◌∷◌, ◌++◌, Comparable}
use mathlib.Core.List.{Permᴰ}
use grain.SafeMap
use grain.SafeMap.{Items, ConcurrentMap, items_set}

-- `fanIn`: what the merged channel gives, where the channels of `chs` give theirs
pub data Merge {A : Type 0} : List (List A) → List A → Type 0 where
  -- every channel is drained
  close : {chs : List (List A)} → ((i : ℕ) → get_or chs i [] ≡ []) → Merge chs []
  -- one of them gives its next entry
  receive :
      {chs : List (List A)} {out : List A} (xs ys : List (List A)) (t : A) (l : List A)
      → chs ≡ xs ++ ((t ∷ l) ∷ ys)
      → Merge (xs ++ (l ∷ ys)) out
      → Merge chs (t ∷ out)

-- `snapshot`: what the channels can give, each the entries of its shard in some order
abbrev pub ShardSnapshots : {A : Type 0} → List (List A) → List (List A) → Type 0
ShardSnapshots [] [] = Unit
ShardSnapshots (items ∷ shards) (ch ∷ chs) = Permᴰ items ch × ShardSnapshots shards chs
ShardSnapshots _ _ = ⊥

-- what `IterBuffered` can give
abbrev pub IterBuffered : {K V : Type 0} → ConcurrentMap K V → List (K × V) → Type 0
IterBuffered {K} {V} m out =
    (chs : List (List (K × V))) × ShardSnapshots m.shards chs × Merge chs out

module _ {K V : Type 0} ⦃e : Comparable K⦄ where
  -- the loop of `Items` and of `MarshalJSON` over what comes
  unfoldable pub collect : List (K × V) → Items K V → Items K V
  collect [] tmp = tmp
  collect ((key, val) ∷ ts) tmp = collect ts (items_set tmp key val)

  -- `Items`
  unfoldable pub items : List (K × V) → Items K V
  items ts = collect ts []

  -- `Clear`
  unfoldable pub clear : (K → ℕ) → List (K × V) → ConcurrentMap K V → ConcurrentMap K V
  clear sharding [] m = m
  clear sharding ((key, val) ∷ ts) m = clear sharding ts (SafeMap.remove sharding m key)
