-- ===== src/SafeMap/Iter.antt =====
-- al/safemap/concurrentmap.go: `IterCb`, and the hash of integer keys; registry.go: `rangeIt`. Go
-- leaves the order of a shard's entries open, and here it is the order of the list.
pub mod Kept
pub mod Range
use Prim.Native.Nat.{bit_xor}
use grain.Base.{ℕ, zero, suc, ◌/◌, ◌%◌, ◌^◌, List, [], ◌∷◌, ◌++◌}
use grain.AddrHash.{mul_u32, fnv_offset_basis_32, fnv_prime_32}
use grain.SafeMap.{Items, ConcurrentMap}

-- the loop of `intFnv32` over the bytes that are left, the lowest first
abbrev pub int_fnv32_bytes : ℕ → ℕ → ℕ → ℕ
int_fnv32_bytes zero u hash = hash
int_fnv32_bytes (suc n) u hash =
    int_fnv32_bytes n (u / 2 ^ 8) (bit_xor (mul_u32 hash fnv_prime_32) (u % 2 ^ 8))

abbrev pub int_fnv32 : ℕ → ℕ
int_fnv32 key = int_fnv32_bytes 8 (key % 2 ^ 64) fnv_offset_basis_32

-- The callback gets what the calls before it have left, and passes on what it leaves.
module _ {K V S : Type 0} (fn : S → K → V → S) where
  abbrev pub iter_items : Items K V → S → S
  iter_items [] s = s
  iter_items ((key, value) ∷ items) s = iter_items items (fn s key value)

  abbrev pub iter_shards : List (Items K V) → S → S
  iter_shards [] s = s
  iter_shards (items ∷ shards) s = iter_shards shards (iter_items items s)

  abbrev pub iter_cb : ConcurrentMap K V → S → S
  iter_cb m s = iter_shards m.shards s

-- the callback of `rangeIt`, `snapshot = append(snapshot, entry{key, v})`
abbrev pub add_entry : {K V : Type 0} → Items K V → K → V → Items K V
add_entry snapshot key v = snapshot ++ (key, v) ∷ []

abbrev pub snapshot_of : {K V : Type 0} → ConcurrentMap K V → Items K V
snapshot_of m = iter_cb add_entry m []

-- the loop over the snapshot, with no lock held
abbrev pub range_entries : {K V S : Type 0} → (S → K → V → S) → Items K V → S → S
range_entries fun [] s = s
range_entries fun ((key, proc) ∷ snapshot) s = range_entries fun snapshot (fun s key proc)

-- `rangeIt`: `fun` may change the registry, and the entries are those from before.
unfoldable pub range_it : {K V S : Type 0} → (S → K → V → S) → ConcurrentMap K V → S → S
range_it fun m s = range_entries fun (snapshot_of m) s
