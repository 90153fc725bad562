-- ===== src/AddrHash.antt =====
-- addr_hash.go: which node owns a grain. Every node computes it alone, from its own member list.
-- A uint32 is a number below 2 ^ 32, a string is its bytes.
pub mod Winner
pub mod Owner
pub mod Hash
mod Tests
use Prim.Native.Nat.{bit_xor}
use grain.Base.{
  ℕ, ◌*◌, ◌/◌, ◌%◌, ◌^◌, Bool, true, false, not, ◌&&◌, ◌||◌, List, [], ◌∷◌, ltb, nat_eqb,
  if◌then◌else◌, Bytes, ◌==◌, bytes_comparable,
}
use grain.Base.Order.{bytes_ltb, contains}

-- config.go, `tNodeState`: a member of the cluster, as it describes itself
pub record NodeState : Type 0 where
  pub node_id : ℕ
  pub address : Bytes
  pub version : Bytes
  pub time : Bytes
  pub kinds : List Bytes

abbrev pub fnv_offset_basis_32 : ℕ
fnv_offset_basis_32 = 2166136261

abbrev pub fnv_prime_32 : ℕ
fnv_prime_32 = 16777619

-- `*` on uint32
abbrev pub mul_u32 : ℕ → ℕ → ℕ
mul_u32 a b = a * b % 2 ^ 32

pub fnv32a_add : ℕ → Bytes → ℕ
fnv32a_add h [] = h
fnv32a_add h (b ∷ s) = fnv32a_add (mul_u32 (bit_xor h b) fnv_prime_32) s

pub fnv32a_start : Bytes → ℕ
fnv32a_start s = fnv32a_add fnv_offset_basis_32 s

pub fnv32a_two : Bytes → Bytes → ℕ
fnv32a_two a b = fnv32a_add (fnv32a_start a) b

-- `h ^= h >> k`
abbrev pub xor_shift : ℕ → ℕ → ℕ
xor_shift k h = bit_xor h (h / 2 ^ k)

pub fmix32 : ℕ → ℕ
fmix32 h =
    let h1 = mul_u32 (xor_shift 16 h) 0x85ebca6b in
    let h2 = mul_u32 (xor_shift 13 h1) 0xc2b2ae35 in xor_shift 16 h2

-- one turn of the loop of `CalcAddrByKind8Name`, on `maxScore` and `maxAddr`
pub consider : Bytes → ℕ → ℕ × Bytes → NodeState → ℕ × Bytes
consider kind name_hash (max_score, max_addr) node =
    if not (contains node.kinds kind)
    then (max_score, max_addr)
    else if node.address == []
    then (max_score, max_addr)
    else let score = fmix32 (fnv32a_add name_hash node.address) in
      if ltb max_score score
        || (nat_eqb score max_score && (max_addr == [] || bytes_ltb node.address max_addr))
      then (score, node.address)
      else (max_score, max_addr)

pub consider_all : Bytes → ℕ → ℕ × Bytes → List NodeState → ℕ × Bytes
consider_all kind name_hash best [] = best
consider_all kind name_hash best (node ∷ nodes) =
    consider_all kind name_hash (consider kind name_hash best node) nodes

pub calc_addr_by_kind8_name : List NodeState → Bytes → Bytes → Bytes
calc_addr_by_kind8_name cluster_nodes kind name =
    (consider_all kind (fnv32a_start name) (0, []) cluster_nodes).1
