-- ===== src/Uuid.antt =====
-- uuid/uuid.go and uuid/uuid_global.go: 64-bit ids of 42 bits of time, 10 of node and 12 of step.
-- A uint64 is a number below 2 ^ 64 and its operations wrap. The clock is a parameter: `elapsed k`
-- is what the k-th call of `time.Since(baseMono).Milliseconds()` returns.
pub mod Layout
pub mod Order
pub mod Stream
mod Tests
use Prim.Native.Nat.{bit_and, bit_or}
use grain.Base.{
  ℕ, zero, suc, ◌+◌, ◌-◌, ◌*◌, ◌/◌, ◌%◌, ◌^◌, Bool, true, false, Option, none, some, List, [], ◌∷◌,
  ltb, leb, nat_eqb, if◌then◌else◌,
}
use grain.Base.Int.{ℤ, pos, pos_part, ltb_ℤ}
use grain.Base.Maybe.{◌>>=◌}

abbrev pub total_bits : ℕ
total_bits = 64

abbrev pub node_bits : ℕ
node_bits = 10

abbrev pub step_bits : ℕ
step_bits = 12

-- `-1 ^ (-1 << nodeBits)`
abbrev pub node_max : ℕ
node_max = 2 ^ node_bits - 1

abbrev pub step_max : ℕ
step_max = 2 ^ step_bits - 1

abbrev pub time_shift : ℕ
time_shift = node_bits + step_bits

abbrev pub node_shift : ℕ
node_shift = step_bits

abbrev pub epoch : ℕ
epoch = 1735689600000

-- `x << k`, `x >> k` and `x - y` on uint64
abbrev pub shl : ℕ → ℕ → ℕ
shl x k = x * 2 ^ k % 2 ^ total_bits

abbrev pub shr : ℕ → ℕ → ℕ
shr x k = x / 2 ^ k

abbrev pub sub_u64 : ℕ → ℕ → ℕ
sub_u64 x y = (x + 2 ^ total_bits - y) % 2 ^ total_bits

pub record Uuid : Type 0 where
  pub timestamp : ℕ
  pub node : ℕ
  pub step : ℕ
  pub base_wall : ℕ

-- `base` is `time.Now().UnixMilli()`; `none` is the error on the node number.
pub new_uuid : ℕ → ℤ → Option Uuid
new_uuid node base =
    if ltb node_max node
    then none
    else some (record {
      timestamp = 0;
      node = node;
      step = 0;
      base_wall = pos_part (if ltb_ℤ base (pos epoch) then pos epoch else base);
    })

-- the end of `Generate`: the id and the state that it leaves
pub finish : Uuid → ℕ → ℕ → Uuid × ℕ
finish n step now = (
  record n { timestamp = now; step = step },
  bit_or (bit_or (shl (sub_u64 now epoch) time_shift) (shl n.node node_shift)) step,
)

module _ (elapsed : ℕ → ℕ) where
  abbrev pub now_ms : Uuid → ℕ → ℕ
  now_ms n k = n.base_wall + elapsed k

  -- `for now <= n.timestamp { now = n.nowMs() }`, with the number of the next reading; `none` is
  -- a wait that outlasts the fuel.
  pub wait_next : ℕ → Uuid → ℕ → ℕ → Option (ℕ × ℕ)
  wait_next zero n k now = none
  wait_next (suc fuel) n k now =
      let again = wait_next fuel n (k + 1) (now_ms n k) in
      if leb now n.timestamp then again else some (now, k)

  -- `Generate`: the new state, the id, and the number of the next reading.
  pub generate : ℕ → Uuid → ℕ → Option (Uuid × ℕ × ℕ)
  generate fuel n k =
      let reading = now_ms n k in
      let now = if ltb reading n.timestamp then n.timestamp else reading in
      let step = bit_and (n.step + 1) step_max in
      if nat_eqb n.timestamp now
      then if nat_eqb step 0
        then (do
          (later, k') ← wait_next fuel n (k + 1) now
          let (n', id) = finish n 0 later
          some (n', id, k'))
        else (let (n', id) = finish n step now in some (n', id, k + 1))
      else (let (n', id) = finish n 0 now in some (n', id, k + 1))

  -- a number of calls in a row, with the ids in order
  pub generate_many : ℕ → ℕ → Uuid → ℕ → Option (List ℕ)
  generate_many fuel zero n k = some []
  generate_many fuel (suc count) n k = do
    (n', id, k') ← generate fuel n k
    let rest = generate_many fuel count n' k'
    ids ← rest
    some (id ∷ ids)

pub parse_sort_val : ℕ → ℕ
parse_sort_val id =
    bit_or (shl (shr id time_shift) time_shift)
      (shr (shl id (total_bits - step_bits)) (total_bits - step_bits))

pub parse_time : ℕ → ℕ
parse_time id = shr id time_shift

pub parse_node : ℕ → ℕ
parse_node id = shr (shl id (total_bits - time_shift)) (total_bits - time_shift + step_bits)

pub parse_step : ℕ → ℕ
parse_step id = shr (shl id (total_bits - step_bits)) (total_bits - step_bits)

-- The package's `_uuid`: `none` before `Init`. `GetAskStartId` panics then, which is `none` too.
pub get_ask_start_id : Option Uuid → Option ℕ
get_ask_start_id none = none
get_ask_start_id (some n) = some (shl n.node (total_bits - node_bits))

-- system.go, `nextSnId`: an atomic increment of `askId`, which `init` sets to the start id
pub next_sn_id : ℕ → ℕ
next_sn_id ask_id = (ask_id + 1) % 2 ^ total_bits
