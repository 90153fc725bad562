-- ===== src/Uuid/Layout.antt =====
-- What an id is made of, and that the `Parse` functions read it back.
use grain.Base.{ℕ, ◌+◌, ◌-◌, ◌*◌, ◌/◌, ◌%◌, ◌^◌, ◌≤◌, ◌<◌, ◌≡◌, ◌∙◌, some, arith}
use grain.Base.Bits.{bit_or_apart}
use grain.Uuid.{
  Uuid, epoch, node_max, step_max, finish, parse_sort_val, parse_time, parse_node, parse_step,
  get_ask_start_id, next_sn_id, shl, sub_u64,
}

-- The time field of `now`, which 42 bits hold until 2164.
abbrev pub InTime : ℕ → Type 0
InTime now = (epoch ≤ now) × (now - epoch < 2 ^ 42)

abbrev pub compose : ℕ → ℕ → ℕ → ℕ
compose time node step = time * 2 ^ 22 + node * 2 ^ 12 + step

pub finish-compose :
    (n : Uuid) (step now : ℕ)
    → InTime now
    → n.node ≤ node_max
    → step ≤ step_max
    → (finish n step now).1 ≡ compose (now - epoch) n.node step
unfolding finish
finish-compose n step now t hn hs =
    let time : shl (sub_u64 now epoch) 22 ≡ (now - epoch) * 2 ^ 22 = omega arith in
    let node : shl n.node 12 ≡ n.node * 2 ^ 12 = omega arith in
    let both : (now - epoch) * 2 ^ 22 + n.node * 2 ^ 12
        ≡ ((now - epoch) * 2 ^ 10 + n.node) * 2 ^ 12 =
      omega arith in
    rw (time, node, bit_or_apart 22 (now - epoch) (n.node * 2 ^ 12) (omega arith), both)
      (bit_or_apart 12 ((now - epoch) * 2 ^ 10 + n.node) step (omega arith) ∙ omega arith)

pub parse-compose :
    (time node step : ℕ)
    → time < 2 ^ 42
    → node ≤ node_max
    → step ≤ step_max
    → (parse_time (compose time node step) ≡ time)
      × (parse_node (compose time node step) ≡ node)
      × (parse_step (compose time node step) ≡ step)
      × (parse_sort_val (compose time node step) ≡ time * 2 ^ 22 + step)
unfolding parse_time parse_node parse_step parse_sort_val
parse-compose time node step ht hn hs =
    let high : shl (compose time node step / 2 ^ 22) 22 ≡ time * 2 ^ 22 = omega arith in
    let low : shl (compose time node step) 52 / 2 ^ 52 ≡ step = omega arith in
    (omega arith, omega arith, low, rw (high, low) (bit_or_apart 22 time step (omega arith)))

-- An id that `finish` makes is read back by the four readers: its time since the epoch, its node and
-- its step are those it was made of, and the sort value is the id without its node, where the time
-- is within 42 bits of the epoch and the node and the step are within their maxima.
pub parse-finish :
    (n : Uuid) (step now : ℕ)
    → InTime now
    → n.node ≤ node_max
    → step ≤ step_max
    → (parse_time (finish n step now).1 ≡ now - epoch)
      × (parse_node (finish n step now).1 ≡ n.node)
      × (parse_step (finish n step now).1 ≡ step)
      × (parse_sort_val (finish n step now).1 ≡ (now - epoch) * 2 ^ 22 + step)
parse-finish n step now t hn hs =
    rw (finish-compose n step now t hn hs) (parse-compose (now - epoch) n.node step t.1 hn hs)

-- `nextSnId` called `i` times
abbrev pub sn_id_after : ℕ → ℕ → ℕ
sn_id_after start i = (start + i) % 2 ^ 64

pub next_sn_id-after : (start i : ℕ) → next_sn_id (sn_id_after start i) ≡ sn_id_after start (i + 1)
unfolding next_sn_id
next_sn_id-after start i = omega arith

-- Ask ids do not meet across nodes: where the `i`-th id of one node, counted from its start id, is
-- the `j`-th of another, and neither has given 2 ^ 54 ids yet, the two have the same node number.
pub ask_ids_disjoint :
    (m n : Uuid) (i j start_m start_n : ℕ)
    → m.node ≤ node_max
    → n.node ≤ node_max
    → i < 2 ^ 54
    → j < 2 ^ 54
    → get_ask_start_id (some m) ≡ some start_m
    → get_ask_start_id (some n) ≡ some start_n
    → sn_id_after start_m i ≡ sn_id_after start_n j
    → m.node ≡ n.node
unfolding get_ask_start_id
ask_ids_disjoint m n i j start_m start_n hm hn hi hj em en e = ground arith
