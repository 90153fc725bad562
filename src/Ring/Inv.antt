-- ===== src/Ring/Inv.antt =====
-- The representation invariant of `RingBuffer`, kept by every method: no index out of range, and
-- a capacity that stays within its ceiling.
use grain.Base.{
  ◌+◌, ◌-◌, ◌*◌, ◌^◌, ◌≤◌, ◌<◌, min, ◌≡◌, true, some, ◌++◌, length, get_or, set, take, drop,
  replicate, length-set, length-replicate, length-append, length-take, length-drop, arith,
}
use grain.Base.Int.{ℤ, pos_part}
use grain.Ring.{RingBuffer, copy, next, new, grow, store, pop}
use grain.Ring.Window.{around, copy_twice}

pub record IsValid {A : Type 0} (rb : RingBuffer A) : Type 0 where
  pub fits : length rb.items ≡ rb.cap
  pub nonempty : 0 < rb.cap
  pub below_max : rb.cap ≤ rb.max_cap
  pub small : rb.max_cap < 2 ^ 62
  pub head_in : rb.head < rb.cap
  pub size_in : rb.size ≤ rb.cap
  pub tail_at : rb.tail ≡ around rb.cap rb.head rb.size

-- `New` builds a valid empty buffer, whatever int64 values it is given below 2 ^ 62: the clamps
-- make the capacity at least 1 and the ceiling at least the capacity.
pub new-IsValid :
    {A : Type 0} (z : A) (init top : ℤ)
    → pos_part init < 2 ^ 62
    → pos_part top < 2 ^ 62
    → IsValid (new z init top) × ((new z init top).size ≡ 0)
unfolding new
new-IsValid z init top hi ht =
    ground (arith, length-replicate (pos_part init) z, length-replicate 1 z)

module _ {A : Type 0} (z : A) where
  -- what a successful write leaves
  abbrev pub stored : RingBuffer A → A → RingBuffer A
  stored rb x = record rb {
    items = set rb.items rb.tail x;
    tail = next rb rb.tail;
    size = rb.size + 1;
  }

  pub store_lem :
      (rb : RingBuffer A) (x : A)
      → IsValid rb
      → rb.size < rb.cap
      → (store z rb x ≡ some (stored rb x)) × IsValid (stored rb x)
  unfolding store
  store_lem rb x v h = ground (arith, length-set rb.items rb.tail x)

  -- what a successful `Pop` leaves
  abbrev pub popped : RingBuffer A → RingBuffer A
  popped rb = record rb {
    items = set rb.items rb.head z;
    head = next rb rb.head;
    size = rb.size - 1;
  }

  pub pop_lem :
      (rb : RingBuffer A)
      → IsValid rb
      → 0 < rb.size
      → (pop z rb ≡ some (popped rb, get_or rb.items rb.head z, true)) × IsValid (popped rb)
  unfolding pop
  pop_lem rb v h = ground (arith, length-set rb.items rb.head z)

  -- what `grow` leaves of a full buffer
  abbrev pub grown : RingBuffer A → RingBuffer A
  grown rb =
      let new_cap = min (rb.cap * 2) rb.max_cap in
      let n = min new_cap (length rb.items - rb.head) in
      let first = copy (replicate new_cap z) (drop rb.head rb.items) in
      record rb {
        items = take n first ++ copy (drop n first) (take rb.tail rb.items);
        head = 0;
        tail = rb.size;
        cap = new_cap;
      }

  -- The new array of a full buffer: its elements from the oldest on, then zero values.
  pub grown_items :
      (rb : RingBuffer A)
      → IsValid rb
      → rb.size ≡ rb.cap
      → rb.cap < rb.max_cap
      → (grown rb).items
        ≡ drop rb.head rb.items
          ++ (take rb.head rb.items ++ replicate (min (rb.cap * 2) rb.max_cap - rb.cap) z)
  grown_items rb v full room =
      let wraps : rb.tail ≡ rb.head = ground arith in
      let front : length (drop rb.head rb.items) ≡ rb.cap - rb.head =
        omega (arith, length-drop rb.head rb.items) in
      let back : length (take rb.head rb.items) ≡ rb.head =
        omega (arith, length-take rb.head rb.items) in
      let rest : min (rb.cap * 2) rb.max_cap
            - length (drop rb.head rb.items)
            - length (take rb.head rb.items)
          ≡ min (rb.cap * 2) rb.max_cap - rb.cap =
        omega arith in
      rw (wraps, ← rest)
        (copy_twice z (min (rb.cap * 2) rb.max_cap) _ (drop rb.head rb.items)
          (take rb.head rb.items) (omega arith) (omega arith))

  pub grow_lem :
      (rb : RingBuffer A)
      → IsValid rb
      → rb.size ≡ rb.cap
      → rb.cap < rb.max_cap
      → (grow z rb ≡ some (grown rb)) × IsValid (grown rb)
  unfolding grow
  grow_lem rb v full room =
      let total : length (grown rb).items ≡ min (rb.cap * 2) rb.max_cap =
        rw (grown_items rb v full room) (
          omega (
            arith,
            length-append (drop rb.head rb.items)
                (take rb.head rb.items ++ replicate (min (rb.cap * 2) rb.max_cap - rb.cap) z),
            length-append (take rb.head rb.items)
                (replicate (min (rb.cap * 2) rb.max_cap - rb.cap) z),
            length-replicate (min (rb.cap * 2) rb.max_cap - rb.cap) z,
            length-drop rb.head rb.items,
            length-take rb.head rb.items,
          )) in
      ground arith
