-- ===== src/Ring.antt =====
-- al/ringbuffer/ringbuffer.go: the bounded FIFO behind every mailbox.
-- Each method runs whole under `rb.mu`, so it is one function here. `none` is a Go panic (an index
-- or a slice bound out of range, or a negative length given to `make`).
pub mod Inv
pub mod Window
pub mod Refine
mod Tests
use grain.Base.{
  ℕ, ◌+◌, ◌-◌, ◌*◌, ◌^◌, min, Bool, true, false, List, ◌++◌, [], ◌∷◌, Option, none, some, ltb, leb,
  nat_eqb, if◌then◌else◌, length, get_or, set, take, drop, replicate,
}
use grain.Base.Int.{ℤ, pos, pos_part, leb_ℤ, ltb_ℤ}
use grain.Base.Maybe.{◌>>=◌}

pub data PushResult : Type 0 where
  push_ok push_overflow push_closed : PushResult

pub record RingBuffer (A : Type 0) : Type 0 where
  pub items : List A
  pub head : ℕ
  pub tail : ℕ
  pub size : ℕ
  pub cap : ℕ
  pub max_cap : ℕ
  pub closed : Bool

-- Go's `copy(dst, src)`: the destination afterwards
abbrev pub copy {ℓ} : {A : Type ℓ} → List A → List A → List A
copy [] src = []
copy (d ∷ dst) [] = d ∷ dst
copy (d ∷ dst) (s ∷ src) = s ∷ copy dst src

-- `next` of a capacity: the receiver is used for `rb.cap` only.
abbrev pub next_at : ℕ → ℕ → ℕ
next_at cap i = if nat_eqb (i + 1) cap then 0 else i + 1

abbrev pub next : {A : Type 0} → RingBuffer A → ℕ → ℕ
next rb i = next_at rb.cap i

-- The zero value of the element type is the section's parameter.
module _ {A : Type 0} (zero_value : A) where
  unfoldable pub new : ℤ → ℤ → RingBuffer A
  new init_cap max_cap =
      let init = if leb_ℤ init_cap (pos 0) then pos 1 else init_cap in
      let top = if ltb_ℤ max_cap init then init else max_cap in
      record {
        items = replicate (pos_part init) zero_value;
        head = 0;
        tail = 0;
        size = 0;
        cap = pos_part init;
        max_cap = pos_part top;
        closed = false;
      }

  -- `cap * 2` from 2 ^ 63 on is a negative int64, `min` returns it, and `make` panics.
  pub grow : RingBuffer A → Option (RingBuffer A)
  grow rb =
      if leb (2 ^ 63) (rb.cap * 2)
      then none
      else if ltb (length rb.items) rb.head
      then none
      else if ltb (length rb.items) rb.tail
      then none
      else let new_cap = min (rb.cap * 2) rb.max_cap in
        let n = min new_cap (length rb.items - rb.head) in
        let first = copy (replicate new_cap zero_value) (drop rb.head rb.items) in
        some (record rb {
          items = take n first ++ copy (drop n first) (take rb.tail rb.items);
          head = 0;
          tail = rb.size;
          cap = new_cap;
        })

  -- the end of `Push`: the write at `tail`
  pub store : RingBuffer A → A → Option (RingBuffer A)
  store rb item =
      if ltb rb.tail (length rb.items)
      then some (record rb {
        items = set rb.items rb.tail item;
        tail = next rb rb.tail;
        size = rb.size + 1;
      })
      else none

  pub push : RingBuffer A → A → Option (RingBuffer A × PushResult)
  push rb item =
      if rb.closed
      then some (rb, push_closed)
      else if nat_eqb rb.size rb.cap
      then if leb rb.max_cap rb.cap
        then some (rb, push_overflow)
        else (do rb' ← grow rb; rb'' ← store rb' item; some (rb'', push_ok))
      else (do rb' ← store rb item; some (rb', push_ok))

  -- The result is the pair that `Pop` returns, beside the new buffer.
  pub pop : RingBuffer A → Option (RingBuffer A × A × Bool)
  pop rb =
      if nat_eqb rb.size 0
      then some (rb, zero_value, false)
      else if ltb rb.head (length rb.items)
      then some (
        record rb {
          items = set rb.items rb.head zero_value;
          head = next rb rb.head;
          size = rb.size - 1;
        },
        get_or rb.items rb.head zero_value,
        true,
      )
      else none

pub close : {A : Type 0} → RingBuffer A → RingBuffer A
close rb = record rb { closed = true }

pub len : {A : Type 0} → RingBuffer A → ℕ
len rb = rb.size

pub capacity : {A : Type 0} → RingBuffer A → ℕ
capacity rb = rb.cap
