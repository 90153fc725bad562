-- ===== src/Queue.antt =====
-- What a mailbox promises, with no array: a FIFO of at most `limit` elements that can be closed.
-- The specification that al/ringbuffer/ringbuffer.go is proved against.
use grain.Base.{ℕ, Bool, true, false, List, [], ◌∷◌, ◌++◌, leb, if◌then◌else◌, length}
use grain.Ring.{PushResult, push_ok, push_overflow, push_closed}

pub record Queue (A : Type 0) : Type 0 where
  pub waiting : List A
  pub limit : ℕ
  pub closed : Bool

-- What a client does, and what it is answered.
pub data Op (A : Type 0) : Type 0 where
  put : A → Op A
  get : Op A
  shut : Op A

pub data Reply (A : Type 0) : Type 0 where
  pushed : PushResult → Reply A
  got : A → Bool → Reply A
  done : Reply A

module _ {A : Type 0} where
  unfoldable pub offer : Queue A → A → Queue A × PushResult
  offer q x =
      if q.closed
      then (q, push_closed)
      else if leb q.limit (length q.waiting)
      then (q, push_overflow)
      else (record q { waiting = q.waiting ++ (x ∷ []) }, push_ok)

  abbrev pub poll_from : Queue A → A → List A → Queue A × A × Bool
  poll_from q z [] = (q, z, false)
  poll_from q z (x ∷ rest) = (record q { waiting = rest }, x, true)

  unfoldable pub poll : Queue A → A → Queue A × A × Bool
  poll q z = poll_from q z q.waiting

  unfoldable pub run : A → Queue A → List (Op A) → List (Reply A)
  run z q [] = []
  run z q (put x ∷ ops) = let (q', r) = offer q x in pushed r ∷ run z q' ops
  run z q (get ∷ ops) = let (q', x, ok) = poll q z in got x ok ∷ run z q' ops
  run z q (shut ∷ ops) = done ∷ run z (record q { closed = true }) ops
