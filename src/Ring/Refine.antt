-- ===== src/Ring/Refine.antt =====
-- The ring buffer is the bounded FIFO of grain.Queue, and no call of it panics.
use grain.Base.{
  suc, ap₂, ◌+◌, ◌-◌, ◌≤◌, ◌<◌, ◌≡◌, refl, ◌∙◌, sym, ap, inl, inr, Bool, true, false, Option, some,
  List, [], ◌∷◌, ◌++◌, length, get_or, take, drop, Bool-cases, leb, nat_eqb, length-append,
  length-take, length-drop, append_assoc, arith, dec_lt,
}
use grain.Base.Maybe.{◌>>=◌}
use grain.Queue
use grain.Queue.{Queue, Op, put, get, shut, Reply, pushed, got, done}
use grain.Ring.{
  RingBuffer, PushResult, push_ok, push_overflow, push_closed, next_at, push, pop, close,
}
use grain.Ring.Inv.{IsValid, stored, store_lem, popped, pop_lem, grown, grown_items, grow_lem}
use grain.Ring.Window.{
  around, window, length-window, window-suc, window-set, window-set_before, window-eq-slice,
  window-add, take-append_left, take_all,
}

module _ {A : Type 0} (z : A) where
  -- the elements, oldest first
  abbrev pub contents : RingBuffer A → List A
  contents rb = window z rb.cap rb.items rb.head rb.size

  abbrev pub view : RingBuffer A → Queue A
  view rb = record { waiting = contents rb; limit = rb.max_cap; closed = rb.closed }

  contents-stored :
      (rb : RingBuffer A) (x : A)
      → IsValid rb
      → rb.size < rb.cap
      → contents (stored z rb x) ≡ contents rb ++ (x ∷ [])
  contents-stored rb x v h =
      let count : rb.size + 1 ≡ suc rb.size = omega arith in
      rw count (window-set z rb.cap rb.items x rb.size rb.head rb.tail v.fits v.head_in h v.tail_at)

  contents-popped :
      (rb : RingBuffer A)
      → IsValid rb
      → 0 < rb.size
      → contents rb ≡ get_or rb.items rb.head z ∷ contents (popped z rb)
  contents-popped rb v h =
      window-suc z rb.cap rb.items rb.head rb.size h
      ∙ ap (λ l. get_or rb.items rb.head z ∷ l)
          (sym (
            window-set_before z rb.cap rb.items z (rb.size - 1) 1 (next_at rb.cap rb.head) rb.head
              v.head_in (omega arith) (omega arith) (ground arith)))

  -- A full ring read out in order is its array cut at the head.
  contents-full :
      (rb : RingBuffer A)
      → IsValid rb
      → rb.size ≡ rb.cap
      → contents rb ≡ drop rb.head rb.items ++ take rb.head rb.items
  contents-full rb v full =
      let count : rb.size ≡ rb.cap - rb.head + rb.head = omega arith in
      let back : around rb.cap rb.head (rb.cap - rb.head) ≡ 0 = ground arith in
      let whole : take (rb.cap - rb.head) (drop rb.head rb.items) ≡ drop rb.head rb.items =
        take_all (rb.cap - rb.head) (drop rb.head rb.items)
          (omega (arith, length-drop rb.head rb.items)) in
      ap (window z rb.cap rb.items rb.head) count
      ∙ window-add z rb.cap rb.items (rb.cap - rb.head) rb.head rb.head v.head_in (omega arith)
      ∙ ap₂ ◌++◌
          (window-eq-slice z rb.cap rb.items (rb.cap - rb.head) rb.head v.fits (omega arith)
            ∙ whole)
          (ap (λ k. window z rb.cap rb.items k rb.head) back
            ∙ window-eq-slice z rb.cap rb.items rb.head 0 v.fits (omega arith))

  contents-grown :
      (rb : RingBuffer A)
      → IsValid rb
      → rb.size ≡ rb.cap
      → rb.cap < rb.max_cap
      → contents (grown z rb) ≡ contents rb
  contents-grown rb v full room =
      let ok : IsValid (grown z rb) = (grow_lem z rb v full room).1 in
      let halves : length (drop rb.head rb.items ++ take rb.head rb.items) ≡ rb.size = omega (
        arith,
        length-append (drop rb.head rb.items) (take rb.head rb.items),
        length-drop rb.head rb.items,
        length-take rb.head rb.items,
      ) in
      window-eq-slice z (grown z rb).cap (grown z rb).items rb.size 0 ok.fits (omega arith)
      ∙ ap (take rb.size) (
          grown_items z rb v full room
          ∙ sym (append_assoc (drop rb.head rb.items) (take rb.head rb.items) _))
      ∙ take-append_left rb.size (drop rb.head rb.items ++ take rb.head rb.items) _ (sym halves)
      ∙ sym (contents-full rb v full)

  -- the branches of `Push`
  module _ (rb : RingBuffer A) (x : A) (v : IsValid rb) where
    push_shut : rb.closed ≡ true → push z rb x ≡ some (rb, push_closed)
    unfolding push
    push_shut h = rw h

    push_room : rb.closed ≡ false → rb.size < rb.cap → push z rb x ≡ some (stored z rb x, push_ok)
    unfolding push
    push_room h room =
        let test : nat_eqb rb.size rb.cap ≡ false = ground arith in
        simp (h, test, (store_lem z rb x v room).0)

    push_full :
        rb.closed ≡ false
        → rb.size ≡ rb.cap
        → rb.max_cap ≤ rb.cap
        → push z rb x ≡ some (rb, push_overflow)
    unfolding push
    push_full h full top =
        let test : nat_eqb rb.size rb.cap ≡ true = ground arith in
        let at_top : leb rb.max_cap rb.cap ≡ true = ground arith in rw (h, test, at_top)

    push-grown :
        rb.closed ≡ false
        → rb.size ≡ rb.cap
        → rb.cap < rb.max_cap
        → push z rb x ≡ some (stored z (grown z rb) x, push_ok)
    unfolding push
    push-grown h full below =
        let (grows, ok) = grow_lem z rb v full below in
        ground (arith, grows, (store_lem z (grown z rb) x ok (omega arith)).0)

  -- `Push` answers as the queue does, on every branch, leaves a valid buffer that holds what the
  -- queue then holds, and does not panic.
  pub push_refines :
      (rb : RingBuffer A) (x : A)
      → IsValid rb
      → (r : RingBuffer A × PushResult) × (push z rb x ≡ some r)
        × IsValid r.0
        × ((view r.0, r.1) ≡ Queue.offer (view rb) x)
  unfolding Queue.offer
  push_refines rb x v = elim (Bool-cases rb.closed) [
    | inl c ↦ ((rb, push_closed), push_shut rb x v c, v, rw c)
    | inr c ↦ elim (dec_lt rb.size rb.cap) [
      | yes room ↦
          let below : leb rb.max_cap (length (contents rb)) ≡ false =
            ground (arith, length-window z rb.cap rb.items rb.head rb.size) in
          (
            (stored z rb x, push_ok),
            push_room rb x v c room,
            (store_lem z rb x v room).1,
            rw (contents-stored rb x v room, c, below),
          )
      | no full ↦ elim (dec_lt rb.cap rb.max_cap) [
        | yes below ↦
            let (_, ok) = grow_lem z rb v (omega arith) below in
            let under : leb rb.max_cap (length (contents rb)) ≡ false =
              ground (arith, length-window z rb.cap rb.items rb.head rb.size) in
            (
              (stored z (grown z rb) x, push_ok),
              push-grown rb x v c (omega arith) below,
              (store_lem z (grown z rb) x ok (omega arith)).1,
              rw (
                contents-stored (grown z rb) x ok (omega arith),
                contents-grown rb v (omega arith) below,
                c,
                under,
              ),
            )
        | no top ↦
            let over : leb rb.max_cap (length (contents rb)) ≡ true =
              ground (arith, length-window z rb.cap rb.items rb.head rb.size) in
            ((rb, push_overflow), push_full rb x v c (omega arith) (omega arith), v, rw (c, over))
      ]
    ]
  ]

  pop_empty : (rb : RingBuffer A) → rb.size ≡ 0 → pop z rb ≡ some (rb, z, false)
  unfolding pop
  pop_empty rb h = let test : nat_eqb rb.size 0 ≡ true = ground arith in rw test

  -- `Pop` answers as the queue does, leaves a valid buffer that holds what the queue then holds,
  -- and does not panic.
  pub pop_refines :
      (rb : RingBuffer A)
      → IsValid rb
      → (r : RingBuffer A × A × Bool) × (pop z rb ≡ some r)
        × IsValid r.0
        × ((view r.0, r.1, r.2) ≡ Queue.poll (view rb) z)
  unfolding Queue.poll
  pop_refines rb v = elim (dec_lt 0 rb.size) [
    | yes some' ↦
        let (pops, ok) = pop_lem z rb v some' in
        ((popped z rb, get_or rb.items rb.head z, true), pops, ok, rw (contents-popped rb v some'))
    | no none' ↦
        let e : rb.size ≡ 0 = omega arith in
        let nothing : contents rb ≡ [] = ap (window z rb.cap rb.items rb.head) e in
        ((rb, z, false), pop_empty rb e, v, rw nothing)
  ]

  -- a client's calls in order, with what each returns; `none` if one of them panics
  unfoldable pub run : RingBuffer A → List (Op A) → Option (List (Reply A))
  run rb [] = some []
  run rb (put x ∷ ops) = do
    (rb', r) ← push z rb x
    let rest = run rb' ops
    replies ← rest
    some (pushed r ∷ replies)
  run rb (get ∷ ops) = do
    (rb', x, ok) ← pop z rb
    let rest = run rb' ops
    replies ← rest
    some (got x ok ∷ replies)
  run rb (shut ∷ ops) = do replies ← run (close rb) ops; some (done ∷ replies)

  -- `Close` keeps the invariant.
  close-IsValid : (rb : RingBuffer A) → IsValid rb → IsValid (close rb)
  unfolding close
  close-IsValid rb v = record {
    fits = v.fits;
    nonempty = v.nonempty;
    below_max = v.below_max;
    small = v.small;
    head_in = v.head_in;
    size_in = v.size_in;
    tail_at = v.tail_at;
  }

  -- No sequence of calls tells a valid ring from the bounded FIFO of its contents, and none panics.
  pub run_refines :
      (ops : List (Op A)) (rb : RingBuffer A)
      → IsValid rb
      → run rb ops ≡ some (Queue.run z (view rb) ops)
  unfolding run Queue.run close
  run_refines [] rb v = refl
  run_refines (put x ∷ ops) rb v =
      let ((rb', r), runs, ok, same) = push_refines rb x v in
      rw (runs, run_refines ops rb' ok, ← same)
  run_refines (get ∷ ops) rb v =
      let ((rb', x, b), runs, ok, same) = pop_refines rb v in
      rw (runs, run_refines ops rb' ok, ← same)
  run_refines (shut ∷ ops) rb v = rw (run_refines ops (close rb) (close-IsValid rb v), close)
