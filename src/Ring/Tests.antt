-- ===== src/Ring/Tests.antt =====
-- Runs of the ring buffer, and the results at concrete inputs.
use grain.Base.{ℕ, ◌≡◌, refl, true, false, some, List, [], ◌∷◌, arith}
use grain.Queue
use grain.Queue.{Op, put, get, shut, pushed, got, done}
use grain.Ring.{RingBuffer, push_ok, push_overflow, push_closed}
use grain.Ring.Inv.{IsValid}
use grain.Ring.Refine.{view, run, run_refines}

-- wrapped round and full: 1, 2, 3 from index 2, in a buffer that may still grow to 5
abbrev wrapped : RingBuffer ℕ
wrapped = record {
  items = 2 ∷ 3 ∷ 1 ∷ [];
  head = 2;
  tail = 2;
  size = 3;
  cap = 3;
  max_cap = 5;
  closed = false;
}

wrapped-IsValid : IsValid wrapped
wrapped-IsValid = record {
  fits = refl;
  nonempty = omega arith;
  below_max = omega arith;
  small = omega arith;
  head_in = omega arith;
  size_in = omega arith;
  tail_at = refl;
}

-- six writes into it: two find room in the array grown to 5, the rest overflow
abbrev calls : List (Op ℕ)
calls = put 4 ∷ put 5 ∷ put 6 ∷ get ∷ put 7 ∷ shut ∷ put 8 ∷ get ∷ get ∷ get ∷ get ∷ get ∷ get ∷ []

answers :
    Queue.run 0 (view 0 wrapped) calls
    ≡ pushed push_ok
      ∷ pushed push_ok
      ∷ pushed push_overflow
      ∷ got 1 true
      ∷ pushed push_ok
      ∷ done
      ∷ pushed push_closed
      ∷ got 2 true
      ∷ got 3 true
      ∷ got 4 true
      ∷ got 5 true
      ∷ got 7 true
      ∷ got 0 false
      ∷ []
unfolding Queue.run Queue.offer Queue.poll
answers = refl

run_refines_example : run 0 wrapped calls ≡ some (Queue.run 0 (view 0 wrapped) calls)
run_refines_example = run_refines 0 calls wrapped wrapped-IsValid
