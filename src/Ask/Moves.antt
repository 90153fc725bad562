-- ===== src/Ask/Moves.antt =====
-- The steps of one goroutine, and of the system of them.
use grain.Base.{ℕ, ◌+◌, none, some, List, [], ◌∷◌, ◌++◌, ◌≡◌}
use grain.Ask.{
  Reply, system_stopping, message, Asks, received, timed_out, unwound, Pc, registering, sending,
  awaiting, canceling, popping, delivering, closing, collecting, waking, put, register_ask,
  after_register, cancel_ask, pop_pending, after_pop, try_send, close_registration, collect_entry,
  new_asks,
}

-- `Move s p t ps`: a goroutine at `p` takes the state from `s` to `t` and goes on at `ps`.
pub data Move (s : Asks) : Pc → Asks → List Pc → Type 0 where
  -- askImpl; the cancellation is deferred
  register : {n : ℕ} → Move s (registering n) (register_ask s n) (after_register s n)
  send : {n : ℕ} → Move s (sending n) s (awaiting n ∷ [])
  send_unwinds : {n : ℕ} → Move s (sending n) s (canceling n unwound ∷ [])
  receive :
      {n : ℕ} {r : Reply}
      → s.channel n ≡ some r
      → Move s
          (awaiting n)
          (record s { channel = put s.channel n none })
          (canceling n (received r) ∷ [])
  time_out : {n : ℕ} → Move s (awaiting n) s (canceling n timed_out ∷ [])
  cancel : {n : ℕ} {o : _} → Move s (canceling n o) (cancel_ask s n) []
  -- deliverReply
  pop : {n m : ℕ} → Move s (popping n m) (pop_pending s n) (after_pop s n m)
  deliver : {n m : ℕ} → Move s (delivering n m) (try_send s n (message m)) []
  -- wakePendingAsks
  close : Move s closing (close_registration s) (collecting s.pending [] ∷ [])
  collect :
      {n : ℕ} {todo found : List ℕ}
      → Move s (collecting (n ∷ todo) found) s (collecting todo (collect_entry s n found) ∷ [])
  collected : {found : List ℕ} → Move s (collecting [] found) s (waking found ∷ [])
  wake :
      {n : ℕ} {found : List ℕ}
      → Move s (waking (n ∷ found)) (try_send s n system_stopping) (waking found ∷ [])
  woken : Move s (waking []) s []

pub record System : Type 0 where
  pub asks : Asks
  pub threads : List Pc

-- A goroutine moves; someone asks, under the next number; a reply to some number comes in, early,
-- late or twice; or the system begins to stop.
pub data Step (s : System) : System → Type 0 where
  move :
      {p : Pc} {t : Asks} {ps : List Pc} (xs ys : List Pc)
      → s.threads ≡ xs ++ (p ∷ ys)
      → Move s.asks p t ps
      → Step s (record { asks = t; threads = xs ++ (ps ++ ys) })
  ask : Step s (record {
    asks = record (s.asks) { next_sn_id = s.asks.next_sn_id + 1 };
    threads = registering s.asks.next_sn_id ∷ s.threads;
  })
  reply :
      (n m : ℕ)
      → Step s (record {
        asks = record (s.asks) { replies = (n, m) ∷ s.asks.replies };
        threads = popping n m ∷ s.threads;
      })
  begin_stop : Step s (record { asks = s.asks; threads = closing ∷ s.threads })

pub data Reach : System → Type 0 where
  fresh : Reach (record { asks = new_asks; threads = [] })
  later : {s t : System} → Reach s → Step s t → Reach t
