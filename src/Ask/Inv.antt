-- ===== src/Ask/Inv.antt =====
-- What holds between two steps, of each Ask.
use grain.Base.{
  ℕ, ◌+◌, ◌≤◌, ◌<◌, ◌⊎◌, Bool, true, false, none, some, List, [], ◌∷◌, ◌≡◌, nat_eqb, ◌&&◌,
}
use grain.Ask.{
  message, Asks, received, Pc, registering, sending, awaiting, canceling, popping, delivering,
  collecting, waking, occurs,
}

-- The groups of goroutines that the invariant counts, for an Ask, or for a reply to it.
pub data Group : Type 0 where
  beginners_of waiters_of enders_of fillers_of collectors_of wakers_of : ℕ → Group
  carriers_of : (sn_id reply : ℕ) → Group

abbrev pub bit : Bool → ℕ
bit true = 1
bit false = 0

abbrev pub weight : Group → Pc → ℕ
weight (beginners_of n) (registering k) = bit (nat_eqb n k)
weight (waiters_of n) (sending k) = bit (nat_eqb n k)
weight (waiters_of n) (awaiting k) = bit (nat_eqb n k)
weight (enders_of n) (canceling k _) = bit (nat_eqb n k)
weight (fillers_of n) (delivering k _) = bit (nat_eqb n k)
weight (collectors_of n) (collecting todo _) = occurs n todo
weight (wakers_of n) (collecting _ found) = occurs n found
weight (wakers_of n) (waking found) = occurs n found
weight (carriers_of n m) (popping k r) = bit (nat_eqb n k && nat_eqb m r)
weight (carriers_of n m) (delivering k r) = bit (nat_eqb n k && nat_eqb m r)
weight (carriers_of n m) (canceling k (received (message r))) = bit (nat_eqb n k && nat_eqb m r)
weight _ _ = 0

abbrev pub tally : Group → List Pc → ℕ
tally w [] = 0
tally w (p ∷ ps) = weight w p + tally w ps

abbrev pub sent : ℕ → ℕ → List (ℕ × ℕ) → ℕ
sent n m [] = 0
sent n m ((k, r) ∷ rs) = bit (nat_eqb n k && nat_eqb m r) + sent n m rs

-- Of an Ask: it is one goroutine, it is in the table while it is open at most, and while it waits on
-- an empty channel someone will still fill it.
pub record AskOk (s : Asks) (g : Group → ℕ) (n : ℕ) : Type 0 where
  pub once : g (beginners_of n) + g (waiters_of n) + g (enders_of n) ≤ 1
  pub unborn : s.next_sn_id ≤ n → g (beginners_of n) + g (waiters_of n) + g (enders_of n) ≡ 0
  pub pending_open : 0 < occurs n s.pending → 0 < g (waiters_of n) + g (enders_of n)
  pub served :
      0 < g (waiters_of n)
      → s.channel n ≡ none
      → (0 < g (fillers_of n) + g (wakers_of n))
        ⊎ ((0 < occurs n s.pending)
            × ((s.pending_registration_closed ≡ false) ⊎ (0 < g (collectors_of n))))

-- Of a reply: whoever has it got it from a sender.
pub record ReplyOk (s : Asks) (g : Group → ℕ) (n m : ℕ) : Type 0 where
  pub carried_sent : 0 < g (carriers_of n m) → 0 < sent n m s.replies
  pub channel_sent : s.channel n ≡ some (message m) → 0 < sent n m s.replies
