-- ===== src/Ask/Shutdown.antt =====
-- What an Ask ends with, and what a system that stops leaves behind.
use grain.Base.{
  ℕ, ◌+◌, ◌≤◌, ◌<◌, ◌≡◌, ◌≢◌, refl, Bool, true, false, none, List, [], ◌∷◌, ◌++◌, All, arith,
}
use grain.Ask.{message, received, Pc, awaiting, canceling, occurs}
use grain.Ask.Moves.{System, Reach}
use grain.Ask.Inv.{
  Group, waiters_of, enders_of, fillers_of, wakers_of, collectors_of, carriers_of, weight, tally,
  sent, AskOk,
}
use grain.Ask.Keep.{tally-append}
use grain.Ask.Reachable.{Reach-Inv}

-- Only Asks that wait for their reply are left.
abbrev pub is_awaiting : Pc → Bool
is_awaiting (awaiting n) = true
is_awaiting _ = false

tally-here : (w : Group) (xs ys : List Pc) (p : Pc) → weight w p ≤ tally w (xs ++ (p ∷ ys))
tally-here w xs ys p = omega (arith, tally-append w xs (p ∷ ys))

no_helpers :
    (ts : List Pc) (n : ℕ)
    → All (λ p. is_awaiting p ≡ true) ts
    → tally (fillers_of n) ts + tally (wakers_of n) ts + tally (collectors_of n) ts ≡ 0
no_helpers [] n h = omega arith
no_helpers (p ∷ ts) n (e, h) = ground (arith, no_helpers ts n h)

-- No Ask hangs in a shutdown: once registration is closed and only Asks that wait are left, the
-- channel of each of them has a message, so that it goes on without its timeout.
pub asks_wake :
    {x : System} (n : ℕ) (xs ys : List Pc)
    → Reach x
    → x.asks.pending_registration_closed ≡ true
    → All (λ p. is_awaiting p ≡ true) x.threads
    → x.threads ≡ xs ++ (awaiting n ∷ ys)
    → x.asks.channel n ≢ none
asks_wake {x} n xs ys r closed all e empty =
    let waits : 0 < tally (waiters_of n) x.threads =
      rw e (grind (arith, tally-here (waiters_of n) xs ys (awaiting n))) in
    let nobody = no_helpers x.threads n all in
    let ok : AskOk x.asks (λ w. tally w x.threads) n = (Reach-Inv r).asks_ok n in
    ground (arith, ok.served waits empty, nobody, closed)

-- A reply reaches the Ask that it is for: the message with which an Ask ends was sent to its number.
pub received-sent :
    {x : System} (n m : ℕ) (xs ys : List Pc)
    → Reach x
    → x.threads ≡ xs ++ (canceling n (received (message m)) ∷ ys)
    → 0 < sent n m x.asks.replies
received-sent {x} n m xs ys r e =
    ((Reach-Inv r).replies_ok n m).carried_sent (
      rw e (grind (arith, tally-here (carriers_of n m) xs ys (canceling n (received (message m))))))

nothing_occurs : (l : List ℕ) → ((n : ℕ) → occurs n l ≡ 0) → l ≡ []
nothing_occurs [] h = refl
nothing_occurs (n ∷ l) h = absurd (ground (arith, h n))

-- The table of pending Asks keeps no entry of an Ask that is over: with no goroutine left it is empty.
pub asks_settle : {x : System} → Reach x → x.threads ≡ [] → x.asks.pending ≡ []
asks_settle {x} r e = nothing_occurs x.asks.pending (λ n.
    let ok = (Reach-Inv r).asks_ok n in
    let quiet : tally (waiters_of n) x.threads + tally (enders_of n) x.threads ≡ 0 = rw e refl in
    grind (arith, ok.pending_open, quiet))
