-- ===== src/Ask/Keep.antt =====
-- Every move keeps the invariant, whatever the other goroutines are.
use grain.Base.{ℕ, ◌+◌, List, [], ◌∷◌, ◌++◌, ◌≡◌, nat_eqb, if◌then◌else◌, arith}
use grain.Ask.{
  Asks, Pc, registering, sending, awaiting, canceling, popping, delivering, collecting, waking,
  occurs, without,
}
use grain.Ask.Moves.{Move, receive}
use grain.Ask.Inv.{Group, weight, tally, AskOk, ReplyOk}

pub occurs-without :
    (n m : ℕ) (l : List ℕ) → occurs n (without m l) ≡ (if nat_eqb m n then 0 else occurs n l)
occurs-without n m [] = ground arith
occurs-without n m (k ∷ l) = ground (arith, occurs-without n m l)

-- the Ask that a goroutine has to do with
abbrev sn_id_of : Pc → ℕ
sn_id_of (registering n) = n
sn_id_of (sending n) = n
sn_id_of (awaiting n) = n
sn_id_of (canceling n _) = n
sn_id_of (popping n _) = n
sn_id_of (delivering n _) = n
sn_id_of (collecting (n ∷ _) _) = n
sn_id_of (waking (n ∷ _)) = n
sn_id_of _ = 0

module _ (g : Group → ℕ) where
  abbrev pub before : Pc → Group → ℕ
  before p w = g w + weight w p

  abbrev pub after : List Pc → Group → ℕ
  after ps w = g w + tally w ps

  pub Move-AskOk :
      {s t : Asks} {p : Pc} {ps : List Pc}
      → Move s p t ps
      → ((n : ℕ) → AskOk s (before p) n)
      → (n : ℕ) → AskOk t (after ps) n
  Move-AskOk {s} (receive {n = k} h) v n = ground (arith, h, v n)
  Move-AskOk {s} {p = p} mv v n = ground (arith, v n, occurs-without n (sn_id_of p) s.pending)

  pub Move-ReplyOk :
      {s t : Asks} {p : Pc} {ps : List Pc}
      → Move s p t ps
      → ((n m : ℕ) → ReplyOk s (before p) n m)
      → (n m : ℕ) → ReplyOk t (after ps) n m
  Move-ReplyOk (receive h) v n m = ground (arith, h, v n m)
  Move-ReplyOk {s} {p = p} mv v n m = ground (arith, v n m)

pub tally-append : (w : Group) (xs ys : List Pc) → tally w (xs ++ ys) ≡ tally w xs + tally w ys
tally-append w [] ys = omega arith
tally-append w (x ∷ xs) ys = omega (arith, tally-append w xs ys)
