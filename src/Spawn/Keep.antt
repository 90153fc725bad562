-- ===== src/Spawn/Keep.antt =====
-- Every move keeps the invariant, whatever the other goroutines are.
use grain.Base.{ℕ, ◌+◌, ◌-◌, ◌≤◌, true, none, some, List, [], ◌∷◌, ◌++◌, ◌≡◌, ◌≢◌, arith}
use grain.Spawn.{
  Spawner, Pc, waiting, rechecking, building, registering, starting, unlocking, releasing,
}
use grain.Spawn.Moves.{
  Move, hit, miss, reserve_new, reserve_old, lock, taken, untaken, inserted, not_inserted, release,
  release_last, remove_own, remove_other,
}
use grain.Spawn.Inv.{
  Group, users_of, holders_of, builders_of, weight, tally, SlotOk, ProcessOk, CountOk,
}

-- The premise of a move, which a catch-all clause over the moves cannot name.
abbrev Guard : {s t : Spawner} {p : Pc} {ps : List Pc} → Move s p t ps → Type 0
Guard {s} (hit {p} _) = s.registered ≡ some p
Guard {s} (miss _) = s.registered ≡ none
Guard {s} (reserve_new _) = s.active ≡ none
Guard {s} (reserve_old {k} {a} _) = s.active ≡ some a
Guard {s} (lock {k} {a} _) = s.mu_free a ≡ true
Guard {s} (taken {k} {a} {p} _) = s.registered ≡ some p
Guard {s} (untaken _) = s.registered ≡ none
Guard {s} (inserted _) = s.registered ≡ none
Guard {s} (not_inserted {k} {a} {p} {r} _) = s.registered ≡ some r
Guard {s} (release {a} _) = s.users a - 1 ≢ 0
Guard {s} (release_last {a} _) = s.users a - 1 ≡ 0
Guard {s} (remove_own {p} _) = s.registered ≡ some p
Guard {s} (remove_other {p} _) = s.registered ≢ some p
Guard _ = Unit

guard : {s t : Spawner} {p : Pc} {ps : List Pc} (mv : Move s p t ps) → Guard mv
guard (hit h) = h
guard (miss h) = h
guard (reserve_new h) = h
guard (reserve_old h) = h
guard (lock h) = h
guard (taken h) = h
guard (untaken h) = h
guard (inserted h) = h
guard (not_inserted h) = h
guard (release h) = h
guard (release_last h) = h
guard (remove_own h) = h
guard (remove_other h) = h
guard _ = tt

-- the slot that a goroutine has to do with, and the process
abbrev slot_of : Pc → ℕ
slot_of (waiting _ a) = a
slot_of (rechecking _ a) = a
slot_of (building _ a) = a
slot_of (registering _ a _) = a
slot_of (starting _ a _) = a
slot_of (unlocking a _) = a
slot_of (releasing a _) = a
slot_of _ = 0

pub record Nested (n : Group → ℕ) (a : ℕ) : Type 0 where
  pub holders_in : n (holders_of a) ≤ n (users_of a)
  pub builders_in : n (builders_of a) ≤ n (holders_of a)

module _ (g : Group → ℕ) (nested : (a : ℕ) → Nested g a) where
  abbrev pub before : Pc → Group → ℕ
  before p w = g w + weight w p

  abbrev pub after : List Pc → Group → ℕ
  after ps w = g w + tally w ps

  pub Move-SlotOk :
      {s t : Spawner} {p : Pc} {ps : List Pc}
      → Move s p t ps
      → ((a : ℕ) → SlotOk s (before p) a)
      → (b : ℕ) → SlotOk t (after ps) b
  Move-SlotOk (hit h) v b = ground (arith, v b)
  Move-SlotOk {p = p} mv v b =
      ground (arith, guard mv, v b, v (slot_of p), nested b, nested (slot_of p))

  pub Move-ProcessOk :
      {s t : Spawner} {p : Pc} {ps : List Pc}
      → Move s p t ps
      → ((a : ℕ) → SlotOk s (before p) a)
      → ((q : ℕ) → ProcessOk s (before p) q)
      → (q : ℕ) → ProcessOk t (after ps) q
  Move-ProcessOk (hit h) v o q = ground (arith, o q)
  Move-ProcessOk {p = p} mv v o q = ground (arith, guard mv, v (slot_of p), o q)

  pub Move-CountOk :
      {s t : Spawner} {p : Pc} {ps : List Pc}
      → Move s p t ps
      → ((a : ℕ) → SlotOk s (before p) a)
      → CountOk s (before p)
      → CountOk t (after ps)
  Move-CountOk (hit h) v c = ground arith
  Move-CountOk {p = p} mv v c = ground (arith, guard mv, v (slot_of p))

weight_nested : (p : Pc) (a : ℕ) → Nested (λ w. weight w p) a
weight_nested p a = ground arith

pub tally_nested : (ps : List Pc) (a : ℕ) → Nested (λ w. tally w ps) a
tally_nested [] a = omega arith
tally_nested (p ∷ ps) a = let n = weight_nested p a in let m = tally_nested ps a in omega arith

pub tally-append : (w : Group) (xs ys : List Pc) → tally w (xs ++ ys) ≡ tally w xs + tally w ys
tally-append w [] ys = omega arith
tally-append w (x ∷ xs) ys = omega (arith, tally-append w xs ys)
