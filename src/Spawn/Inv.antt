-- ===== src/Spawn/Inv.antt =====
-- What holds between two steps: of each slot, of each process, and of their number.
use grain.Base.{ℕ, ◌+◌, ◌<◌, Bool, true, false, Option, none, some, List, [], ◌∷◌, ◌≡◌, nat_eqb}
use grain.Spawn.{
  Spawner, Pc, waiting, rechecking, building, registering, starting, unlocking, releasing, removing,
}

-- The groups of goroutines that the invariant counts.
pub data Group : Type 0 where
  users_of holders_of builders_of : (slot : ℕ) → Group
  owners_of : (process : ℕ) → Group
  publishers : Group

abbrev pub bit : Bool → ℕ
bit true = 1
bit false = 0

abbrev pub weight : Group → Pc → ℕ
weight (users_of a) (waiting _ b) = bit (nat_eqb a b)
weight (users_of a) (rechecking _ b) = bit (nat_eqb a b)
weight (users_of a) (building _ b) = bit (nat_eqb a b)
weight (users_of a) (registering _ b _) = bit (nat_eqb a b)
weight (users_of a) (starting _ b _) = bit (nat_eqb a b)
weight (users_of a) (unlocking b _) = bit (nat_eqb a b)
weight (users_of a) (releasing b _) = bit (nat_eqb a b)
weight (holders_of a) (rechecking _ b) = bit (nat_eqb a b)
weight (holders_of a) (building _ b) = bit (nat_eqb a b)
weight (holders_of a) (registering _ b _) = bit (nat_eqb a b)
weight (holders_of a) (starting _ b _) = bit (nat_eqb a b)
weight (holders_of a) (unlocking b _) = bit (nat_eqb a b)
weight (builders_of a) (building _ b) = bit (nat_eqb a b)
weight (builders_of a) (registering _ b _) = bit (nat_eqb a b)
weight (owners_of q) (removing p) = bit (nat_eqb q p)
weight publishers (registering _ _ _) = 1
weight publishers (starting _ _ _) = 1
weight _ _ = 0

abbrev pub tally : Group → List Pc → ℕ
tally w [] = 0
tally w (p ∷ ps) = weight w p + tally w ps

abbrev pub occurs : ℕ → List ℕ → ℕ
occurs q [] = 0
occurs q (p ∷ ps) = bit (nat_eqb q p) + occurs q ps

abbrev pub is_process : ℕ → Option ℕ → ℕ
is_process q none = 0
is_process q (some p) = bit (nat_eqb q p)

-- Of a slot: its count and its mutex, that it is in the map while it is used, and that nothing is
-- registered while a process is built under it.
pub record SlotOk (s : Spawner) (n : Group → ℕ) (a : ℕ) : Type 0 where
  pub users_counted : s.users a ≡ n (users_of a)
  pub one_holder : n (holders_of a) + bit (s.mu_free a) ≡ 1
  pub used_active : 0 < n (users_of a) → s.active ≡ some a
  pub active_used : s.active ≡ some a → 0 < n (users_of a)
  pub building_absent : 0 < n (builders_of a) → s.registered ≡ none

-- Of a process: it is registered while it may run, and then until its removal.
abbrev pub ProcessOk : Spawner → (Group → ℕ) → ℕ → Type 0
ProcessOk s n q = n (owners_of q) + occurs q s.running ≡ is_process q s.registered

-- Of their number: for what was built `init` was called, or is about to be.
abbrev pub CountOk : Spawner → (Group → ℕ) → Type 0
CountOk s n = s.built ≡ s.started + n publishers
