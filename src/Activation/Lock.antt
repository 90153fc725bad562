-- ===== src/Activation/Lock.antt =====
-- Of all nodes of a cluster, at most one runs a grain.
use grain.Base.{
  ℕ, zero, suc, ◌≤◌, ◌≡◌, refl, sym, ◌∙◌, ◌⊎◌, inl, inr, true, false, some, List, [], ◌∷◌,
  if◌then◌else◌, length, Bytes, ◌==◌, bytes_comparable, Bool-cases, arith,
}
use grain.Base.Order.{contains}
use grain.Activation.{
  Etcd, default_register_times, set_txn, register_times, default_register_to_cluster,
  default_unregister_from_cluster,
}

-- What the nodes do with the grain, each known by its address: one activates it, and runs it if the
-- registration succeeds; and one that runs it stops.
pub data Event : Type 0 where
  activate stop : Bytes → Event

-- the store, and the addresses of the nodes that run the grain
pub record World (S : Type 0) : Type 0 where
  pub store : S
  pub running : List Bytes

module _ (etcd : Etcd) (kinds : List Bytes) (kind key : Bytes) where
  abbrev without : Bytes → List Bytes → List Bytes
  without addr [] = []
  without addr (a ∷ l) = let rest = without addr l in if a == addr then rest else a ∷ rest

  -- The registry of a node has one activation at a time, and only one that owns its registration
  -- takes it back when it stops.
  unfoldable pub step : World etcd.Store → Event → World etcd.Store
  step w (activate addr) =
      if contains w.running addr
      then w
      else (let (s, ok) = default_register_to_cluster etcd kinds w.store kind key addr in
          record { store = s; running = if ok then addr ∷ w.running else w.running })
  step w (stop addr) =
      if contains w.running addr
      then (let (s, _) = default_unregister_from_cluster etcd kinds w.store kind key addr in
          record { store = s; running = without addr w.running })
      else w

  unfoldable pub run : World etcd.Store → List Event → World etcd.Store
  run w [] = w
  run w (e ∷ es) = run (step w e) es

  -- Who runs the grain holds the key, so there is one at most.
  abbrev Held : World etcd.Store → Type 0
  Held w =
      (w.running ≡ []) ⊎ ((a : Bytes) × (w.running ≡ a ∷ []) × (etcd.lookup w.store key ≡ some a))

  register-free :
      (n : ℕ) (s : etcd.Store) (addr : Bytes)
      → (register_times etcd n s key addr).1 ≡ true
      → etcd.lookup (register_times etcd n s key addr).0 key ≡ some addr
  unfolding register_times set_txn
  register-free zero s addr h = cc
  register-free (suc n) s addr h = elim (Bool-cases (etcd.create s key addr).1) [
    | inl ok ↦ rw ok (etcd.create_succeeds s key addr ok).1
    | inr lost ↦ rw lost (register-free n (etcd.create s key addr).0 addr (sym (rw lost refl) ∙ h))
  ]

  register-taken :
      (n : ℕ) (s : etcd.Store) (addr old : Bytes)
      → etcd.lookup s key ≡ some old
      → ((register_times etcd n s key addr).1 ≡ false)
        × (etcd.lookup (register_times etcd n s key addr).0 key ≡ some old)
  unfolding register_times set_txn
  register-taken zero s addr old h = (refl, h)
  register-taken (suc n) s addr old h = elim (Bool-cases (etcd.create s key addr).1) [
    | inl ok ↦ absurd (cc (h, (etcd.create_succeeds s key addr ok).0))
    | inr lost ↦ rw lost (
        register-taken n (etcd.create s key addr).0 addr old
          (etcd.create_keeps s key addr key old h))
  ]

  -- a node registers where nobody runs the grain, and where one does
  activate_first :
      (s : etcd.Store) (addr : Bytes)
      → contains kinds kind ≡ true
      → Held (step (record { store = s; running = [] }) (activate addr))
  unfolding step default_register_to_cluster
  activate_first s addr hosts =
      elim (Bool-cases (register_times etcd default_register_times s key addr).1) [
        | inl ok ↦ rw (hosts, ok) (inr (addr, refl, register-free default_register_times s addr ok))
        | inr lost ↦ rw (hosts, lost) (inl refl)
      ]

  activate_second :
      (s : etcd.Store) (a addr : Bytes)
      → contains kinds kind ≡ true
      → etcd.lookup s key ≡ some a
      → Held (step (record { store = s; running = a ∷ [] }) (activate addr))
  unfolding step default_register_to_cluster
  activate_second s a addr hosts h =
      let (lost, kept) = register-taken default_register_times s addr a h in
      elim (Bool-cases (a == addr)) [
        | inl same ↦ rw same (inr (a, refl, h))
        | inr other ↦ rw (other, hosts, lost) (inr (a, refl, kept))
      ]

  stop_only :
      (s : etcd.Store) (a addr : Bytes)
      → etcd.lookup s key ≡ some a
      → Held (step (record { store = s; running = a ∷ [] }) (stop addr))
  unfolding step
  stop_only s a addr h = elim (Bool-cases (a == addr)) [
    | inl same ↦ rw same (inl refl)
    | inr other ↦ rw other (inr (a, refl, h))
  ]

  held :
      (s : etcd.Store) (a : Bytes)
      → Held (record { store = s; running = a ∷ [] })
      → etcd.lookup s key ≡ some a
  held s a (inl e) = cc
  held s a (inr (b, e, h)) = cc

  Held-two :
      (s : etcd.Store) (a b : Bytes) (l : List Bytes)
      → ¬ Held (record { store = s; running = a ∷ b ∷ l })
  Held-two s a b l (inl e) = cc
  Held-two s a b l (inr (c, e, h)) = cc

  step-Held_at :
      (s : etcd.Store) (l : List Bytes) (e : Event)
      → contains kinds kind ≡ true
      → Held (record { store = s; running = l })
      → Held (step (record { store = s; running = l }) e)
  unfolding step
  step-Held_at s [] (activate addr) hosts h = activate_first s addr hosts
  step-Held_at s [] (stop addr) hosts h = inl refl
  step-Held_at s (a ∷ []) (activate addr) hosts h = activate_second s a addr hosts (held s a h)
  step-Held_at s (a ∷ []) (stop addr) hosts h = stop_only s a addr (held s a h)
  step-Held_at s (a ∷ b ∷ l) e hosts h = absurd (Held-two s a b l h)

  step-Held :
      (w : World etcd.Store) (e : Event) → contains kinds kind ≡ true → Held w → Held (step w e)
  step-Held w e hosts h = step-Held_at w.store w.running e hosts h

  runs-Held :
      (es : List Event) (w : World etcd.Store)
      → contains kinds kind ≡ true
      → Held w
      → Held (run w es)
  unfolding run
  runs-Held [] w hosts h = h
  runs-Held (e ∷ es) w hosts h = runs-Held es (step w e) hosts (step-Held w e hosts h)

  -- Single activation: whatever order the nodes activate and stop a grain of a hosted kind in, and
  -- however many transactions etcd fails, at most one node runs it, where nobody ran it at first and
  -- every node's registration lives as long as its lease.
  pub one_activation :
      (es : List Event) (s : etcd.Store)
      → contains kinds kind ≡ true
      → length (run (record { store = s; running = [] }) es).running ≤ 1
  one_activation es s hosts =
      elim (runs-Held es (record { store = s; running = [] }) hosts (inl refl)) [
        | inl e ↦ rw e (omega arith)
        | inr (a, e, _) ↦ rw e (omega arith)
      ]
