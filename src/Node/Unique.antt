-- ===== src/Node/Unique.antt =====
-- Many nodes that register at once, each by its own view of the members.
use grain.Base.{
  ℕ, ◌≡◌, ◌≢◌, ap, Option, none, some, List, [], ◌∷◌, All, nat_eqb, get_or, length, Bytes,
  Bool-cases, inl, inr, Option-cases,
}
use grain.AddrHash.{NodeState}
use grain.Activation.{Etcd, set_txn}
use grain.Node.{
  Node, Registration, registered, get_member_path, free_node_ids, register_round, config_init,
  load_members,
}

-- what a node brings to the race
pub record Party : Type 0 where
  pub rand : ℕ → ℕ → ℕ
  pub now : ℕ → Bytes
  pub version : Bytes
  pub kinds : List Bytes
  pub addr : Bytes

-- One round of `register` by some node, whatever it knows of the members by then.
pub record Event : Type 0 where
  pub party : Party
  pub round : ℕ
  pub node : Node

-- the store, and the ids that rounds ended with
pub record World (S : Type 0) : Type 0 where
  pub store : S
  pub ids : List ℕ

abbrev pub add_id : Option Registration → List ℕ → List ℕ
add_id (some (registered id)) ids = id ∷ ids
add_id _ ids = ids

abbrev pub Distinct : List ℕ → Type 0
Distinct [] = Unit
Distinct (n ∷ l) = All (λ m. n ≢ m) l × Distinct l

module _ (etcd : Etcd) (marshal : NodeState → Bytes) (unmarshal : Bytes → Option NodeState)
    (get_members : etcd.Store → Option (List (Bytes × Bytes))) (cluster_name : Bytes) where
  abbrev round_by : Event → etcd.Store → etcd.Store × Node × Option Registration
  round_by e s =
      register_round etcd marshal unmarshal get_members e.party.rand e.party.now cluster_name
        e.party.version e.party.kinds e.party.addr e.round s e.node

  unfoldable pub step : World etcd.Store → Event → World etcd.Store
  step w e = let (s, x, r) = round_by e w.store in record { store = s; ids = add_id r w.ids }

  unfoldable pub run : World etcd.Store → List Event → World etcd.Store
  run w [] = w
  run w (e ∷ es) = run (step w e) es

  -- The key of each id is taken.
  abbrev Taken : etcd.Store → ℕ → Type 0
  Taken s id = (v : Bytes) × (etcd.lookup s (get_member_path cluster_name id) ≡ some v)

  abbrev Good : etcd.Store → List ℕ → Type 0
  Good s ids = All (Taken s) ids × Distinct ids

  Taken-after :
      (s : etcd.Store) (key val : Bytes) (ids : List ℕ)
      → All (Taken s) ids
      → All (Taken (etcd.create s key val).0) ids
  Taken-after s key val [] h = tt
  Taken-after s key val (id ∷ ids) ((v, h), t) = (
    (v, etcd.create_keeps s key val (get_member_path cluster_name id) v h),
    Taken-after s key val ids t,
  )

  new_differs :
      (s : etcd.Store) (id : ℕ) (ids : List ℕ)
      → etcd.lookup s (get_member_path cluster_name id) ≡ none
      → All (Taken s) ids
      → All (λ m. id ≢ m) ids
  new_differs s id [] h t = tt
  new_differs s id (m ∷ ids) h ((v, g), t) = (
    (λ e. cc (ap (λ k. etcd.lookup s (get_member_path cluster_name k)) e, h, g)),
    new_differs s id ids h t,
  )

  round-Good :
      (w : World etcd.Store) (e : Event) → Good w.store w.ids → Good (step w e).store (step w e).ids
  unfolding step register_round set_txn
  round-Good w e (t, d) =
      let p = e.party in
      let free = free_node_ids e.node.provider in
      let id = get_or free (p.rand e.round (length free)) 0 in
      let key = get_member_path cluster_name id in
      let state =
        config_init etcd marshal unmarshal get_members p.rand p.now cluster_name p.version p.kinds
          p.addr e.round id in
      let txn = etcd.create w.store key (marshal state) in
      let kept = Taken-after w.store key (marshal state) w.ids t in
      elim (Bool-cases (nat_eqb (length free) 0)) [
        | inl full ↦ rw full (t, d)
        | inr room ↦ elim (Bool-cases txn.1) [
          | inl ok ↦
              let (was, holds) = etcd.create_succeeds w.store key (marshal state) ok in
              rw (room, ok)
                (((marshal state, holds), kept), (new_differs w.store id w.ids was t, d))
          | inr lost ↦
              elim (Option-cases (
                load_members etcd marshal unmarshal get_members p.rand p.now cluster_name p.version
                  p.kinds p.addr txn.0 e.node.provider)) [
                    | inl failed ↦ rw (room, lost, failed) (kept, d)
                    | inr (loaded, found) ↦ rw (room, lost, found) (kept, d)
                  ]
        ]
      ]

  runs-Good :
      (es : List Event) (w : World etcd.Store)
      → Good w.store w.ids
      → Good (run w es).store (run w es).ids
  unfolding run
  runs-Good [] w h = h
  runs-Good (e ∷ es) w h = runs-Good es (step w e) (round-Good w e h)

  -- However the rounds of nodes that register interleave, whatever each node knows of the members,
  -- whichever id it picks and whatever transactions fail, no id is given twice.
  pub node_ids-Distinct :
      (es : List Event) (s : etcd.Store) → Distinct (run (record { store = s; ids = [] }) es).ids
  node_ids-Distinct es s = (runs-Good es (record { store = s; ids = [] }) (tt, tt)).1
