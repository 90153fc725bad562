-- ===== src/Node/Claim.antt =====
-- Nodes that register: each gets an id of its own.
use grain.Base.{
  ℕ, ◌+◌, ◌≤◌, ◌<◌, ◌≡◌, ◌≢◌, refl, subst, ◌∙◌, true, Option, none, some, List, get_or, length,
  nat_eqb, Bytes, bytes_comparable, ==_self, Bool-cases, inl, inr, arith,
}
use grain.Base.Decimal.{format_uint}
use grain.Base.Maybe.{maybe}
use grain.AddrHash.{NodeState}
use grain.Uuid.{node_max}
use grain.SafeMap.{items_get}
use grain.SafeMap.Assoc.{get-set}
use grain.Routes.{Provider, put_event, parse_watch, apply_member_locked, after_last_slash}
use grain.Activation.{Etcd, set_txn}
use grain.Node.{
  Node, Registration, registered, all_in_use, load_failed, get_member_path, free_node_ids,
  register_round, config_init, load_members,
}
use grain.Node.Ids.{IsFree, All-get, free_node_ids-All, after_last_slash-get_member_path}

module _ (etcd : Etcd) (marshal : NodeState → Bytes) (unmarshal : Bytes → Option NodeState)
    (get_members : etcd.Store → Option (List (Bytes × Bytes))) (rand : ℕ → ℕ → ℕ) (now : ℕ → Bytes)
    (cluster_name version : Bytes) (kinds : List Bytes) (addr : Bytes) where
  abbrev round_of : ℕ → etcd.Store → Node → etcd.Store × Node × Option Registration
  round_of =
      register_round etcd marshal unmarshal get_members rand now cluster_name version kinds addr

  abbrev state_of : ℕ → ℕ → NodeState
  state_of = config_init etcd marshal unmarshal get_members rand now cluster_name version kinds addr

  abbrev pick : ℕ → Node → ℕ
  pick round x = let free = free_node_ids x.provider in get_or free (rand round (length free)) 0

  -- What a claimed id is: one of 1 to 1023, whose key was free in etcd and is this node's now, and
  -- under which the node knows itself.
  pub record Claimed (round : ℕ) (s s' : etcd.Store) (x' : Node) (id : ℕ) : Type 0 where
    pub low : 1 ≤ id
    pub high : id ≤ node_max
    pub was_free : etcd.lookup s (get_member_path cluster_name id) ≡ none
    pub is_held :
        etcd.lookup s' (get_member_path cluster_name id) ≡ some (marshal (state_of round id))
    pub state_kept : x'.state ≡ some (state_of round id)
    pub knows_itself : items_get x'.provider.node_map (format_uint id) ≡ some (state_of round id)

  knows :
      (x : Provider) (key value : Bytes) (a : NodeState)
      → unmarshal value ≡ some a
      → items_get (parse_watch unmarshal put_event key value x).node_map (after_last_slash key)
        ≡ some a
  unfolding parse_watch apply_member_locked
  knows x key value a h = rw h (
      get-set x.node_map (after_last_slash key) a (after_last_slash key)
      ∙ rw (==_self (after_last_slash key)) refl)

  -- where there is a free id, and the transaction succeeds
  won-Claimed :
      (round : ℕ) (s : etcd.Store) (x : Node)
      → ((bound : ℕ) → 0 < bound → rand round bound < bound)
      → ((k : ℕ) → unmarshal (marshal (state_of round k)) ≡ some (state_of round k))
      → 0 < length (free_node_ids x.provider)
      → (let id = pick round x in
          let key = get_member_path cluster_name id in
          (etcd.create s key (marshal (state_of round id))).1 ≡ true
          → Claimed round s
              (etcd.create s key (marshal (state_of round id))).0
              (record {
                provider =
                    parse_watch unmarshal put_event key (marshal (state_of round id)) x.provider;
                state = some (state_of round id);
              })
              id)
  won-Claimed round s x in_bounds decodes some_free ok =
      let free = free_node_ids x.provider in
      let id = pick round x in
      let key = get_member_path cluster_name id in
      let (low, high, absent) =
        All-get (λ k. (1 ≤ k) × (k < 1 + node_max) × IsFree x.provider k) free
          (rand round (length free)) 0 (in_bounds (length free) some_free)
          (free_node_ids-All x.provider) in
      let (was, holds) = etcd.create_succeeds s key (marshal (state_of round id)) ok in
      record {
        low = low;
        high = omega (arith, high);
        was_free = was;
        is_held = holds;
        state_kept = refl;
        knows_itself =
            subst
              (λ k.
                items_get
                  (parse_watch unmarshal put_event key (marshal (state_of round id))
                    x.provider).node_map
                  k
                ≡ some (state_of round id))
              (after_last_slash-get_member_path cluster_name id)
              (knows x.provider key (marshal (state_of round id)) (state_of round id) (decodes id));
      }

  abbrev Ended : ℕ → etcd.Store → etcd.Store × Node × Option Registration → Type 0
  Ended round s t = (id : ℕ) → t.2 ≡ some (registered id) → Claimed round s t.0 t.1 id

  no_id :
      (round : ℕ) (s s' : etcd.Store) (x' : Node) (r : Option Registration)
      → ((id : ℕ) → r ≢ some (registered id))
      → Ended round s (s', x', r)
  no_id round s s' x' r never id h = absurd (never id h)

  lost-Ended :
      (round : ℕ) (s s' : etcd.Store) (x : Node) (a : NodeState) (loaded : Option Provider)
      → Ended round s (
          maybe
            (s', record x { state = some a }, some load_failed)
            (λ provider. (s', record { provider = provider; state = some a }, none))
            loaded)
  lost-Ended round s s' x a none =
      no_id round s s' (record x { state = some a }) (some load_failed) (λ id e. cc)
  lost-Ended round s s' x a (some provider) =
      no_id round s s' (record { provider = provider; state = some a }) none (λ id e. cc)

  round-Ended :
      (round : ℕ) (s : etcd.Store) (x : Node)
      → ((bound : ℕ) → 0 < bound → rand round bound < bound)
      → ((k : ℕ) → unmarshal (marshal (state_of round k)) ≡ some (state_of round k))
      → Ended round s (round_of round s x)
  unfolding register_round set_txn
  round-Ended round s x in_bounds decodes =
      let state = state_of round (pick round x) in
      let key = get_member_path cluster_name (pick round x) in
      let txn = etcd.create s key (marshal state) in
      elim (Bool-cases (nat_eqb (length (free_node_ids x.provider)) 0)) [
        | inl full ↦ rw full (no_id round s s x (some all_in_use) (λ id e. cc))
        | inr room ↦ elim (Bool-cases txn.1) [
          | inl ok ↦
              rw (room, ok)
                (λ id e.
                  subst (Claimed round s txn.0 _) (cc e)
                    (won-Claimed round s x in_bounds decodes (ground (arith, room)) ok))
          | inr lost ↦
              rw (room, lost)
                (lost-Ended round s txn.0 x state (
                  load_members etcd marshal unmarshal get_members rand now cluster_name version
                    kinds addr txn.0 x.provider))
        ]
      ]

  -- A round of `register` that ends with an id has claimed it: the id is one of 1 to 1023, nobody had
  -- its key, this node has it now, and the node finds itself in its own member table; where the random
  -- choice keeps its bound and JSON reads back the state of a node.
  pub register_round-Claimed :
      (round : ℕ) (s s' : etcd.Store) (x x' : Node) (id : ℕ)
      → ((bound : ℕ) → 0 < bound → rand round bound < bound)
      → ((k : ℕ) → unmarshal (marshal (state_of round k)) ≡ some (state_of round k))
      → round_of round s x ≡ (s', x', some (registered id))
      → Claimed round s s' x' id
  register_round-Claimed round s s' x x' id in_bounds decodes h =
      subst (Ended round s) h (round-Ended round s x in_bounds decodes) id refl
