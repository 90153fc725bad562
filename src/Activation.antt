-- ===== src/Activation.antt =====
-- kind_opts.go, with setTxn and removeTxn of provider_etcd.go and getActorRegisterName of config.go:
-- the registration of a grain, which is the cluster's lock on running it. etcd is a parameter.
pub mod Lock
pub mod Memory
mod Tests
use grain.Base.{
  ℕ, zero, suc, ◌≡◌, ◌≢◌, ◌⊎◌, Bool, true, false, Option, none, some, List, [], ◌∷◌, ◌++◌,
  if◌then◌else◌, Bytes, ◌==◌, bytes_comparable,
}
use grain.Base.Order.{contains}
use grain.ActorId.{slash}

-- What the provider relies on of etcd: transactions are atomic, an error leaves it open whether the
-- transaction was applied, and a creation changes no key that is there. `true` is a commit that
-- succeeded.
pub record Etcd : Type 1 where
  pub Store : Type 0
  pub lookup : Store → Bytes → Option Bytes
  -- If(CreateRevision(key) = 0) Then(Put(key, val))
  pub create : Store → Bytes → Bytes → Store × Bool
  -- If(Value(key) = val) Then(Delete(key))
  pub delete_equal : Store → Bytes → Bytes → Store × Bool
  pub create_succeeds :
      (s : Store) (key val : Bytes)
      → (create s key val).1 ≡ true
      → (lookup s key ≡ none) × (lookup (create s key val).0 key ≡ some val)
  pub create_keeps :
      (s : Store) (key val other old : Bytes)
      → lookup s other ≡ some old
      → lookup (create s key val).0 other ≡ some old

abbrev pub default_register_times : ℕ
default_register_times = 3

-- `getActorRegisterName`
abbrev pub get_actor_register_name : Bytes → Bytes → Bytes
get_actor_register_name cluster_name id = slash ∷ (cluster_name ++ (slash ∷ id))

module _ (etcd : Etcd) where
  unfoldable pub set_txn : etcd.Store → Bytes → Bytes → etcd.Store × Bool
  set_txn s key val = etcd.create s key val

  pub remove_txn : etcd.Store → Bytes → Bytes → etcd.Store × Bool
  remove_txn s key val = etcd.delete_equal s key val

  -- the attempts of `defaultRegisterToCluster`; `false` is its error
  pub register_times : ℕ → etcd.Store → Bytes → Bytes → etcd.Store × Bool
  register_times zero s key addr = (s, false)
  register_times (suc n) s key addr =
      let (s', ok) = set_txn s key addr in
      let again = register_times n s' key addr in if ok then (s', true) else again

  pub default_register_to_cluster :
      List Bytes → etcd.Store → (kind key addr : Bytes) → etcd.Store × Bool
  default_register_to_cluster kinds s kind key addr =
      if contains kinds kind then register_times default_register_times s key addr else (s, true)

  pub default_unregister_from_cluster :
      List Bytes → etcd.Store → (kind key addr : Bytes) → etcd.Store × Bool
  default_unregister_from_cluster kinds s kind key addr =
      if contains kinds kind then remove_txn s key addr else (s, true)
