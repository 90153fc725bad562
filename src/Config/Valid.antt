-- ===== src/Config/Valid.antt =====
-- What a configuration that was built without a panic is.
use grain.Base.{
  ℕ, ◌+◌, ◌≡◌, ◌≢◌, refl, sym, ap, ◌∙◌, true, false, none, some, List, [], ◌∷◌, length, All, Bytes,
  ◌==◌, bytes_comparable, Option-cases, Bool-cases, inl, inr, arith,
}
use grain.Base.Int.{pos, ltb_ℤ, leb_ℤ}
use grain.Base.Maybe.{>>=-eq-some}
use grain.ActorId.{validate_name}
use grain.SafeMap.{Items, items_get, items_delete}
use grain.Config.{
  Config, Kind, ConfigOpt, with_config_etcd_dial_timeout, with_config_kind, is_reserved, add_kind,
  apply_config_opt, apply_config_opts, default_config, new_config,
}

-- A kind's name can be part of an actor id, and is none of the framework's.
abbrev pub KindOk : Bytes × Kind → Type 0
KindOk kv = (validate_name kv.0 ≡ none) × (is_reserved kv.0 ≡ false)

pub record Valid (c : Config) : Type 0 where
  pub dial_positive : ltb_ℤ (pos 0) c.etcd_dial_timeout ≡ true
  pub lease_positive : ltb_ℤ (pos 0) c.etcd_lease_ttl_second ≡ true
  pub listens : c.grpc_listen_addr ≢ []
  pub kinds_ok : All KindOk c.kinds

abbrev pub kind_options : List ConfigOpt → ℕ
kind_options [] = 0
kind_options (with_config_kind name p os ∷ opts) = 1 + kind_options opts
kind_options (o ∷ opts) = kind_options opts

delete_absent :
    (items : Items Bytes Kind) (key : Bytes)
    → items_get items key ≡ none
    → items_delete items key ≡ items
delete_absent [] key h = refl
delete_absent ((k, v) ∷ items) key h = elim (Bool-cases (k == key)) [
  | inl e ↦
      let found : items_get ((k, v) ∷ items) key ≡ some v = rw e refl in absurd (cc (h, found))
  | inr e ↦
      let rest : items_get items key ≡ none = sym (rw e refl) ∙ h in
      rw e (ap (λ r. (k, v) ∷ r) (delete_absent items key rest))
]

-- `WithConfigKind` on a configuration: the kind is new, its name is good, and nothing else changes.
add_kind-eq-some :
    (c c' : Config) (name : Bytes) (kind : Kind)
    → add_kind c name kind ≡ some c'
    → KindOk (name, kind) × (c' ≡ record c { kinds = (name, kind) ∷ c.kinds })
unfolding add_kind
add_kind-eq-some c c' name kind h = elim (Option-cases (validate_name name)) [
  | inl good ↦ elim (Option-cases (items_get c.kinds name)) [
    | inl absent ↦
        let same = delete_absent c.kinds name absent in ground (arith, h, good, absent, same)
    | inr (old, present) ↦ absurd (ground (arith, h, good, present))
  ]
  | inr (e, bad) ↦ absurd (ground (arith, h, bad))
]

apply_config_opt-Valid :
    (c c' : Config) (o : ConfigOpt)
    → apply_config_opt c o ≡ some c'
    → Valid c
    → Valid c' × (length c'.kinds ≡ kind_options (o ∷ []) + length c.kinds)
unfolding apply_config_opt
apply_config_opt-Valid c c' (with_config_kind name p os) h v =
    let (good, e) = add_kind-eq-some c c' name (record { producer = p; opts = os }) h in
    rw e (
      record {
        dial_positive = v.dial_positive;
        lease_positive = v.lease_positive;
        listens = v.listens;
        kinds_ok = (good, v.kinds_ok);
      },
      omega arith,
    )
apply_config_opt-Valid c c' (with_config_etcd_dial_timeout d) h v =
    elim (Bool-cases (leb_ℤ d (pos 0))) [
      | inl e ↦ absurd (ground (arith, h, e))
      | inr e ↦ ground (arith, h, e, v)
    ]
apply_config_opt-Valid c c' o h v = ground (arith, h, v)

kind_options-cons :
    (o : ConfigOpt) (opts : List ConfigOpt)
    → kind_options (o ∷ opts) ≡ kind_options (o ∷ []) + kind_options opts
kind_options-cons (with_config_kind name p os) opts = omega arith
kind_options-cons o opts = omega arith

apply_config_opts-Valid :
    (opts : List ConfigOpt) (c c' : Config)
    → apply_config_opts c opts ≡ some c'
    → Valid c
    → Valid c' × (length c'.kinds ≡ kind_options opts + length c.kinds)
unfolding apply_config_opts
apply_config_opts-Valid [] c c' h v = ground (arith, h, v)
apply_config_opts-Valid (o ∷ opts) c c' h v =
    let (mid, e, g) = >>=-eq-some (apply_config_opt c o) (λ c'. apply_config_opts c' opts) h in
    let (v', n) = apply_config_opt-Valid c mid o e v in
    let (v'', m) = apply_config_opts-Valid opts mid c' g v' in
    (v'', omega (arith, n, m, kind_options-cons o opts))

default_config-Valid :
    (cluster_name version : Bytes) (urls : List Bytes)
    → Valid (default_config cluster_name version urls)
default_config-Valid cluster_name version urls = record {
  dial_positive = refl;
  lease_positive = refl;
  listens = λ e. cc;
  kinds_ok = tt;
}

-- A configuration that is built without a panic has a positive dial timeout and lease, an address to
-- listen on, and one kind for each `WithConfigKind`, under a name that can be part of an actor id and
-- is none of the framework's own.
pub new_config-Valid :
    (cluster_name version : Bytes) (urls : List Bytes) (opts : List ConfigOpt) (c : Config)
    → new_config cluster_name version urls opts ≡ some c
    → Valid c × (length c.kinds ≡ kind_options opts)
unfolding new_config
new_config-Valid cluster_name version urls opts c h =
    let (v, n) =
      apply_config_opts-Valid opts (default_config cluster_name version urls) c h
        (default_config-Valid cluster_name version urls) in
    (v, omega (arith, n))
