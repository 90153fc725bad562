-- ===== src/Config.antt =====
-- config.go, config_with.go, kind_opts.go and kind_opts_with.go: the configuration of a system and
-- the options of a kind. An option is a value here, and a producer, a handler, a logger and a grpc
-- option each go by a number; a panic of Go is `none`. Durations are integers.
pub mod Sizes
pub mod Self
pub mod Valid
mod Tests
use grain.Base.{
  ℕ, zero, Bool, true, false, ◌||◌, Option, none, some, List, [], ◌∷◌, ◌++◌, map, nat_eqb,
  if◌then◌else◌, Bytes, ◌==◌, bytes_comparable,
}
use grain.Base.Int.{ℤ, pos, ltb_ℤ, leb_ℤ}
use grain.Base.Maybe.{maybe, ◌>>=◌}
use grain.ActorId.{ActorId, new_direct_actor_ref, validate_name, default_reply_kind}
use grain.Routes.{default_write_stream_kind}
use grain.SafeMap.{Items, items_get, items_set}

-- "local", "system", ":0"
abbrev pub default_local_kind : Bytes
default_local_kind = 108 ∷ 111 ∷ 99 ∷ 97 ∷ 108 ∷ []

abbrev pub default_system_kind : Bytes
default_system_kind = 115 ∷ 121 ∷ 115 ∷ 116 ∷ 101 ∷ 109 ∷ []

abbrev pub default_grpc_listen_addr : Bytes
default_grpc_listen_addr = 58 ∷ 48 ∷ []

-- in nanoseconds
abbrev pub default_ask_timeout : ℤ
default_ask_timeout = pos 3000000000

abbrev pub default_etcd_dial_timeout : ℤ
default_etcd_dial_timeout = pos 10000000000

abbrev pub default_stop_wait_time_second : ℤ
default_stop_wait_time_second = pos 10

abbrev pub default_etcd_lease_ttl_second : ℤ
default_etcd_lease_ttl_second = pos 10

abbrev pub default_mailbox_init_size : ℤ
default_mailbox_init_size = pos 8

abbrev pub default_mailbox_max_size : ℤ
default_mailbox_max_size = pos 4096

-- `tOpts`; no option changes the two registration functions.
pub record Opts : Type 0 where
  pub producer : ℕ
  pub mailbox_init_size : ℤ
  pub mailbox_max_size : ℤ
  pub kind : Bytes
  pub poison_first_on_quit : Bool
  pub self : Option ActorId

pub data KindOpt : Type 0 where
  with_opts_mailbox_size : ℤ → KindOpt
  with_opts_mailbox_max_size : ℤ → KindOpt
  with_opts_poison_first_on_quit : Bool → KindOpt
  with_opts_kind_name : Bytes → KindOpt
  with_opts_direct_self : (name address : Bytes) → KindOpt
  with_opts_cluster_self : ActorId → KindOpt

-- what the function of an option does
pub apply_kind_opt : Opts → KindOpt → Opts
apply_kind_opt opts (with_opts_mailbox_size size) = record opts { mailbox_init_size = size }
apply_kind_opt opts (with_opts_mailbox_max_size size) = record opts { mailbox_max_size = size }
apply_kind_opt opts (with_opts_poison_first_on_quit b) = record opts { poison_first_on_quit = b }
apply_kind_opt opts (with_opts_kind_name name) = record opts { kind = name }
apply_kind_opt opts (with_opts_direct_self name address) = record opts {
  self = some (new_direct_actor_ref opts.kind name address);
}
apply_kind_opt opts (with_opts_cluster_self ref) = record opts {
  self = some ref;
  kind = ref.cache_parse.kind;
}

unfoldable pub apply_kind_opts : Opts → List KindOpt → Opts
apply_kind_opts ret [] = ret
apply_kind_opts ret (opt ∷ opts) = apply_kind_opts (apply_kind_opt ret opt) opts

-- the clamps at the end of `newOpts`
abbrev pub clamp_init : Opts → Opts
clamp_init ret =
    if ltb_ℤ ret.mailbox_init_size (pos 1) then record ret { mailbox_init_size = pos 1 } else ret

abbrev pub clamp_max : Opts → Opts
clamp_max ret =
    if ltb_ℤ ret.mailbox_max_size ret.mailbox_init_size
    then record ret { mailbox_max_size = ret.mailbox_init_size }
    else ret

abbrev pub default_opts : ℕ → Opts
default_opts p = record {
  producer = p;
  mailbox_init_size = default_mailbox_init_size;
  mailbox_max_size = default_mailbox_max_size;
  kind = default_local_kind;
  poison_first_on_quit = true;
  self = none;
}

unfoldable pub new_opts : ℕ → List KindOpt → Opts
new_opts p opts = clamp_max (clamp_init (apply_kind_opts (default_opts p) opts))

-- `tKind`
pub record Kind : Type 0 where
  pub producer : ℕ
  pub opts : List KindOpt

pub record Config : Type 0 where
  pub running : ℕ
  pub cluster_name : Bytes
  pub version : Bytes
  pub cluster_urls : List Bytes
  pub ask_timeout : ℤ
  pub stop_wait_time_second : ℤ
  pub etcd_dial_timeout : ℤ
  pub etcd_lease_ttl_second : ℤ
  pub grpc_listen_addr : Bytes
  pub dial_options : List ℕ
  pub call_options : List ℕ
  pub kinds : Items Bytes Kind
  pub dead_letter_handler : Option ℕ
  pub logger : Option ℕ

-- the functions `WithConfig...`; `with_config_call_dial_options` is another name of the call options'
pub data ConfigOpt : Type 0 where
  with_config_ask_timeout : ℤ → ConfigOpt
  with_config_stop_wait_time_second : ℤ → ConfigOpt
  with_config_etcd_dial_timeout : ℤ → ConfigOpt
  with_config_etcd_lease_ttl_second : ℤ → ConfigOpt
  with_config_grpc_listen_addr : Bytes → ConfigOpt
  with_config_grpc_dial_options : List ℕ → ConfigOpt
  with_config_grpc_call_options : List ℕ → ConfigOpt
  with_config_kind : Bytes → ℕ → List KindOpt → ConfigOpt
  with_config_logger : Option ℕ → ConfigOpt
  with_config_dead_letter : Option ℕ → ConfigOpt

abbrev pub must_not_running : Config → Option Config
must_not_running config = if nat_eqb config.running 0 then some config else none

abbrev pub is_reserved : Bytes → Bool
is_reserved kind =
    kind == default_local_kind
    || (kind == default_system_kind
        || (kind == default_reply_kind || kind == default_write_stream_kind))

-- the function of `WithConfigKind`
pub add_kind : Config → Bytes → Kind → Option Config
add_kind config name kind = must_not_running config >>= (λ (c : Config).
    maybe
      (if is_reserved name
        then none
        else maybe (some (record c { kinds = items_set c.kinds name kind })) (λ _. none)
            (items_get c.kinds name))
      (λ _. none) (validate_name name))

pub apply_config_opt : Config → ConfigOpt → Option Config
apply_config_opt c (with_config_ask_timeout d) = some (record c { ask_timeout = d })
apply_config_opt c (with_config_stop_wait_time_second t) =
    some (record c { stop_wait_time_second = t })
apply_config_opt c (with_config_etcd_dial_timeout d) =
    if leb_ℤ d (pos 0) then none else some (record c { etcd_dial_timeout = d })
apply_config_opt c (with_config_etcd_lease_ttl_second seconds) =
    if leb_ℤ seconds (pos 0) then none else some (record c { etcd_lease_ttl_second = seconds })
apply_config_opt c (with_config_grpc_listen_addr addr) =
    if addr == [] then none else some (record c { grpc_listen_addr = addr })
apply_config_opt c (with_config_grpc_dial_options os) =
    some (record c { dial_options = c.dial_options ++ os })
apply_config_opt c (with_config_grpc_call_options os) =
    some (record c { call_options = c.call_options ++ os })
apply_config_opt c (with_config_kind name p os) =
    add_kind c name (record { producer = p; opts = os })
apply_config_opt c (with_config_logger l) = some (record c { logger = l })
apply_config_opt c (with_config_dead_letter h) = some (record c { dead_letter_handler = h })

pub apply_config_opts : Config → List ConfigOpt → Option Config
apply_config_opts c [] = some c
apply_config_opts c (f ∷ opts) = apply_config_opt c f >>= (λ c'. apply_config_opts c' opts)

-- the dial option with insecure credentials
abbrev insecure_credentials : ℕ
insecure_credentials = 0

abbrev pub default_config : Bytes → Bytes → List Bytes → Config
default_config cluster_name version cluster_urls = record {
  running = 0;
  cluster_name = cluster_name;
  version = version;
  cluster_urls = cluster_urls;
  ask_timeout = default_ask_timeout;
  stop_wait_time_second = default_stop_wait_time_second;
  etcd_dial_timeout = default_etcd_dial_timeout;
  etcd_lease_ttl_second = default_etcd_lease_ttl_second;
  grpc_listen_addr = default_grpc_listen_addr;
  dial_options = insecure_credentials ∷ [];
  call_options = [];
  kinds = [];
  dead_letter_handler = none;
  logger = none;
}

pub new_config : Bytes → Bytes → List Bytes → List ConfigOpt → Option Config
new_config cluster_name version cluster_urls opts =
    apply_config_opts (default_config cluster_name version cluster_urls) opts

-- `markRunning`; the compare-and-swap fails on a system that runs.
pub mark_running : Config → Option Config
mark_running c = if nat_eqb c.running 0 then some (record c { running = 1 }) else none

pub get_kinds : Config → List Bytes
get_kinds c = map (λ (kv : Bytes × Kind). kv.0) c.kinds
