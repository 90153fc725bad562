-- ===== src/Config/Tests.antt =====
-- A configuration with one kind, options with sizes out of range, and the theorems there.
use grain.Base.{ℕ, ◌≡◌, refl, some, List, [], ◌∷◌}
use grain.Base.Int.{pos, negsuc, pos_part}
use grain.ActorId.{validate_name}
use grain.Ring
use grain.Config.{
  Config, ConfigOpt, with_config_kind, with_config_ask_timeout, KindOpt, with_opts_mailbox_size,
  with_opts_mailbox_max_size, new_opts, new_config, apply_config_opts, apply_config_opt, add_kind,
  default_config,
}
use grain.Config.Sizes.{Fits, new_opts-sizes}

abbrev sizes : List KindOpt
sizes = with_opts_mailbox_size (negsuc 3) ∷ with_opts_mailbox_max_size (pos 0) ∷ []

new_opts-sizes_example :
    (let o = new_opts 0 sizes in
      Fits o.mailbox_init_size o.mailbox_max_size
      × ((Ring.new {A = ℕ} 0 o.mailbox_init_size o.mailbox_max_size).cap
          ≡ pos_part o.mailbox_init_size)
      × ((Ring.new {A = ℕ} 0 o.mailbox_init_size o.mailbox_max_size).max_cap
          ≡ pos_part o.mailbox_max_size))
new_opts-sizes_example = new_opts-sizes {A = ℕ} 0 0 sizes

abbrev options : List ConfigOpt
options = with_config_ask_timeout (pos 5) ∷ with_config_kind (103 ∷ []) 1 sizes ∷ []

abbrev configured : Config
configured = record (default_config (99 ∷ []) (49 ∷ []) []) {
  ask_timeout = pos 5;
  kinds = (103 ∷ [], record { producer = 1; opts = sizes }) ∷ [];
}

builds : new_config (99 ∷ []) (49 ∷ []) [] options ≡ some configured
unfolding new_config apply_config_opts apply_config_opt add_kind validate_name
builds = refl
