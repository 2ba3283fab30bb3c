-- ===== src/Commands/Root.antt =====
-- cmd/root.go: what runs before and behind each command. The configuration, the bootstrap and the
-- manager are those of the other modules; the constructors of the cache and the database take their
-- sections. `Bootstrap` appends the token of the vault to the configuration that the hook keeps.
use scuffinger.Prelude.{
  String, string_eq, Bool, true, false, not, Option, none, some, ◌==◌, if◌then◌else◌, ℕ,
}
use scuffinger.Prelude.Int.{pos}
use scuffinger.Prelude.Map.{Map, lookup}
use scuffinger.Prelude.Result.{Result, ok, err}
use scuffinger.I18n
use scuffinger.I18n.{Error, Messages}
use scuffinger.I18n.Keys
use scuffinger.Config.Load.{Config, CacheConfig, DatabaseConfig, Viper, load}
use scuffinger.Vault.{Store}
use scuffinger.Manager.{Manager, close_all}
use scuffinger.Bootstrap.{BootstrapOpts, Parts, bootstrap, with_vault_token}

-- what the two hooks read of a command
pub record Command : Type 0 where
  pub annotations : Map String String
  pub has_parent : Bool

-- the configuration and the manager that the hook in front keeps for the command
pub record Session (W : Type 0) : Type 0 where
  pub config : Config
  pub manager : Option (Manager W)

unfoldable pub is_true : Option String → Bool
is_true none = false
is_true (some v) = v == "true"

-- cmd.Annotations[name] == "true"
unfoldable pub annotated : String → Command → Bool
unfolding is_true
annotated name c = is_true (lookup name c.annotations)

unfoldable pub needs_bootstrap : Command → Bool
needs_bootstrap c = if annotated "skipBootstrap" c then false else c.has_parent

-- DefaultBootstrapOpts: ten seconds
abbrev pub default_bootstrap_opts : BootstrapOpts
default_bootstrap_opts = record {
  health_check_interval = pos 10_000_000_000;
  skip_collector = false;
}

unfoldable pub opts_of : Command → BootstrapOpts
opts_of c =
    if annotated "skipCollector" c
    then record default_bootstrap_opts { skip_collector = true }
    else default_bootstrap_opts

module _ {S V W : Type 0} (active : Messages) (clock : W → ℕ) (viper : Viper V W)
    (parts : CacheConfig → DatabaseConfig → Parts W) (store : Store S) (s : S) where
  -- the configuration as `Bootstrap` leaves it
  unfoldable pub vaulted : Config → Config
  vaulted cfg = record cfg { github = with_vault_token store s cfg.github }

  unfoldable pub bootstrapped : Config → Result Error (Manager W) × W → Result Error (Session W) × W
  bootstrapped cfg (err e, w) = (err e, w)
  bootstrapped cfg (ok m, w) = (ok (record { config = cfg; manager = some m }), w)

  unfoldable pub loaded : Command → W → Result Error Config → Result Error (Session W) × W
  unfolding bootstrapped vaulted
  loaded c w (err e) = (err (I18n.err_with active Keys.err_config_load e), w)
  loaded c w (ok cfg) =
      if not (needs_bootstrap c)
      then (ok (record { config = cfg; manager = none }), w)
      else bootstrapped (vaulted cfg)
          (bootstrap active clock (parts cfg.cache cfg.database) store s (opts_of c) cfg.github w)

  -- PersistentPreRunE
  unfoldable pub pre_run : Command → String → W → Result Error (Session W) × W
  unfolding loaded
  pre_run c cfg_file w = loaded c w (load viper cfg_file w)

module _ {W : Type 0} (active : Messages) where
  manager_closed : Option (Manager W) → W → Option Error × W
  manager_closed none w = (none, w)
  manager_closed (some m) w = let r = close_all active m w in (r.0, r.2)

  -- PersistentPostRunE
  unfoldable pub post_run : Session W → W → Option Error × W
  unfolding manager_closed
  post_run sess w = manager_closed sess.manager w
