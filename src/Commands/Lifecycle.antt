-- ===== src/Commands/Lifecycle.antt =====
-- What a command of cmd/root.go finds when it runs, and what is closed behind it.
use scuffinger.Prelude.{
  ℕ, String, ◌≡◌, ◌↔◌, ◌≢◌, ◌⊎◌, string_eq, true, false, none, some, List, All,
}
use scuffinger.Prelude.Int.{pos}
use scuffinger.Prelude.Map.{lookup}
use scuffinger.Prelude.Result.{Result, ok}
use scuffinger.I18n.{Messages}
use scuffinger.Config.Load.{Config, CacheConfig, DatabaseConfig, Viper, load}
use scuffinger.Vault.{Store}
use scuffinger.Manager.{Service, Manager, is_healthy}
use scuffinger.Manager.Shutdown.{closed_world, close_results, Succeeds}
use scuffinger.Bootstrap.{BootstrapOpts, Parts, with_vault_token}
use scuffinger.Bootstrap.Outcome.{Outcome, registered}
use scuffinger.Commands.Root.{Command, Session, post_run}

-- the command asks for no services, or is the root
abbrev pub Skips : Command → Type 0
Skips c = (lookup "skipBootstrap" c.annotations ≡ some "true") ⊎ (c.has_parent ≡ false)

abbrev pub Needs : Command → Type 0
Needs c = (lookup "skipBootstrap" c.annotations ≢ some "true") × (c.has_parent ≡ true)

-- checks every ten seconds, and no collector exactly if the command asks for none
abbrev pub Asks : Command → BootstrapOpts → Type 0
Asks c o =
    (o.health_check_interval ≡ pos 10_000_000_000)
    × ((o.skip_collector ≡ true) ↔ (lookup "skipCollector" c.annotations ≡ some "true"))

module _ {S V W : Type 0} (active : Messages) (clock : W → ℕ) (viper : Viper V W)
    (parts : CacheConfig → DatabaseConfig → Parts W) (store : Store S) (s : S) (c : Command) where
  -- the services that a configuration and options ask for
  abbrev pub services_of : Config → BootstrapOpts → List (Service W)
  services_of cfg o = registered active clock (parts cfg.cache cfg.database) o cfg.github

  -- every wanted service, healthy, and behind the command each is closed once, in order
  abbrev pub Managed : Session W → W → Type 0
  Managed sess w2 =
      (o : BootstrapOpts) × (m : Manager W) × (Asks c o)
      × (sess.manager ≡ some m)
      × (m.services ≡ services_of sess.config o)
      × (is_healthy m.statuses ≡ true)
      × ((post_run active sess w2).1 ≡ closed_world (services_of sess.config o) w2)
      × (((post_run active sess w2).0 ≡ none)
          ↔ All Succeeds (close_results (services_of sess.config o) w2))

  -- The configuration is the loaded one, for a command with services with the token of the vault.
  abbrev pub Lives : String → W → Session W → W → W → Type 0
  Lives cfg_file w sess w1 w2 =
      (cfg : Config) × (load viper cfg_file w ≡ ok cfg)
      × ((Skips c × (sess.config ≡ cfg) × (w1 ≡ w) × (post_run active sess w2 ≡ (none, w2)))
          ⊎ (Needs c
              × (sess.config ≡ record cfg { github = with_vault_token store s cfg.github })
              × Managed sess w2))
