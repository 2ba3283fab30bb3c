-- ===== src/Bootstrap.antt =====
-- internal/services/bootstrap.go: registration, connection, self-tests and the background work.
pub mod Outcome
pub mod Kept
use scuffinger.Prelude.{
  ℕ, String, string_eq, Bool, true, false, not, ◌&&◌, Option, none, some, List, [], ◌∷◌, ◌++◌, ◌==◌,
  if◌then◌else◌,
}
use scuffinger.Prelude.Int.{ℤ, pos, ltb_ℤ}
use scuffinger.Prelude.Map.{Map}
use scuffinger.Prelude.Result.{Result, ok, err}
use scuffinger.I18n
use scuffinger.I18n.{Error, Messages}
use scuffinger.Config.{GithubConfig, enabled}
use scuffinger.Vault.{VaultError, Store}
use scuffinger.Auth.Credentials.{load_token}
use scuffinger.Manager.{
  Call, Service, ServiceStatus, Manager, new_manager, add_service, connect_all, run_self_tests,
  start_health_checks, close_all,
}

pub record BootstrapOpts : Type 0 where
  pub health_check_interval : ℤ
  pub skip_collector : Bool

-- The constructors of the services, which the configuration of GitHub reaches, the statement that
-- creates the tables of the GitHub cache, and the start of the collector.
pub record Parts (W : Type 0) : Type 0 where
  pub cache : Service W
  pub database : Service W
  pub github : GithubConfig → Service W
  pub collector : GithubConfig → Service W
  pub create_tables : Call W
  pub start_collector : W → W

token_found : GithubConfig → Result VaultError String → GithubConfig
token_found cfg (err e) = cfg
token_found cfg (ok tok) =
    if tok == "" then cfg else record cfg { tokens = cfg.tokens ++ (tok ∷ []) }

-- the token of the vault, when the configuration has none
unfoldable pub with_vault_token : {S : Type 0} → Store S → S → GithubConfig → GithubConfig
unfolding token_found
with_vault_token store s cfg = elim cfg.tokens [
  | [] ↦ token_found cfg (load_token store s)
  | t ∷ ts ↦ cfg
]

abbrev pub non_empty {ℓ} : {A : Type ℓ} → List A → Bool
non_empty [] = false
non_empty (x ∷ xs) = true

module _ {W : Type 0} (parts : Parts W) where
  unfoldable pub base_services : GithubConfig → List (Service W)
  base_services cfg =
      parts.cache ∷ (parts.database ∷ (if enabled cfg then parts.github cfg ∷ [] else []))

  abbrev pub wants_collector : BootstrapOpts → GithubConfig → Bool
  wants_collector opts cfg = not opts.skip_collector && enabled cfg && non_empty cfg.repositories

module _ {W : Type 0} (active : Messages) (clock : W → ℕ) (parts : Parts W) (opts : BootstrapOpts)
    (cfg : GithubConfig) where
  -- after the self-tests that pass
  unfoldable pub running : Manager W → W → Result Error (Manager W) × W
  running m w = (
    ok (if ltb_ℤ (pos 0) opts.health_check_interval then start_health_checks m else m),
    if wants_collector parts opts cfg then parts.start_collector w else w,
  )

  unfoldable pub self_tested :
      Manager W → Option Error × Map String ServiceStatus × W → Result Error (Manager W) × W
  self_tested m (none, statuses, w) = running (record m { statuses = statuses }) w
  self_tested m (some e, statuses, w) = (
    err (I18n.err_with active I18n.err_bootstrap_self_tests e),
    (close_all active (record m { statuses = statuses }) w).2,
  )

  unfoldable pub test_all : Manager W → W → Result Error (Manager W) × W
  test_all m w = self_tested m (run_self_tests active clock m.services m.statuses w)

  unfoldable pub collector_connected : Manager W → Option Error × W → Result Error (Manager W) × W
  collector_connected m (some e, w) = (err (I18n.err_with active I18n.err_bootstrap_connect e), w)
  collector_connected m (none, w) = test_all m w

  -- the error of the statement that creates the tables is only logged
  unfoldable pub services_connected : Manager W → Option Error × W → Result Error (Manager W) × W
  services_connected m (some e, w) = (err (I18n.err_with active I18n.err_bootstrap_connect e), w)
  services_connected m (none, w) =
      let w' = (parts.create_tables w).1 in
      if wants_collector parts opts cfg
      then collector_connected (add_service m (parts.collector cfg))
          ((parts.collector cfg).connect w')
      else test_all m w'

  -- `Bootstrap` from the configuration that `with_vault_token` answers
  unfoldable pub bootstrap_with : W → Result Error (Manager W) × W
  bootstrap_with w =
      let m = new_manager (base_services parts cfg) in
      services_connected m (connect_all active m.services w)

unfoldable pub bootstrap :
    {S W : Type 0}
    → Messages
    → (W → ℕ)
    → Parts W
    → Store S
    → S
    → BootstrapOpts
    → GithubConfig
    → W
    → Result Error (Manager W) × W
bootstrap active clock parts store s opts cfg w =
    bootstrap_with active clock parts opts (with_vault_token store s cfg) w
