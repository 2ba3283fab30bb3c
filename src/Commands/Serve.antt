-- ===== src/Commands/Serve.antt =====
-- cmd/serve.go: the route groups that the server registers, and the end of the command.
pub mod Distinct
use scuffinger.Prelude.{
  String, string_eq, Bool, not, ◌&&◌, Option, none, some, List, [], ◌∷◌, ◌++◌, ◌==◌, if◌then◌else◌,
}
use scuffinger.I18n
use scuffinger.I18n.{Error, Messages}
use scuffinger.I18n.Keys
use scuffinger.Config.{enabled, first_client_id}
use scuffinger.Config.Load.{Config}
use scuffinger.Server.Routes.{Registrar, github_handler, auth_handler, debug_handler}

-- which of the manager's services of these names are of the expected type
pub record Wired : Type 0 where
  pub github : Bool
  pub database : Bool
  pub cache : Bool

abbrev pub one_if {ℓ} : {A : Type ℓ} → Bool → A → List A
one_if b a = if b then a ∷ [] else []

unfoldable pub registrars : Config → Wired → List Registrar
registrars cfg wired =
    one_if (enabled cfg.github && wired.github) github_handler
    ++ (one_if (not (first_client_id cfg.github.applications == "")) auth_handler
        ++ one_if (wired.database && wired.cache) debug_handler)

-- behind the signal: what the command returns for the outcome of Shutdown
unfoldable pub served : Messages → Option Error → Option Error
served active none = none
served active (some e) = some (I18n.err_with active Keys.err_server_shutdown e)
