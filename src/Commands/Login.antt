-- ===== src/Commands/Login.antt =====
-- cmd/github_auth.go, github_status.go and github_logout.go. `verify` asks GitHub for the user of a
-- token, whose login may be missing; `vault_text` is the text of an error of the vault. What the
-- first command prints is not modelled.
pub mod Stored
use scuffinger.Prelude.{
  ℕ, zero, suc, ◌+◌, String, string_eq, Bool, Option, none, some, List, [], ◌∷◌, ◌==◌, length,
  if◌then◌else◌, ◌+++◌, decimal,
}
use scuffinger.Prelude.Int.{ℤ}
use scuffinger.Prelude.Result.{Result, ok, err}
use scuffinger.I18n
use scuffinger.I18n.{Key, Error, Messages}
use scuffinger.I18n.Keys
use scuffinger.Vault.{VaultError, Store}
use scuffinger.Config.{GithubAppConfig, GithubConfig, first_client_id}
use scuffinger.Auth.Credentials.{
  save_token, save_user, load_user, clear_credentials, has_credentials,
}
use scuffinger.Auth.Flow.{
  Web, DeviceCodeResponse, AccessTokenResponse, request_device_code, poll_for_token,
}
use scuffinger.Server.Auth.{scopes}

module _ {S W : Type 0} (active : Messages) (web : Web W) (store : Store S)
    (verify : String → W → Result Error (Option String) × W) (vault_text : VaultError → Error) where
  -- the user is kept if GitHub names one, and an error of that is dropped
  unfoldable pub user_kept : Option String → S → S
  user_kept none s = s
  user_kept (some login) s = (save_user store login s).1

  unfoldable pub token_saved : Option String → Option VaultError × S → W → Option Error × S × W
  unfolding user_kept
  token_saved login (some e, s) w =
      (some (I18n.err_with active Keys.err_auth_save_token (vault_text e)), s, w)
  token_saved login (none, s) w = (none, user_kept login s, w)

  unfoldable pub verified : String → S → Result Error (Option String) × W → Option Error × S × W
  unfolding token_saved
  verified tok s (err e, w) = (some (I18n.err_with active Keys.err_auth_verify_token e), s, w)
  verified tok s (ok login, w) = token_saved login (save_token store tok s) w

  -- `none` is a poll that does not end
  unfoldable pub polled :
      S → Option (Result Error AccessTokenResponse × W) → Option (Option Error × S × W)
  unfolding verified
  polled s none = none
  polled s (some (err e, w)) = some (some (I18n.err_with active Keys.err_auth_poll e), s, w)
  polled s (some (ok atr, w)) = some (verified atr.access_token s (verify atr.access_token w))

  unfoldable pub code_received :
      String → S → Result Error DeviceCodeResponse × W → Option (Option Error × S × W)
  unfolding polled
  code_received client_id s (err e, w) =
      some (some (I18n.err_with active Keys.err_auth_device_code e), s, w)
  code_received client_id s (ok dcr, w) =
      polled s (poll_for_token web client_id dcr.device_code dcr.interval dcr.expires_in w)

  -- `scuffinger github auth`
  unfoldable pub github_auth : GithubConfig → S → W → Option (Option Error × S × W)
  unfolding code_received
  github_auth cfg s w =
      let client_id = first_client_id cfg.applications in
      if client_id == ""
      then some (some (I18n.get active Keys.err_auth_no_client_id), s, w)
      else code_received client_id s (request_device_code web client_id scopes w)

  unfoldable pub interactive_verified :
      String → S → Result Error (Option String) × W → Result Error String × S × W
  unfolding user_kept
  interactive_verified tok s (err e, w) = (err e, s, w)
  interactive_verified tok s (ok login, w) = (ok tok, user_kept login (save_token store tok s).1, w)

  interactive_polled :
      S → Option (Result Error AccessTokenResponse × W) → Option (Result Error String × S × W)
  unfolding interactive_verified
  interactive_polled s none = none
  interactive_polled s (some (err e, w)) = some (err e, s, w)
  interactive_polled s (some (ok atr, w)) =
      some (interactive_verified atr.access_token s (verify atr.access_token w))

  interactive_code :
      String → S → Result Error DeviceCodeResponse × W → Option (Result Error String × S × W)
  unfolding interactive_polled
  interactive_code client_id s (err e, w) = some (err e, s, w)
  interactive_code client_id s (ok dcr, w) =
      interactive_polled s
        (poll_for_token web client_id dcr.device_code dcr.interval dcr.expires_in w)

  -- `RunInteractiveAuth`, which also drops an error of saving the token
  unfoldable pub run_interactive_auth : String → S → W → Option (Result Error String × S × W)
  unfolding interactive_code
  run_interactive_auth client_id s w =
      interactive_code client_id s (request_device_code web client_id scopes w)

module _ {S : Type 0} (active : Messages) (store : Store S) (number : ℤ → String) where
  -- `scuffinger github logout`, with the line that it prints
  unfoldable pub github_logout : S → List String × S
  github_logout s =
      (("  ✓ " +++ I18n.get active Keys.msg_auth_logged_out) ∷ [], clear_credentials store s)

  app_lines : ℕ → List GithubAppConfig → List String
  app_lines i [] = []
  app_lines i (app ∷ apps) =
      ("  ✓ GitHub App "
        +++ (decimal i +++ (" configured (app_id: " +++ (number app.app_id +++ ")"))))
      ∷ app_lines (i + 1) apps

  user_name : Result VaultError String → String
  user_name (ok name) = name
  user_name (err e) = ""

  user_line : String → String
  user_line name =
      let logged_in = "  ✓ " +++ I18n.get active Keys.msg_auth_status_logged_in in
      if name == ""
      then logged_in +++ " (token in system vault)"
      else logged_in +++ (" as " +++ (name +++ " (token in system vault)"))

  vault_lines : S → List String
  unfolding user_name user_line
  vault_lines s =
      if has_credentials store s
      then user_line (user_name (load_user store s)) ∷ []
      else ("  ✗ " +++ I18n.get active Keys.msg_auth_status_no_token) ∷ []

  configured_apps : S → List GithubAppConfig → List String
  unfolding app_lines vault_lines
  configured_apps s [] = vault_lines s
  configured_apps s (app ∷ apps) = app_lines 0 (app ∷ apps)

  configured_tokens : S → GithubConfig → List String → List String
  unfolding configured_apps
  configured_tokens s cfg [] = configured_apps s cfg.applications
  configured_tokens s cfg (t ∷ ts) =
      ("  ✓ " +++ (decimal (length (t ∷ ts)) +++ " token(s) configured in config file / env")) ∷ []

  -- `scuffinger github status`: the lines that it prints
  unfoldable pub github_status : GithubConfig → S → List String
  unfolding configured_tokens
  github_status cfg s = configured_tokens s cfg cfg.tokens
