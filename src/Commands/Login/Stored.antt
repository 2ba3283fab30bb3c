-- ===== src/Commands/Login/Stored.antt =====
-- What `scuffinger github auth` leaves in the vault (cmd/github_auth.go).
use scuffinger.Prelude.{
  ◌≡◌, refl, sym, ◌∙◌, ◌⊎◌, inl, inr, Bool-cases, String, string_eq, ◌==◌, true, Option, none, some,
  ap,
}
use scuffinger.Prelude.Result.{Result, ok, err, is_ok}
use scuffinger.I18n.{Error, Messages}
use scuffinger.Vault.{VaultError, Store, StoreLaws}
use scuffinger.Config.{GithubConfig, first_client_id}
use scuffinger.Auth.Credentials.{
  IsCredential, vault_key_token, vault_key_user, keys_differ, save_token, save_user, load_token,
  has_credentials,
}
use scuffinger.Auth.Flow.{
  Web, DeviceCodeResponse, AccessTokenResponse, request_device_code, poll_for_token,
}
use scuffinger.Auth.Polling.{ClockLaws, Ends, poll_for_token-Ends}
use scuffinger.Server.Auth.{scopes}
use scuffinger.Commands.Login.{user_kept, token_saved, verified, polled, code_received, github_auth}

module _ {S W : Type 0} (active : Messages) (web : Web W) (store : Store S)
    (verify : String → W → Result Error (Option String) × W) (vault_text : VaultError → Error)
    (clock : ClockLaws web) (laws : StoreLaws IsCredential store) where
  -- The command has ended: without an error the vault holds a token whose user GitHub has told, and
  -- with one the vault is as it was, but for the attempt to save a token.
  abbrev pub Stored : S → Option (Option Error × S × W) → Type 0
  Stored s none = ⊥
  Stored s (some (none, s', w')) =
      (tok : String) × (w : W) × (is_ok (verify tok w).0 ≡ true)
      × (load_token store s' ≡ ok tok)
      × (has_credentials store s' ≡ true)
  Stored s (some (some e, s', w')) = (s' ≡ s) ⊎ ((tok : String) × (s' ≡ (save_token store tok s).1))

  user_kept-token :
      (login : Option String) (tok : String) (s : S)
      → load_token store s ≡ ok tok
      → load_token store (user_kept active web store verify vault_text login s) ≡ ok tok
  unfolding user_kept load_token save_user
  user_kept-token none tok s h = h
  user_kept-token (some login) tok s h =
      laws.get-set_other vault_key_user vault_key_token login s (inr refl) (inl refl)
        (λ e. keys_differ (sym e))
      ∙ h

  token_saved-Stored :
      (login : Option String) (tok : String) (s : S) (w w' : W)
      → is_ok (verify tok w).0 ≡ true
      → (r : Option VaultError × S) → save_token store tok s ≡ r
      → Stored s (some (token_saved active web store verify vault_text login r w'))
  unfolding token_saved save_token has_credentials load_token
  token_saved-Stored login tok s w w' v (some e, s') p = inr (tok, sym (ap (λ r. r.1) p))
  token_saved-Stored login tok s w w' v (none, s') p =
      let here : load_token store s' ≡ ok tok =
        ap (load_token store) (sym (ap (λ r. r.1) p))
        ∙ laws.get-set_same vault_key_token tok s (ap (λ r. r.0) p) in
      let kept = user_kept-token login tok s' here in (tok, w, v, kept, ap is_ok kept)

  verified-Stored :
      (tok : String) (s : S) (w : W) (r : Result Error (Option String) × W)
      → verify tok w ≡ r
      → Stored s (some (verified active web store verify vault_text tok s r))
  unfolding verified
  verified-Stored tok s w (err e, w') p = inl refl
  verified-Stored tok s w (ok login, w') p =
      token_saved-Stored login tok s w w' (ap (λ r. is_ok r.0) p) (save_token store tok s) refl

  polled-Stored :
      (s : S) (r : Option (Result Error AccessTokenResponse × W))
      → Ends r
      → Stored s (polled active web store verify vault_text s r)
  unfolding polled
  polled-Stored s none h = absurd h
  polled-Stored s (some (err e, w)) h = inl refl
  polled-Stored s (some (ok atr, w)) h =
      verified-Stored atr.access_token s w (verify atr.access_token w) refl

  code_received-Stored :
      (client_id : String) (s : S) (r : Result Error DeviceCodeResponse × W)
      → Stored s (code_received active web store verify vault_text client_id s r)
  unfolding code_received
  code_received-Stored client_id s (err e, w) = inl refl
  code_received-Stored client_id s (ok dcr, w) =
      polled-Stored s (poll_for_token web client_id dcr.device_code dcr.interval dcr.expires_in w)
        (poll_for_token-Ends web clock client_id dcr.device_code dcr.interval dcr.expires_in w)

  -- `scuffinger github auth` returns, over a clock that keeps its laws and any store that keeps
  -- the contract of the vault: without an error the vault holds a token whose user GitHub has
  -- told, and `HasCredentials` answers true; with one the vault is as it was, but for an attempt
  -- to save a token.
  pub github_auth-Stored :
      (cfg : GithubConfig) (s : S) (w : W)
      → Stored s (github_auth active web store verify vault_text cfg s w)
  unfolding github_auth
  github_auth-Stored cfg s w = elim (Bool-cases (first_client_id cfg.applications == "")) [
    | inl q ↦ rw q (inl refl)
    | inr q ↦ rw q (
        code_received-Stored (first_client_id cfg.applications) s
          (request_device_code web (first_client_id cfg.applications) scopes w))
  ]
