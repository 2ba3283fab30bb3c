-- ===== src/Pool/Connect.antt =====
-- `NewGitHubService` and `Connect` of internal/services/github.go. go-github's constructors, the
-- file system and the parsers of keys are parameters; `D`, `B` and `K` are the types of a file's
-- bytes, a PEM block and an RSA key. The text of an error with a label keeps the label.
use scuffinger.Prelude.{
  zero, ℕ, suc, String, Option, none, some, List, [], ◌∷◌, ◌++◌, ◌==◌, string_eq, length,
  if◌then◌else◌, ◌+++◌, decimal,
}
use scuffinger.Prelude.Int.{ℤ, pos, negsuc, int_eq}
use scuffinger.Prelude.Result.{Result, ok, err}
use scuffinger.I18n
use scuffinger.I18n.{Error, Messages}
use scuffinger.Config.{GithubConfig, GithubAppConfig, enabled}
use scuffinger.Metrics.Github.{ApiMetrics}
use scuffinger.Pool.{ClientEntry, GithubService}

-- what `Connect` calls; `pkcs8` answers `none` for a key that is not an RSA key
pub record Keys (C D B K : Type 0) : Type 0 where
  pub token_client : String → C
  pub app_client : ℤ → ℤ → K → C
  pub read_file : String → Result Error D
  pub pem_decode : D → Option B
  pub pkcs1 : B → Result Error K
  pub pkcs8 : B → Result Error (Option K)

abbrev pub pat_label : ℕ → String
pat_label i = "pat-" +++ decimal i

abbrev pub app_label : ℕ → String
app_label i = "app-" +++ decimal i

module _ {C : Type 0} where
  -- a credential whose limit is not known yet; the zero `time.Time` is 0
  abbrev pub new_entry : C → String → ClientEntry C
  new_entry c l = record { client = c; label = l; remaining = negsuc 0; reset_at = 0 }

module _ {C D B K : Type 0} (keys : Keys C D B K) where
  -- the loop over the tokens, from the index `i`
  unfoldable pub pat_entries : ℕ → List String → List (ClientEntry C)
  pat_entries i [] = []
  pat_entries i (t ∷ ts) =
      let rest = pat_entries (suc i) ts in
      if t == "" then rest else new_entry (keys.token_client t) (pat_label i) ∷ rest

module _ {C D B K : Type 0} (active : Messages) (keys : Keys C D B K) where
  labelled : String → String → Error
  labelled what label =
      I18n.get active I18n.err_gh_parse_key +++ (what +++ (" (" +++ (label +++ ")")))

  pkcs8_key : Error → String → Result Error (Option K) → Result Error K
  unfolding labelled
  pkcs8_key e label (err e2) = err (I18n.err_with active I18n.err_gh_parse_key e)
  pkcs8_key e label (ok none) = err (labelled ": not an RSA key" label)
  pkcs8_key e label (ok (some k)) = ok k

  pkcs1_key : B → String → Result Error K → Result Error K
  unfolding pkcs8_key
  pkcs1_key b label (ok k) = ok k
  pkcs1_key b label (err e) = pkcs8_key e label (keys.pkcs8 b)

  block_key : String → Option B → Result Error K
  unfolding pkcs1_key
  block_key label none = err (labelled ": PEM block not found" label)
  block_key label (some b) = pkcs1_key b label (keys.pkcs1 b)

  file_key : String → Result Error D → Result Error K
  unfolding block_key
  file_key label (err e) = err (I18n.err_with active I18n.err_gh_read_key e)
  file_key label (ok d) = block_key label (keys.pem_decode d)

  -- the key of an application, or the error that ends `Connect`
  unfoldable pub app_key : GithubAppConfig → String → Result Error K
  unfolding file_key
  app_key app label = file_key label (keys.read_file app.private_key_path)

  unfoldable pub app_added :
      GithubAppConfig
      → ℕ
      → Result Error K
      → Option Error × List (ClientEntry C)
      → Option Error × List (ClientEntry C)
  app_added app i (err e) rest = (some e, [])
  app_added app i (ok k) (r, es) =
      (r, new_entry (keys.app_client app.app_id app.installation_id k) (app_label i) ∷ es)

  -- The loop over the applications, from the index `i`, with the entries that it appends: after an
  -- error they stay appended.
  unfoldable pub app_entries : ℕ → List GithubAppConfig → Option Error × List (ClientEntry C)
  unfolding app_added
  app_entries i [] = (none, [])
  app_entries i (app ∷ apps) =
      let rest = app_entries (suc i) apps in
      if app.app_id == pos 0 then rest else app_added app i (app_key app (app_label i)) rest

  unfoldable pub counted : ℕ → Option Error → Option Error
  counted n (some e) = some e
  counted zero none = some (I18n.get active I18n.err_gh_not_configured)
  counted (suc n) none = none

  unfoldable pub connect :
      {W : Type 0} → GithubConfig → GithubService C W → Option Error × GithubService C W
  unfolding counted
  connect g s =
      let apps = app_entries 0 g.applications in
      let es = s.entries ++ (pat_entries keys 0 g.tokens ++ apps.1) in
      if enabled g
      then (counted (length es) apps.0, record s { entries = es })
      else (some (I18n.get active I18n.err_gh_not_configured), s)

-- `NewGitHubService`, with the process's gauges and world
unfoldable pub new_github_service :
    {C W : Type 0} → GithubConfig → ApiMetrics → W → GithubService C W
new_github_service g m w = record {
  threshold = g.rate_limit_threshold;
  entries = [];
  active = 0;
  metrics = m;
  world = w;
}
