-- ===== src/Pool/Opened.antt =====
-- What `Connect` of internal/services/github.go leaves when it succeeds.
use scuffinger.Prelude.{
  ℕ, zero, suc, ◌+◌, ◌<◌, ◌≡◌, refl, String, Bool, not, Option, none, some, List, [], ◌∷◌, ◌++◌,
  ◌==◌, string_eq, length, if◌then◌else◌, arith, length-append,
}
use scuffinger.Prelude.Int.{pos, int_eq}
use scuffinger.Prelude.Result.{Result, ok, err}
use scuffinger.I18n.{Error, Messages}
use scuffinger.Config.{GithubConfig, GithubAppConfig}
use scuffinger.Metrics.Github.{ApiMetrics}
use scuffinger.Pool.{ClientEntry, GithubService}
use scuffinger.Pool.Connect.{
  Keys, pat_entries, app_entries, app_added, app_key, app_label, counted, connect,
  new_github_service,
}

unfoldable pub count {ℓ} : {A : Type ℓ} → (A → Bool) → List A → ℕ
count p [] = 0
count p (x ∷ xs) = let rest = count p xs in if p x then suc rest else rest

-- the credentials of a configuration: non-empty tokens and applications with an id
unfoldable pub credentials : GithubConfig → ℕ
unfolding count
credentials g =
    count (λ t. not (t == "")) g.tokens
    + count (λ (a : GithubAppConfig). not (a.app_id == pos 0)) g.applications

module _ {C D B K : Type 0} (active : Messages) (keys : Keys C D B K) where
  length-pat_entries :
      (i : ℕ) (ts : List String) → length (pat_entries keys i ts) ≡ count (λ t. not (t == "")) ts
  unfolding pat_entries count
  length-pat_entries i [] = refl
  length-pat_entries i (t ∷ ts) = ground (arith, length-pat_entries (suc i) ts)

  length-app_added :
      (app : GithubAppConfig) (i n : ℕ) (k : Result Error K)
      (rest : Option Error × List (ClientEntry C))
      → (rest.0 ≡ none → length rest.1 ≡ n)
      → (app_added active keys app i k rest).0 ≡ none
      → length (app_added active keys app i k rest).1 ≡ suc n
  unfolding app_added
  length-app_added app i n (err e) rest ih h = ground arith
  length-app_added app i n (ok k) rest ih h = omega (arith, ih h)

  length-app_entries :
      (i : ℕ) (apps : List GithubAppConfig)
      → (app_entries active keys i apps).0 ≡ none
      → length (app_entries active keys i apps).1
        ≡ count (λ (a : GithubAppConfig). not (a.app_id == pos 0)) apps
  unfolding app_entries count
  length-app_entries i [] h = refl
  length-app_entries i (app ∷ apps) h = ground (
    arith,
    length-app_entries (suc i) apps,
    length-app_added app i _ (app_key active keys app (app_label i))
        (app_entries active keys (suc i) apps) (length-app_entries (suc i) apps),
  )

  module _ {W : Type 0} (g : GithubConfig) (m : ApiMetrics) (w : W) where
    -- A fresh pool that connects without an error has one entry for each non-empty token and each
    -- application with a non-zero id, and at least one, so that its active index is in range.
    pub connect-credentials :
        (t : GithubService C W)
        → connect active keys g (new_github_service g m w) ≡ (none, t)
        → (t.active < length t.entries) × (length t.entries ≡ credentials g)
    unfolding connect counted new_github_service credentials
    connect-credentials t h = ground (
      arith,
      length-append (pat_entries keys 0 g.tokens) (app_entries active keys 0 g.applications).1,
      length-pat_entries 0 g.tokens,
      length-app_entries 0 g.applications,
    )

  counted-none : (n : ℕ) (r : Option Error) → counted active keys n r ≡ none → 0 < n
  unfolding counted
  counted-none n (some e) h = absurd (ground arith)
  counted-none zero none h = absurd (ground arith)
  counted-none (suc n) none h = omega arith

  -- A pool that connects without an error has an entry for its active index, if that is the first.
  pub connect-active :
      {W : Type 0} (g : GithubConfig) (s : GithubService C W)
      → s.active ≡ 0
      → (connect active keys g s).0 ≡ none
      → (connect active keys g s).1.active < length (connect active keys g s).1.entries
  unfolding connect
  connect-active g s a h = ground (
    arith,
    counted-none
        (length (
          s.entries
          ++ (pat_entries keys 0 g.tokens ++ (app_entries active keys 0 g.applications).1)))
        (app_entries active keys 0 g.applications).0,
  )
