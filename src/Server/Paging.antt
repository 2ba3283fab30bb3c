-- ===== src/Server/Paging.antt =====
-- The listings of internal/server/github.go gather every page.
use scuffinger.Prelude.{
  ℕ, zero, suc, ◌≤◌, ◌≡◌, refl, ap, ◌∙◌, String, ℕ_eq, false, Option, none, some, List, [], ◌++◌,
  ◌==◌, length, arith,
}
use mathlib.Core.List.{append_assoc}
use scuffinger.Prelude.Result.{ok, err}
use scuffinger.I18n.{Key, Messages}
use scuffinger.Metrics.Github.{ApiMetrics}
use scuffinger.Server.Github.{
  GithubError, PageOf, Api, Response, listing, Serving, gh_error, observed, page_found, fetch_pages,
  fetch_all,
}

suc-nonzero : (n : ℕ) → (suc n == 0) ≡ false
suc-nonzero n = ground arith

module _ {V W : Type 0} where
  -- What the API answers from a page on: the values of its pages, up to one without a next page or
  -- to an error.
  pub data Served (call : ℕ → W → PageOf V × W)
      : ℕ → ℕ → W → List V → Option GithubError → W → Type 0 where
    last :
        {p : ℕ} {w w' : W} {vs : List V}
        → call p w ≡ (ok (vs, 0), w')
        → Served call 1 p w vs none w'
    stop :
        {p : ℕ} {w w' : W} {e : GithubError}
        → call p w ≡ (err e, w')
        → Served call 1 p w [] (some e) w'
    more :
        {n p next : ℕ} {w w' w'' : W} {vs rest : List V} {e : Option GithubError}
        → call p w ≡ (ok (vs, suc next), w')
        → Served call n (suc next) w' rest e w''
        → Served call (suc n) p w (vs ++ rest) e w''

  Served-pos :
      (call : ℕ → W → PageOf V × W) {n p : ℕ} {vs : List V} {w w' : W} {e : Option GithubError}
      → Served call n p w vs e w'
      → 1 ≤ n
  Served-pos call (last q) = omega arith
  Served-pos call (stop q) = omega arith
  Served-pos call (more q s) = omega arith

module _ {V W : Type 0} (active : Messages) (api : Api V W) where
  -- the answer that those pages ask for
  abbrev pub wanted : Key → List V → Option GithubError → Response V
  wanted key vs none = listing (length vs) vs
  wanted key vs (some e) = gh_error active api key e

  module _ (endpoint : String) (key : Key) (call : ℕ → W → PageOf V × W) where
    fetch_pages-Served :
        (start : ℕ) (m : ApiMetrics) (fuel : ℕ) {n p : ℕ} {vs : List V} {w w' : W}
        {e : Option GithubError}
        → Served call n p w vs e w'
        → (all : List V) → n ≤ fuel
        → fetch_pages active api endpoint key call start m fuel p all w
          ≡ some (
            wanted key (all ++ vs) e,
            record { metrics = observed active api endpoint start e w' m; world = w' },
          )
    unfolding fetch_pages page_found
    fetch_pages-Served start m zero s all h = absurd (omega (arith, Served-pos call s))
    fetch_pages-Served start m (suc fuel) (last q) all h = rw q refl
    fetch_pages-Served start m (suc fuel) (stop q) all h = rw q refl
    fetch_pages-Served start m (suc fuel) {w' = w'} {e = e}
          (more {next = next} {vs = vs} {rest = rest} q s) all h =
        rw q (
          rw (suc-nonzero next) (
            fetch_pages-Served start m fuel s (all ++ vs) (omega arith)
            ∙ ap
                (λ xs. some (
                  wanted key xs e,
                  record { metrics = observed active api endpoint start e w' m; world = w' },
                ))
                (append_assoc all vs rest)))

    -- Over an API that serves a listing in any number of pages, a listing handler, with fuel for
    -- as many requests, answers the values of all pages in order with their number, or the error
    -- of the page that failed, and counts one call of the endpoint.
    pub fetch_all-Served :
        (s : Serving W) (fuel n : ℕ) (vs : List V) (e : Option GithubError) (w' : W)
        → Served call n 0 s.world vs e w'
        → n ≤ fuel
        → fetch_all active api fuel endpoint key call s
          ≡ some (
            wanted key vs e,
            record {
              metrics = observed active api endpoint (api.clock s.world) e w' s.metrics;
              world = w';
            },
          )
    unfolding fetch_all
    fetch_all-Served s fuel n vs e w' p h =
        fetch_pages-Served (api.clock s.world) s.metrics fuel p [] h
