-- ===== src/GithubApp/Token.antt =====
-- When the transport asks GitHub for a token, and which token a request carries
-- (internal/services/ghauth.go).
use scuffinger.Prelude.{
  ℕ, ◌+◌, ◌<◌, ◌≡◌, ◌≢◌, refl, String, true, false, some, List, [], ◌∷◌, arith, eq_iff, ◌==◌,
  string_eq, ◌+++◌, if◌then◌else◌,
}
use scuffinger.Prelude.Map.{lookup, lookup-insert}
use scuffinger.Prelude.Result.{Result, ok}
use scuffinger.I18n.{Error}
use scuffinger.GithubApp.{
  AppTransport, Request, Answer, Net, minute, accept, usable, authorized, installation_token,
  exchanged, round_trip, create_jwt, exchange_jwt,
}

-- Only these two headers change.
authorized-headers :
    (value : String) (req : Request) (name : String)
    → lookup name (authorized value req).headers ≡ (
        if "Accept" == name
        then some accept
        else if "Authorization" == name
        then some value
        else lookup name req.headers)
unfolding authorized
authorized-headers value req name = simp lookup-insert

module _ {W : Type 0} (net : Net W) where
  -- requests through the transport, one after another
  pub round_trips : AppTransport → List Request → W → List (Result Error Answer) × AppTransport × W
  round_trips a [] w = ([], a, w)
  round_trips a (req ∷ reqs) w =
      let (r, a1, w1) = round_trip net a req w in
      let (rs, a2, w2) = round_trips a1 reqs w1 in (r ∷ rs, a2, w2)

  -- the same requests through the base transport, each with that token
  pub base_trips : String → List Request → W → List (Result Error Answer) × W
  base_trips tok [] w = ([], w)
  base_trips tok (req ∷ reqs) w =
      let (r, w1) = net.send (authorized ("token " +++ tok) req) w in
      let (rs, w2) = base_trips tok reqs w1 in (r ∷ rs, w2)

  -- Each of these requests begins more than a minute before that time.
  abbrev pub Before : ℕ → String → List Request → W → Type 0
  Before exp tok [] w = Unit
  Before exp tok (req ∷ reqs) w =
      (net.now w + minute < exp)
      × Before exp tok reqs (net.send (authorized ("token " +++ tok) req) w).1

  usable_token : (a : AppTransport) (t : ℕ) → a.token ≢ "" → t + minute < a.exp → usable t a ≡ true
  usable_token a t h l = ground (arith, eq_iff a.token "")

  cached-round_trip :
      (a : AppTransport) (req : Request) (w : W)
      → usable (net.now w) a ≡ true
      → round_trip net a req w
        ≡ (let (r, w') = net.send (authorized ("token " +++ a.token) req) w in (r, a, w'))
  unfolding round_trip installation_token
  cached-round_trip a req w h = rw h refl

  cached-round_trips :
      (a : AppTransport) (reqs : List Request) (w : W)
      → a.token ≢ ""
      → Before a.exp a.token reqs w
      → round_trips a reqs w ≡ (let (rs, w') = base_trips a.token reqs w in (rs, a, w'))
  unfolding round_trips base_trips
  cached-round_trips a [] w h b = refl
  cached-round_trips a (req ∷ reqs) w h b =
      rw (cached-round_trip a req w (usable_token a (net.now w) h b.0))
        (rw (cached-round_trips a reqs _ h b.1) refl)

  exchanged-round_trip :
      (a : AppTransport) (req : Request) (w w1 : W) (jwt tok : String) (exp : ℕ)
      → usable (net.now w) a ≡ false
      → create_jwt net a w ≡ ok jwt
      → exchange_jwt net a jwt w ≡ (ok (tok, exp), w1)
      → round_trip net a req w ≡ (
          let (r, w') = net.send (authorized ("token " +++ tok) req) w1 in
          (r, record a { token = tok; exp = exp }, w'))
  unfolding round_trip installation_token exchanged
  exchanged-round_trip a req w w1 jwt tok exp h c x = rw h (rw c (rw x refl))

  -- When the cached token is not usable and the exchange answers a token that is not empty, then
  -- the request and all that follow, each begun more than a minute before the expiry of that
  -- token, go through the base transport with it: no other token is asked for, the answers and the
  -- world are those of the base transport, and the cache holds the token.
  pub round_trips-base_trips :
      (a : AppTransport) (req : Request) (reqs : List Request) (w w1 : W) (jwt tok : String)
      (exp : ℕ)
      → usable (net.now w) a ≡ false
      → create_jwt net a w ≡ ok jwt
      → exchange_jwt net a jwt w ≡ (ok (tok, exp), w1)
      → tok ≢ ""
      → Before exp tok reqs (net.send (authorized ("token " +++ tok) req) w1).1
      → round_trips a (req ∷ reqs) w ≡ (
          let (rs, w') = base_trips tok (req ∷ reqs) w1 in
          (rs, record a { token = tok; exp = exp }, w'))
  unfolding round_trips base_trips
  round_trips-base_trips a req reqs w w1 jwt tok exp h c x n b =
      rw (exchanged-round_trip a req w w1 jwt tok exp h c x)
        (rw (cached-round_trips (record a { token = tok; exp = exp }) reqs _ n b) refl)
