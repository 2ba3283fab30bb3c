-- ===== src/GithubApp.antt =====
-- internal/services/ghauth.go: the transport that signs in as an installation of a GitHub App and
-- caches its token. The JWT library, the base transport of net/http and the JSON decoder are
-- parameters; times count nanoseconds. The URL of the exchange is always well-formed, so that the
-- request for it is made without an error.
pub mod Token
use scuffinger.Prelude.{
  ℕ, ◌+◌, ◌-◌, ◌*◌, String, string_eq, ℕ_eq, Bool, not, ◌&&◌, Option, none, some, [], ◌==◌, ltb,
  if◌then◌else◌, ◌+++◌, decimal,
}
use scuffinger.Prelude.Int.{ℤ, pos, negsuc, ◌+ℤ◌}
use scuffinger.Prelude.Map.{Map, insert}
use scuffinger.Prelude.Result.{Result, ok, err}
use scuffinger.I18n.{Error}

-- the identities, which the URL and the claims spell in decimal, and the cached token; the zero
-- `time.Time` is 0
pub record AppTransport : Type 0 where
  pub app_id : ℤ
  pub installation_id : ℤ
  pub token : String
  pub exp : ℕ

pub record Request : Type 0 where
  pub method : String
  pub url : String
  pub headers : Map String String

-- the claims of the JWT: two times and the issuer
pub record Claims : Type 0 where
  pub issued_at : ℤ
  pub expires_at : ℤ
  pub issuer : String

pub record Answer : Type 0 where
  pub status : ℕ
  pub body : String

-- The clock, a signature with the key of the App, the base transport, and the decoder of an answer
-- into a token and its expiry. `number` is fmt's `%d`.
pub record Net (W : Type 0) : Type 0 where
  pub now : W → ℕ
  pub sign : Claims → Result Error String
  pub send : Request → W → Result Error Answer × W
  pub decode : String → Result Error (String × ℕ)
  pub number : ℤ → String

-- time.Second
abbrev pub second : ℕ
second = 1_000_000_000

-- time.Minute
abbrev pub minute : ℕ
minute = 60 * second

abbrev pub accept : String
accept = "application/vnd.github+json"

unfoldable pub new_transport : ℤ → ℤ → AppTransport
new_transport app_id installation_id = record {
  app_id = app_id;
  installation_id = installation_id;
  token = "";
  exp = 0;
}

-- the test in front of the exchange: a token that stays valid for more than a minute
abbrev pub usable : ℕ → AppTransport → Bool
usable t a = not (a.token == "") && ltb (t + minute) a.exp

-- the request with its two headers set
unfoldable pub authorized : String → Request → Request
authorized authorization req = record req {
  headers = insert "Accept" accept (insert "Authorization" authorization req.headers);
}

labelled : {A : Type 0} → String → Result Error A → Result Error A
labelled what (ok a) = ok a
labelled what (err e) = err (what +++ (": " +++ e))

module _ {W : Type 0} (net : Net W) where
  unfoldable pub claims : AppTransport → W → Claims
  claims a w = record {
    issued_at = pos (net.now w) +ℤ negsuc (60 * second - 1);
    expires_at = pos (net.now w) +ℤ pos (9 * minute);
    issuer = net.number a.app_id;
  }

  unfoldable pub create_jwt : AppTransport → W → Result Error String
  unfolding claims
  create_jwt a w = net.sign (claims a w)

  unfoldable pub token_request : AppTransport → String → Request
  unfolding authorized
  token_request a jwt = authorized ("Bearer " +++ jwt) (record {
    method = "POST";
    url =
        "https://api.github.com/app/installations/"
        +++ (net.number a.installation_id +++ "/access_tokens");
    headers = [];
  })

  answer_decoded : Result Error Answer → Result Error (String × ℕ)
  unfolding labelled
  answer_decoded (err e) = err ("installation token request: " +++ e)
  answer_decoded (ok r) =
      if r.status == 201
      then labelled "decode installation token" (net.decode r.body)
      else err ("installation token: HTTP " +++ (decimal r.status +++ (": " +++ r.body)))

  unfoldable pub exchange_jwt : AppTransport → String → W → Result Error (String × ℕ) × W
  unfolding answer_decoded token_request
  exchange_jwt a jwt w = let (r, w') = net.send (token_request a jwt) w in (answer_decoded r, w')

  -- behind the exchange: the cache is written only by an answer
  unfoldable pub exchanged :
      AppTransport → Result Error (String × ℕ) × W → Result Error String × AppTransport × W
  exchanged a (err e, w) = (err e, a, w)
  exchanged a (ok (tok, exp), w) = (ok tok, record a { token = tok; exp = exp }, w)

  signed : AppTransport → W → Result Error String → Result Error String × AppTransport × W
  unfolding exchanged
  signed a w (err e) = (err ("create JWT: " +++ e), a, w)
  signed a w (ok jwt) = exchanged a (exchange_jwt a jwt w)

  unfoldable pub installation_token : AppTransport → W → Result Error String × AppTransport × W
  unfolding signed
  installation_token a w =
      if usable (net.now w) a then (ok a.token, a, w) else signed a w (create_jwt a w)

  send_with :
      Request → Result Error String × AppTransport × W → Result Error Answer × AppTransport × W
  send_with req (err e, a, w) = (err e, a, w)
  send_with req (ok tok, a, w) =
      let (r, w') = net.send (authorized ("token " +++ tok) req) w in (r, a, w')

  unfoldable pub round_trip : AppTransport → Request → W → Result Error Answer × AppTransport × W
  unfolding send_with
  round_trip a req w = send_with req (installation_token a w)
