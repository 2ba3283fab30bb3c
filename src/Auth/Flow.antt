-- ===== src/Auth/Flow.antt =====
-- internal/auth/auth.go: the OAuth device flow. The HTTP client with the forms that it posts, the
-- JSON decoder and the clock are parameters. Times count nanoseconds, and the
-- products of seconds are taken without the wrap of int64, which only a number of seconds beyond
-- 9,223,372,036 would reach.
use scuffinger.Prelude.{
  ℕ, zero, suc, ◌+◌, ◌-◌, ◌*◌, ◌/◌, String, string_eq, Option, none, some, List, [], ◌∷◌, ◌==◌,
  ℕ_eq, ltb, if◌then◌else◌, ◌+++◌, join, decimal,
}
use scuffinger.Prelude.Int.{ℤ, pos, negsuc}
use scuffinger.Prelude.Result.{Result, ok, err}
use scuffinger.I18n.{Error}

abbrev pub device_code_url : String
device_code_url = "https://github.com/login/device/code"

abbrev pub access_token_url : String
access_token_url = "https://github.com/login/oauth/access_token"

pub record DeviceCodeResponse : Type 0 where
  pub device_code : String
  pub user_code : String
  pub verification_uri : String
  pub expires_in : ℤ
  pub interval : ℤ

pub record AccessTokenResponse : Type 0 where
  pub access_token : String
  pub token_type : String
  pub scope : String
  pub error : String
  pub error_desc : String

-- a POST of a form that accepts JSON: an error, or the status and the body; then the clock
pub record Web (W : Type 0) : Type 0 where
  pub post : String → List (String × String) → W → Result Error (ℕ × String) × W
  pub decode_device_code : String → Result Error DeviceCodeResponse
  pub decode_access_token : String → Result Error AccessTokenResponse
  pub now : W → ℕ
  pub sleep : ℕ → W → W

-- time.Second
abbrev pub second : ℕ
second = 1_000_000_000

wrapped : {A : Type 0} → String → Result Error A → Result Error A
wrapped what (ok a) = ok a
wrapped what (err e) = err (what +++ (": " +++ e))

-- `pollInterval` before the loop, at least five seconds
unfoldable pub poll_interval : ℤ → ℕ
poll_interval (pos n) = if ltb (n * second) (5 * second) then 5 * second else n * second
poll_interval (negsuc n) = 5 * second

-- the deadline of a code that expires in that many seconds; the subtraction stops at the zero of
-- the clock, which is not after any time
unfoldable pub deadline_of : ℕ → ℤ → ℕ
deadline_of t (pos n) = t + n * second
deadline_of t (negsuc n) = t - suc n * second

abbrev pub expired : Error
expired = "device code expired — please try again"

abbrev pub denied : Error
denied = "authorisation was denied by the user"

-- what the loop does with an answer: it ends, or goes on with an interval
pub data Verdict : Type 0 where
  finish : Result Error AccessTokenResponse → Verdict
  poll_again : ℕ → Verdict

unfoldable pub verdict : ℕ → AccessTokenResponse → Verdict
verdict interval atr =
    if atr.error == ""
    then finish (ok atr)
    else if atr.error == "authorization_pending"
    then poll_again interval
    else if atr.error == "slow_down"
    then poll_again (interval + 5 * second)
    else if atr.error == "expired_token"
    then finish (err expired)
    else if atr.error == "access_denied"
    then finish (err denied)
    else finish (err ("oauth error: " +++ (atr.error +++ (" — " +++ atr.error_desc))))

module _ {W : Type 0} (web : Web W) where
  device_code_found : Result Error (ℕ × String) → Result Error DeviceCodeResponse
  unfolding wrapped
  device_code_found (err e) = err ("device code request: " +++ e)
  device_code_found (ok (status, body)) =
      if status == 200
      then wrapped "decode device code response" (web.decode_device_code body)
      else err ("device code request returned " +++ (decimal status +++ (": " +++ body)))

  unfoldable pub request_device_code :
      String → List String → W → Result Error DeviceCodeResponse × W
  unfolding device_code_found
  request_device_code client_id scopes w =
      let r =
        web.post device_code_url (("client_id", client_id) ∷ ("scope", join " " scopes) ∷ []) w in
      (device_code_found r.0, r.1)

  access_token_found : Result Error (ℕ × String) → Result Error AccessTokenResponse
  unfolding wrapped
  access_token_found (err e) = err ("access token request: " +++ e)
  access_token_found (ok (status, body)) =
      wrapped "decode access token response" (web.decode_access_token body)

  unfoldable pub request_access_token : String → String → W → Result Error AccessTokenResponse × W
  unfolding access_token_found
  request_access_token client_id device_code w =
      let r =
        web.post access_token_url
          (("client_id", client_id)
            ∷ ("device_code", device_code)
            ∷ ("grant_type", "urn:ietf:params:oauth:grant-type:device_code")
            ∷ [])
          w in
      (access_token_found r.0, r.1)

  module _ (client_id device_code : String) where
    -- an answer, with the rest of the loop
    unfoldable pub after_verdict :
        W
        → Verdict
        → (ℕ → W → Option (Result Error AccessTokenResponse × W))
        → Option (Result Error AccessTokenResponse × W)
    after_verdict w (finish r) rest = some (r, w)
    after_verdict w (poll_again interval) rest = rest interval w

    unfoldable pub after_request :
        ℕ
        → Result Error AccessTokenResponse × W
        → (ℕ → W → Option (Result Error AccessTokenResponse × W))
        → Option (Result Error AccessTokenResponse × W)
    unfolding after_verdict
    after_request interval (err e, w) rest = some (err e, w)
    after_request interval (ok atr, w) rest = after_verdict w (verdict interval atr) rest

    -- The loop; `none` is the end of the fuel.
    unfoldable pub poll : ℕ → ℕ → ℕ → W → Option (Result Error AccessTokenResponse × W)
    poll zero deadline interval w = none
    poll (suc fuel) deadline interval w =
        if ltb (web.now w) deadline
        then after_request interval
            (request_access_token client_id device_code (web.sleep interval w)) (poll fuel deadline)
        else some (err expired, w)

    -- one round for each five seconds until the code expires, and two more
    unfoldable pub poll_fuel : ℤ → ℕ
    poll_fuel (pos n) = n / 5 + 2
    poll_fuel (negsuc n) = 1

    unfoldable pub poll_for_token : ℤ → ℤ → W → Option (Result Error AccessTokenResponse × W)
    poll_for_token interval expires_in w =
        poll (poll_fuel expires_in) (deadline_of (web.now w) expires_in) (poll_interval interval) w
