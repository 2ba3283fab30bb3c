-- ===== src/Auth/Polling.antt =====
-- The polling loop of internal/auth/auth.go ends, and a token that it answers comes without an
-- error.
use mathlib.Core.Path.{subst}
use scuffinger.Prelude.{
  ℕ, zero, suc, ◌+◌, ◌*◌, ◌/◌, ◌≤◌, ◌≡◌, refl, String, string_eq, eq_iff, Bool, true, false, Option,
  none, some, arith, ltb, if◌then◌else◌, List,
}
use scuffinger.Prelude.Int.{ℤ, pos, negsuc}
use scuffinger.Prelude.Result.{Result, ok, err}
use scuffinger.I18n.{Error}
use scuffinger.Auth.Flow.{
  Web, AccessTokenResponse, second, poll_interval, deadline_of, Verdict, finish, poll_again,
  verdict, request_access_token, after_verdict, after_request, poll, poll_fuel, poll_for_token,
  expired,
}

-- Time does not run backwards over a request, and a sleep takes at least its duration.
pub record ClockLaws {W : Type 0} (web : Web W) : Type 0 where
  pub now-sleep : (d : ℕ) (w : W) → web.now w + d ≤ web.now (web.sleep d w)
  pub now-post :
      (u : String) (f : List (String × String)) (w : W) → web.now w ≤ web.now (web.post u f w).1

-- an access token is answered with an empty error only
abbrev pub Settled : Result Error AccessTokenResponse → Type 0
Settled (ok atr) = atr.error ≡ ""
Settled (err e) = Unit

-- the loop has returned
abbrev pub Ends : {W : Type 0} → Option (Result Error AccessTokenResponse × W) → Type 0
Ends none = ⊥
Ends (some (r, w)) = Settled r

poll_interval-ge : (i : ℤ) → 5 * second ≤ poll_interval i
unfolding poll_interval
poll_interval-ge (pos n) = ground arith
poll_interval-ge (negsuc n) = ground arith

-- a verdict that goes on never shortens the interval
abbrev Sound : ℕ → Verdict → Type 0
Sound i (finish r) = Settled r
Sound i (poll_again j) = i ≤ j

verdict-Sound : (i : ℕ) (atr : AccessTokenResponse) → Sound i (verdict i atr)
unfolding verdict
verdict-Sound i atr = ground (arith, eq_iff atr.error "")

module _ {W : Type 0} (web : Web W) (laws : ClockLaws web) (client_id device_code : String) where
  Ends-if :
      (b : Bool) (x y : Option (Result Error AccessTokenResponse × W))
      → (b ≡ true → Ends x)
      → Ends y
      → Ends (if b then x else y)
  Ends-if true x y p q = p refl
  Ends-if false x y p q = q

  after_verdict-Ends :
      (i : ℕ) (w : W) (v : Verdict) (rest : ℕ → W → Option (Result Error AccessTokenResponse × W))
      → Sound i v
      → ((j : ℕ) → i ≤ j → Ends (rest j w))
      → Ends (after_verdict web client_id device_code w v rest)
  unfolding after_verdict
  after_verdict-Ends i w (finish r) rest s ih = s
  after_verdict-Ends i w (poll_again j) rest s ih = ih j s

  after_request-Ends :
      (i : ℕ) (r : Result Error AccessTokenResponse × W)
      (rest : ℕ → W → Option (Result Error AccessTokenResponse × W))
      → ((j : ℕ) → i ≤ j → Ends (rest j r.1))
      → Ends (after_request web client_id device_code i r rest)
  unfolding after_request
  after_request-Ends i (err e, w) rest ih = tt
  after_request-Ends i (ok atr, w) rest ih =
      after_verdict-Ends i w (verdict i atr) rest (verdict-Sound i atr) ih

  poll-Ends :
      (n deadline i : ℕ) (w : W)
      → 5 * second ≤ i
      → deadline ≤ web.now w + n * (5 * second)
      → Ends (poll web client_id device_code (suc n) deadline i w)
  unfolding poll request_access_token
  poll-Ends zero deadline i w hi hd =
      Ends-if (ltb (web.now w) deadline) _ (some (err expired, w)) (λ h. absurd (ground arith)) tt
  poll-Ends (suc n) deadline i w hi hd =
      Ends-if (ltb (web.now w) deadline) _ (some (err expired, w))
        (λ h.
          after_request-Ends i (request_access_token web client_id device_code (web.sleep i w))
            (poll web client_id device_code (suc n) deadline)
            (λ j hj.
              poll-Ends n deadline j _ (omega arith)
                (omega (arith, laws.now-sleep i w, laws.now-post _ _ (web.sleep i w)))))
        tt

  -- If time does not run backwards and a sleep takes at least its duration, `PollForToken`
  -- returns, whatever GitHub answers, within one round for each five seconds until the code
  -- expires and two more; an access token is answered with an empty error only.
  pub poll_for_token-Ends :
      (interval expires_in : ℤ) (w : W)
      → Ends (poll_for_token web client_id device_code interval expires_in w)
  unfolding poll_for_token poll_fuel deadline_of
  poll_for_token-Ends interval (pos n) w =
      subst
        (λ m.
          Ends
            (poll web client_id device_code m (web.now w + n * second) (poll_interval interval) w))
        (omega arith) (poll-Ends (n / 5 + 1) _ _ w (poll_interval-ge interval) (omega arith))
  poll_for_token-Ends interval (negsuc n) w =
      poll-Ends 0 _ _ w (poll_interval-ge interval) (omega arith)
