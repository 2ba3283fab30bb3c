-- ===== src/Pool.antt =====
-- internal/services/github.go: the pool of GitHub credentials and its rotation. `C` is the type of
-- API clients and `W` the world that their calls act on. What panics in the program, an
-- index out of range or a limit that is not there, is `none`. Log lines are not modelled; a rotation runs with no other one beside it.
pub mod Connect
pub mod Opened
pub mod Bounds
mod Entries
pub mod Best
mod Asked
pub mod Turn
pub mod Pinged
pub mod Ping
use scuffinger.Prelude.{
  ℕ, zero, suc, ◌+◌, ◌-◌, ◌%◌, String, Bool, true, false, Option, none, some, List, [], ◌∷◌, ◌==◌,
  ℕ_eq, leb, length, get_elem?, set, if◌then◌else◌,
}
use scuffinger.Prelude.Int.{ℤ, pos, negsuc, ltb_ℤ, leb_ℤ, int_eq}
use scuffinger.Prelude.Result.{Result, ok, err}
use scuffinger.I18n
use scuffinger.I18n.{Key, Error, Messages}
use scuffinger.Metrics.Github.{ApiMetrics, set_github_rate_limit}

-- a credential with its last-known rate limit, -1 before the first answer
pub record ClientEntry (C : Type 0) : Type 0 where
  pub client : C
  pub label : String
  pub remaining : ℤ
  pub reset_at : ℕ

-- the core limit that GitHub answers
pub record Limits : Type 0 where
  pub remaining : ℤ
  pub reset : ℕ

-- The two calls that the pool makes through a client. An answer without the core limit, whose use
-- is that of a nil pointer, is `none`.
pub record Api (C W : Type 0) : Type 0 where
  pub get_user : C → W → Option Error × W
  pub rate_limit : C → W → Result Error (Option Limits) × W

-- `threshold` is `RateLimitThreshold` of the configuration
pub record GithubService (C W : Type 0) : Type 0 where
  pub threshold : ℤ
  pub entries : List (ClientEntry C)
  pub active : ℕ
  pub metrics : ApiMetrics
  pub world : W

-- the threshold, or 100
abbrev pub limit_of : ℤ → ℤ
limit_of t = if t == pos 0 then pos 100 else t

-- The rest of a loop, from the best index and its remaining count.
abbrev pub Rest : Type 0 → Type 0 → Type 0
Rest C W = ℕ → ℤ → GithubService C W → Option (GithubService C W)

module _ {C W : Type 0} where
  abbrev pub active_entry : GithubService C W → Option (ClientEntry C)
  active_entry s = get_elem? s.entries s.active

  -- an answer of the API is stored in the entry and in its gauge
  unfoldable pub store : ℕ → ClientEntry C → Limits → W → GithubService C W → GithubService C W
  unfolding set_github_rate_limit
  store i e l w s = record s {
    entries = set s.entries i (record e { remaining = l.remaining; reset_at = l.reset });
    metrics = set_github_rate_limit e.label l.remaining s.metrics;
    world = w;
  }

  abbrev pub moved : GithubService C W → W → GithubService C W
  moved s w = record s { world = w }

  -- One candidate's answer: an error passes it over, enough headroom ends the loop.
  unfoldable pub answered :
      ℕ
      → ClientEntry C
      → ℕ
      → ℤ
      → GithubService C W
      → Rest C W
      → Result Error (Option Limits) × W
      → Option (GithubService C W)
  answered idx e best best_remaining s rest (err x, w) = rest best best_remaining (moved s w)
  answered idx e best best_remaining s rest (ok none, w) = none
  answered idx e best best_remaining s rest (ok (some l), w) =
      let t = store idx e l w s in
      if leb_ℤ (limit_of s.threshold) l.remaining
      then some (record t { active = idx })
      else if ltb_ℤ best_remaining l.remaining
      then rest idx l.remaining t
      else rest best best_remaining t

module _ {C W : Type 0} (api : Api C W) where
  unfoldable pub candidate :
      ℕ → Option (ClientEntry C) → ℕ → ℤ → GithubService C W → Rest C W → Option (GithubService C W)
  candidate idx none best best_remaining s rest = none
  candidate idx (some e) best best_remaining s rest =
      answered idx e best best_remaining s rest (api.rate_limit e.client s.world)

  -- The loop of `rotate`: `rounds` candidates are left, the next at the offset `i` from the active
  -- one; `best` is the best seen so far.
  unfoldable pub rotate_loop : ℕ → ℕ → ℕ → ℤ → GithubService C W → Option (GithubService C W)
  rotate_loop zero i best best_remaining s = some (record s { active = best })
  rotate_loop (suc rounds) i best best_remaining s =
      let idx = (s.active + i) % length s.entries in
      candidate idx (get_elem? s.entries idx) best best_remaining s (rotate_loop rounds (suc i))

  rotate_from : Option (ClientEntry C) → GithubService C W → Option (GithubService C W)
  rotate_from none s = none
  rotate_from (some e) s = rotate_loop (length s.entries - 1) 1 s.active e.remaining s

  unfoldable pub rotate : GithubService C W → Option (GithubService C W)
  unfolding rotate_from
  rotate s = if leb (length s.entries) 1 then some s else rotate_from (active_entry s) s

  -- what `SelfTest` and `Ping` do with the limits of the active entry
  unfoldable pub update :
      ClientEntry C → Limits → W → GithubService C W → Option (GithubService C W)
  update e l w s =
      let t = store s.active e l w s in
      if ltb_ℤ l.remaining (limit_of s.threshold) then rotate t else some t

module _ {C W : Type 0} (active : Messages) (api : Api C W) where
  done : Option (GithubService C W) → Option (Option Error × GithubService C W)
  done none = none
  done (some s) = some (none, s)

  limits_found :
      Key
      → ClientEntry C
      → GithubService C W
      → Result Error (Option Limits) × W
      → Option (Option Error × GithubService C W)
  unfolding done
  limits_found key e s (err x, w) = some (some (I18n.err_with active key x), moved s w)
  limits_found key e s (ok none, w) = none
  limits_found key e s (ok (some l), w) = done (update api e l w s)

  ping_entry :
      Option (ClientEntry C) → GithubService C W → Option (Option Error × GithubService C W)
  unfolding limits_found
  ping_entry none s = none
  ping_entry (some e) s =
      limits_found I18n.err_gh_fetch_rate_limit e s (api.rate_limit e.client s.world)

  unfoldable pub ping : GithubService C W → Option (Option Error × GithubService C W)
  unfolding ping_entry
  ping s = ping_entry (active_entry s) s

  user_found :
      ClientEntry C
      → GithubService C W
      → Option Error × W
      → Option (Option Error × GithubService C W)
  unfolding limits_found
  user_found e s (some x, w) = some (some (I18n.err_with active I18n.err_gh_auth x), moved s w)
  user_found e s (none, w) =
      limits_found I18n.err_gh_rate_limit e (moved s w) (api.rate_limit e.client w)

  test_entry :
      Option (ClientEntry C) → GithubService C W → Option (Option Error × GithubService C W)
  unfolding user_found
  test_entry none s = none
  test_entry (some e) s = user_found e s (api.get_user e.client s.world)

  unfoldable pub self_test : GithubService C W → Option (Option Error × GithubService C W)
  unfolding test_entry
  self_test s = test_entry (active_entry s) s
