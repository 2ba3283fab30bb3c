-- ===== src/Pool/Ping.antt =====
-- `Ping` and `SelfTest` of internal/services/github.go keep the active index in range.
use scuffinger.Prelude.{sym, ◌<◌, ◌≡◌, refl, Option, none, some, length, get_elem?}
use mathlib.Core.Path.{subst}
use scuffinger.Prelude.Result.{Result, ok, err}
use scuffinger.I18n
use scuffinger.I18n.{Key, Error, Messages}
use scuffinger.Pool.{
  ClientEntry, Limits, Api, GithubService, moved, update, ping, self_test, done, limits_found,
  ping_entry, test_entry, user_found,
}
use scuffinger.Pool.Bounds.{get_in_range, Coreless, Follows, Lands, Follows-trans, update-Lands}

module _ {C W : Type 0} (active : Messages) (api : Api C W) where
  abbrev pub Answers : GithubService C W → Option (Option Error × GithubService C W) → Type 0
  Answers s none = Coreless api
  Answers s (some (r, t)) = Follows s t

  Answers-trans :
      {a b : GithubService C W} (o : Option (Option Error × GithubService C W))
      → Follows a b
      → Answers b o
      → Answers a o
  Answers-trans none p l = l
  Answers-trans (some (r, t)) p q = Follows-trans p q

  done-Answers :
      (s : GithubService C W) (o : Option (GithubService C W))
      → Lands api s o
      → Answers s (done active api o)
  unfolding done
  done-Answers s none l = l
  done-Answers s (some t) l = l

  limits_found-Answers :
      (key : Key) (e : ClientEntry C) (s : GithubService C W) (r : Result Error (Option Limits) × W)
      → (r.0 ≡ ok none → Coreless api)
      → get_elem? s.entries s.active ≡ some e
      → s.active < length s.entries
      → Answers s (limits_found active api key e s r)
  unfolding limits_found
  limits_found-Answers key e s (err x, w) nc g h = record {
    in_range = h;
    same = refl;
    size = refl;
    limit = refl;
  }
  limits_found-Answers key e s (ok none, w) nc g h = nc refl
  limits_found-Answers key e s (ok (some l), w) nc g h =
      done-Answers s (update api e l w s) (update-Lands api e l w s g h)

  user_found-Answers :
      (e : ClientEntry C) (s : GithubService C W) (r : Option Error × W)
      → get_elem? s.entries s.active ≡ some e
      → s.active < length s.entries
      → Answers s (user_found active api e s r)
  unfolding user_found
  user_found-Answers e s (some x, w) g h = record {
    in_range = h;
    same = refl;
    size = refl;
    limit = refl;
  }
  user_found-Answers e s (none, w) g h =
      Answers-trans
        (limits_found active api I18n.err_gh_rate_limit e (moved s w) (api.rate_limit e.client w))
        (record { in_range = h; same = refl; size = refl; limit = refl })
        (limits_found-Answers I18n.err_gh_rate_limit e (moved s w) (api.rate_limit e.client w)
          (λ q. (e.client, w, q)) g h)

  -- From a pool whose active index is in range, `Ping` leaves the same credentials in the same
  -- order, with the active index in range, unless an answer has no core limit.
  pub ping-Answers :
      (s : GithubService C W) → s.active < length s.entries → Answers s (ping active api s)
  unfolding ping ping_entry
  ping-Answers s h =
      let (e, g) = get_in_range s.entries s.active h in
      subst (λ o. Answers s (ping_entry active api o s)) (sym g)
        (limits_found-Answers I18n.err_gh_fetch_rate_limit e s (api.rate_limit e.client s.world)
          (λ q. (e.client, s.world, q)) g h)

  -- The same of `SelfTest`.
  pub self_test-Answers :
      (s : GithubService C W) → s.active < length s.entries → Answers s (self_test active api s)
  unfolding self_test test_entry
  self_test-Answers s h =
      let (e, g) = get_in_range s.entries s.active h in
      subst (λ o. Answers s (test_entry active api o s)) (sym g)
        (user_found-Answers e s (api.get_user e.client s.world) g h)
