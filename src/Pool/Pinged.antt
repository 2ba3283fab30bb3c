-- ===== src/Pool/Pinged.antt =====
-- What `Ping` of internal/services/github.go asks, answers and leaves.
use mathlib.Core.Path.{subst}
use scuffinger.Prelude.{
  ◌≡◌, ◌⊎◌, inl, inr, refl, sym, ap, Option, none, some, get_elem?, Bool-cases, ltb→lt,
  ltb-false→le,
}
use scuffinger.Prelude.Int.{◌≤ℤ◌, ltb_ℤ}
use scuffinger.Prelude.Result.{Result, ok, err}
use scuffinger.I18n
use scuffinger.I18n.{Error, Messages}
use scuffinger.Pool.{
  ClientEntry, Limits, Api, GithubService, limit_of, active_entry, moved, store, update, rotate,
  ping, ping_entry, limits_found, done,
}
use scuffinger.Pool.Bounds.{Coreless}
use scuffinger.Pool.Entries.{get_inside, get-store_same, refreshed}
use scuffinger.Pool.Ping.{Answers, ping-Answers}
use scuffinger.Pool.Asked.{Lower}
use scuffinger.Pool.Turn.{Rotates, rotate-Rotates}

module _ {C W : Type 0} (active : Messages) (api : Api C W) (s : GithubService C W)
    (e : ClientEntry C) where
  abbrev pub answer : Result Error (Option Limits) × W
  answer = api.rate_limit e.client s.world

  -- The error of the call, or the pool with its answer, which a rotation follows if the count is
  -- below the threshold.
  abbrev pub Pings : Option (Option Error × GithubService C W) → Type 0
  Pings none = Coreless api
  Pings (some (r, t)) =
      ((x : Error) × (answer.0 ≡ err x)
        × (r ≡ some (I18n.err_with active I18n.err_gh_fetch_rate_limit x))
        × (t ≡ moved s answer.1))
      ⊎ ((l : Limits) × (answer.0 ≡ ok (some l))
          × (r ≡ none)
          × (((limit_of s.threshold ≤ℤ l.remaining) × (t ≡ store s.active e l answer.1 s))
              ⊎ (Lower l.remaining (limit_of s.threshold)
                  × Rotates api (store s.active e l answer.1 s) (refreshed e l) (some t))))

  active_stored :
      (l : Limits)
      → get_elem? s.entries s.active ≡ some e
      → active_entry (store s.active e l answer.1 s) ≡ some (refreshed e l)
  unfolding store
  active_stored l g =
      unfold store in get-store_same s.active e l answer.1 s (get_inside s.entries s.active e g)

  done-Pings :
      (l : Limits) (o : Option (GithubService C W))
      → answer.0 ≡ ok (some l)
      → Lower l.remaining (limit_of s.threshold)
      → Rotates api (store s.active e l answer.1 s) (refreshed e l) o
      → Pings (done active api o)
  unfolding done
  done-Pings l none q h n = n
  done-Pings l (some t) q h n = inr (l, q, refl, inr (h, n))

  updated-Pings :
      (l : Limits)
      → answer.0 ≡ ok (some l)
      → get_elem? s.entries s.active ≡ some e
      → Pings (done active api (update api e l answer.1 s))
  unfolding update done
  updated-Pings l q g =
      let u = store s.active e l answer.1 s in
      elim (Bool-cases (ltb_ℤ l.remaining (limit_of s.threshold))) [
        | inl p ↦ rw p (
            done-Pings l (rotate api u) q (ltb→lt _ _ p)
              (rotate-Rotates api u (refreshed e l) (active_stored l g)))
        | inr p ↦ rw p (inr (l, q, refl, inl (ltb-false→le _ _ p, refl)))
      ]

  limits_found-Pings :
      (r : Result Error (Option Limits) × W)
      → answer ≡ r
      → get_elem? s.entries s.active ≡ some e
      → Pings (limits_found active api I18n.err_gh_fetch_rate_limit e s r)
  unfolding limits_found
  limits_found-Pings (err x, w) q g = inl (x, ap (λ p. p.0) q, refl, ap (λ p. moved s p.1) (sym q))
  limits_found-Pings (ok none, w) q g = (e.client, s.world, ap (λ p. p.0) q)
  limits_found-Pings (ok (some l), w) q g =
      subst (λ v. Pings (done active api (update api e l v s))) (ap (λ p. p.1) q)
        (updated-Pings l (ap (λ p. p.0) q) g)

module _ {C W : Type 0} (active : Messages) (api : Api C W) where
  -- From a pool with an active entry, `Ping` asks GitHub for its limit: it returns an error of
  -- that call wrapped and changes nothing; otherwise it returns nil and has stored the answer, and
  -- has gone on with a rotation exactly if the count is below the threshold. The credentials stay
  -- the same in the same order, the active index stays in range, and `Ping` panics only if an
  -- answer without an error lacks the core limit.
  pub ping-Pings :
      (s : GithubService C W) (e : ClientEntry C)
      → active_entry s ≡ some e
      → Pings active api s e (ping active api s) × Answers active api s (ping active api s)
  unfolding ping ping_entry
  ping-Pings s e h = (
    subst (λ o. Pings active api s e (ping_entry active api o s)) (sym h)
        (limits_found-Pings active api s e (api.rate_limit e.client s.world) refl h),
    ping-Answers active api s (get_inside s.entries s.active e h),
  )
