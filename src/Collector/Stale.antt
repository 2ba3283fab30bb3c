-- ===== src/Collector/Stale.antt =====
-- The series that are left after a collection cycle (internal/services/github_collector.go).
use scuffinger.Prelude.{
  String, Bool, true, false, Option, none, some, List, [], ◌∷◌, ◌≡◌, refl, ◌==◌, string_eq, arith,
  ◌||◌, ◌&&◌, All, list_eq, ◌+++◌, eq_iff, eq_self,
}
use scuffinger.Prelude.Result.{Result, ok, err, is_ok}
use scuffinger.I18n.{Error}
use scuffinger.Prelude.Map.{lookup}
use scuffinger.Metrics.Vec.{Labels, Vec}
use scuffinger.Metrics.Workflow.{WorkflowGauges, tracked_vectors}
use scuffinger.Metrics.Workflow.Tracked.{IsConsistent, reset_for_repos-IsConsistent}
use scuffinger.Metrics.Workflow.Reset.{Drops, DropsRepos, reset_for_repos-DropsRepos, Drops-none}
use scuffinger.Metrics.Workflow.Frame.{
  Keeps, Keeps-refl, Keeps-trans, Keeps-wider, Keeps-DropsRepos,
}
use scuffinger.Collector.Types.{Env, State, SetNx}
use scuffinger.Collector.Repo.{parse_repo, parse_repo-join}
use scuffinger.Collector.Runs.{collect_repo}
use scuffinger.Collector.Cycle.{
  Cycle, lock_with, try_lock, repo_collected, locked, parsed, bad_repo, collect_one, collect_each,
  loop, collect, member, reset_collected,
}
use scuffinger.Collector.Gauges.{collect_repo-Keeps}

dropped :
    (sel : String → Bool) (v v' : Vec) (r : String) (ls : Labels)
    → sel r ≡ true
    → Drops sel v v'
    → lookup (r ∷ ls) v' ≡ none
dropped sel v v' r ls h d = ground (arith, d (r ∷ ls))

-- From `c` to `d` the loop wrote gauges of repositories that it has collected by then only.
record Grows {W : Type 0} (c d : Cycle W) : Type 0 where
  keeps : Keeps (member d.collected) c.state.gauges d.state.gauges
  more : (r : String) → member c.collected r ≡ true → member d.collected r ≡ true

module _ {W : Type 0} (env : Env W) where
  Grows-trans : {a b c : Cycle W} → Grows a b → Grows b c → Grows a c
  Grows-trans p q = record {
    keeps = Keeps-trans _ (Keeps-wider _ _ q.more p.keeps) q.keeps;
    more = λ r h. q.more r (p.more r h);
  }

  lock_with-gauges :
      (l : Option (SetNx W)) (repo : String) (s : State W)
      → (lock_with env l repo s).1.gauges ≡ s.gauges
  unfolding lock_with
  lock_with-gauges none repo s = refl
  lock_with-gauges (some set_nx) repo s = ground arith

  repo_collected-parts :
      (full_name : String) (p : Option Error × State W) (c : Cycle W)
      → ((repo_collected env full_name p c).state.gauges ≡ p.1.gauges)
        × ((repo_collected env full_name p c).collected ≡ full_name ∷ c.collected)
  unfolding repo_collected
  repo_collected-parts full_name (none, s) c = (refl, refl)
  repo_collected-parts full_name (some e, s) c = (refl, refl)

  repo_collected-Grows :
      (owner repo : String) (s : State W) (c : Cycle W)
      → s.gauges ≡ c.state.gauges
      → Grows c (repo_collected env (owner +++ ("/" +++ repo)) (collect_repo env owner repo s) c)
  repo_collected-Grows owner repo s c e =
      let full_name = owner +++ ("/" +++ repo) in
      let (g, m) = repo_collected-parts full_name (collect_repo env owner repo s) c in
      record {
        keeps =
            rw (m, g, ← e)
              (collect_repo-Keeps env (member (full_name ∷ c.collected)) owner repo s
                (ground (arith, eq_self full_name)));
        more = λ r h. rw m (ground arith);
      }

  locked-Grows :
      (owner repo : String) (p : Bool × State W) (c : Cycle W)
      → p.1.gauges ≡ c.state.gauges
      → Grows c (locked env (owner +++ ("/" +++ repo)) owner repo p c)
  unfolding locked
  locked-Grows owner repo (false, s) c e = record {
    keeps = rw e (Keeps-refl _ c.state.gauges);
    more = λ r h. h;
  }
  locked-Grows owner repo (true, s) c e = repo_collected-Grows owner repo s c e

  parsed-Grows :
      (full_name : String) (p : Result Error (String × String)) (c : Cycle W)
      → parse_repo (bad_repo env.active) full_name ≡ p
      → Grows c (parsed env full_name p c)
  unfolding parsed
  parsed-Grows full_name (err e) c q = record {
    keeps = Keeps-refl _ c.state.gauges;
    more = λ r h. h;
  }
  parsed-Grows full_name (ok (owner, repo)) c q =
      let joined = ((parse_repo-join (bad_repo env.active) full_name owner repo).0 q).0 in
      rw joined (
        locked-Grows owner repo (try_lock env (owner +++ ("/" +++ repo)) c.state) c
          (unfold try_lock in lock_with-gauges env.set_nx (owner +++ ("/" +++ repo)) c.state))

  collect_each-Grows : (repos : List String) (c : Cycle W) → Grows c (collect_each env repos c)
  unfolding collect_each collect_one
  collect_each-Grows [] c = record { keeps = Keeps-refl _ c.state.gauges; more = λ r h. h }
  collect_each-Grows (full_name ∷ repos) c =
      Grows-trans (parsed-Grows full_name (parse_repo (bad_repo env.active) full_name) c refl)
        (collect_each-Grows repos (collect_one env full_name c))

  reset_collected-DropsRepos :
      (rs : List String) (g : WorkflowGauges)
      → IsConsistent g
      → DropsRepos (member rs) g (reset_collected env rs g)
  unfolding reset_collected
  reset_collected-DropsRepos [] g c = Drops-none g
  reset_collected-DropsRepos (r ∷ rs) g c = (reset_for_repos-DropsRepos (member (r ∷ rs)) g c).0

  reset_collected-IsConsistent :
      (rs : List String) (g : WorkflowGauges)
      → IsConsistent g
      → IsConsistent (reset_collected env rs g)
  unfolding reset_collected
  reset_collected-IsConsistent [] g c = c
  reset_collected-IsConsistent (r ∷ rs) g c = reset_for_repos-IsConsistent (member (r ∷ rs)) g c

  -- If every series is tracked before a cycle, then so it is after it, and of the eight tracked
  -- vectors the cycle leaves what stood there before, without any series of a repository that it
  -- collected.
  pub collect-DropsRepos :
      (s : State W)
      → IsConsistent s.gauges
      → DropsRepos (member (loop env s).collected) s.gauges (collect env s).gauges
        × IsConsistent (collect env s).gauges
  unfolding collect loop
  collect-DropsRepos s c =
      let start : Cycle W = record { collected = []; cycle_err = none; state = s } in
      let grown = collect_each-Grows env.cfg.repositories start in
      let c' = grown.keeps.consistent c in
      let rs = (loop env s).collected in
      (
        Keeps-DropsRepos (member rs) grown.keeps (reset_collected-DropsRepos rs _ c'),
        reset_collected-IsConsistent rs _ c',
      )

  -- whether `parseRepo` accepts a configured name
  abbrev pub is_valid : String → Bool
  is_valid r = is_ok (parse_repo (bad_repo env.active) r)

  -- With a nil client `tryLock` grants every repository.
  try_lock-nil : (repo : String) (s : State W) → env.set_nx ≡ none → try_lock env repo s ≡ (true, s)
  unfolding try_lock lock_with
  try_lock-nil repo s h = simp h

  parsed-collected :
      (full_name : String) (p : Result Error (String × String)) (c : Cycle W) (r : String)
      → env.set_nx ≡ none
      → member (parsed env full_name p c).collected r
        ≡ ((is_ok p && full_name == r) || member c.collected r)
  unfolding parsed locked
  parsed-collected full_name (err e) c r h = ground arith
  parsed-collected full_name (ok (owner, repo)) c r h =
      rw (try_lock-nil full_name c.state h) (
        rw (repo_collected-parts full_name (collect_repo env owner repo c.state) c).1
          (ground arith))

  collect_each-collected :
      (repos : List String) (c : Cycle W) (r : String)
      → env.set_nx ≡ none
      → member (collect_each env repos c).collected r
        ≡ ((is_valid r && member repos r) || member c.collected r)
  unfolding collect_each collect_one
  collect_each-collected [] c r h = ground arith
  collect_each-collected (full_name ∷ repos) c r h = ground (
    arith,
    collect_each-collected repos (collect_one env full_name c) r h,
    parsed-collected full_name (parse_repo (bad_repo env.active) full_name) c r h,
    eq_iff full_name r,
  )

  -- Without locking, a cycle that starts with every series tracked ends with no duration, start
  -- time, job or annotation series for any validly configured repository, whatever it has just
  -- recorded.
  pub collect-none_left :
      (s : State W) (r : String) (ls : Labels)
      → IsConsistent s.gauges
      → env.set_nx ≡ none
      → member env.cfg.repositories r ≡ true
      → is_valid r ≡ true
      → All (λ v. lookup (r ∷ ls) v ≡ none) (tracked_vectors (collect env s).gauges)
  collect-none_left s r ls c h m v =
      let (d, _) = collect-DropsRepos s c in
      let hit : member (loop env s).collected r ≡ true =
        unfold loop in
        ground (
          arith,
          collect_each-collected env.cfg.repositories
              (record { collected = []; cycle_err = none; state = s }) r h,
        ) in
      (
        dropped _ _ _ r ls hit d.step_duration,
        (
          dropped _ _ _ r ls hit d.step_start_time,
          (
            dropped _ _ _ r ls hit d.run_duration,
            (
              dropped _ _ _ r ls hit d.job_status,
              (
                dropped _ _ _ r ls hit d.job_started_at,
                (
                  dropped _ _ _ r ls hit d.job_duration,
                  (
                    dropped _ _ _ r ls hit d.annotation_total,
                    (dropped _ _ _ r ls hit d.annotation_info, tt),
                  ),
                ),
              ),
            ),
          ),
        ),
      )
