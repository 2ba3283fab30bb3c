-- ===== src/Process/Ready.antt =====
-- A process whose services are connected, and the calls that keep it so (internal/services/cache.go,
-- database.go, github.go and github_collector.go).
use scuffinger.Prelude.{
  ◌<◌, ◌≡◌, String, Bool, true, false, Option, none, some, List, [], ◌∷◌, arith, length,
}
use scuffinger.Prelude.Result.{Result, ok, err}
use scuffinger.I18n.{Error}
use scuffinger.Config.{GithubConfig, enabled}
use scuffinger.Pool.{GithubService}
use scuffinger.Pool.Bounds.{CoreLaws, get_in_range}
use scuffinger.Pool.Ping.{Answers, ping-Answers, self_test-Answers}
use scuffinger.Cache.Connected.{connect-client}
use scuffinger.Cache.Connected as CacheConnected
use scuffinger.Database.Connected.{connect-pool}
use scuffinger.Database.Connected as DatabaseConnected
use scuffinger.Collector.Repo.{parse_repo}
use scuffinger.Collector.Cycle.{bad_repo}
use scuffinger.Manager.Kept.{Keeps}
use scuffinger.Process.{
  Tools, Process, at_world, settled, pool_settled, cache_service, database_service, github_service,
  collector_service, collector_test, trial, fetched, fetched_with,
}

module _ {C P G W : Type 0} where
  abbrev pub Unharmed : Process C P G W → Type 0
  Unharmed p = p.panicked ≡ false

  abbrev pub HasClient : Process C P G W → Type 0
  HasClient p = (c : C) × (p.cache.client ≡ some c)

  abbrev pub HasPool : Process C P G W → Type 0
  HasPool p = (d : P) × (p.database.pool ≡ some d)

  -- Nothing has panicked, the cache has a client, the database a pool and, if GitHub is configured,
  -- its service an active entry.
  pub record IsReady (on : Bool) (p : Process C P G W) : Type 0 where
    pub unharmed : Unharmed p
    pub client : HasClient p
    pub pool : HasPool p
    pub entry : on ≡ true → p.github.active < length p.github.entries

  module _ (on : Bool) where
    -- It depends neither on the world nor on the collector.
    pub renewed-IsReady :
        (w : W) (e : Option Error) (b : Bool) (p : Process C P G W)
        → IsReady on p
        → IsReady on (record (at_world w p) { last_err = e; collecting = b })
    renewed-IsReady w e b p i = record {
      unharmed = i.unharmed;
      client = i.client;
      pool = i.pool;
      entry = i.entry;
    }

    at_world-IsReady : (w : W) (p : Process C P G W) → IsReady on p → IsReady on (at_world w p)
    at_world-IsReady w p i = renewed-IsReady w p.last_err p.collecting p i

    pub settled-IsReady :
        (p : Process C P G W) (o : Option (Option Error × W)) (r : Option Error × W)
        → o ≡ some r
        → IsReady on p
        → IsReady on (settled p o).1
    unfolding settled
    settled-IsReady p none r q i = absurd (ground arith)
    settled-IsReady p (some (e, w)) r q i = at_world-IsReady w p i

module _ {C P G D B K W : Type 0} (tools : Tools C P G D B K W) (cored : CoreLaws tools.api) where
  module _ (on : Bool) where
    pool_settled-IsReady :
        (p : Process C P G W) (o : Option (Option Error × GithubService G W))
        → Answers tools.active tools.api p.github o
        → IsReady on p
        → IsReady on (pool_settled p o).1
    unfolding pool_settled
    pool_settled-IsReady p none (c, w, q) i = absurd (cored.core c w q)
    pool_settled-IsReady p (some (e, g)) a i = record {
      unharmed = i.unharmed;
      client = i.client;
      pool = i.pool;
      entry = λ h. a.in_range;
    }

    pub cache_service-Keeps : Keeps (IsReady on) (cache_service tools)
    unfolding cache_service
    cache_service-Keeps = record {
      self_test = λ p i.
          settled-IsReady on p _ _
            (CacheConnected.self_test-some tools.active tools.redis tools.quoted tools.time_text
              p.cache p.github.world i.client.0 i.client.1)
            i;
      ping = λ p i.
          settled-IsReady on p _ _
            (CacheConnected.ping-some tools.active tools.redis p.cache p.github.world i.client.0
              i.client.1)
            i;
      close = λ p i. at_world-IsReady on _ p i;
    }

    pub database_service-Keeps : Keeps (IsReady on) (database_service tools)
    unfolding database_service
    database_service-Keeps = record {
      self_test = λ p i.
          settled-IsReady on p _ _
            (DatabaseConnected.self_test-some tools.active tools.sql tools.pgx tools.conn_string
              tools.quoted p.database p.github.world i.pool.0 i.pool.1)
            i;
      ping = λ p i.
          settled-IsReady on p _ _
            (DatabaseConnected.ping-some tools.active tools.sql tools.pgx tools.conn_string
              p.database p.github.world i.pool.0 i.pool.1)
            i;
      close = λ p i. at_world-IsReady on _ p i;
    }

    pub github_service-Keeps :
        (cfg : GithubConfig) → on ≡ true → Keeps (IsReady on) (github_service tools cfg)
    unfolding github_service
    github_service-Keeps cfg h = record {
      self_test = λ p i.
          pool_settled-IsReady p _ (self_test-Answers tools.active tools.api p.github (i.entry h))
            i;
      ping = λ p i.
          pool_settled-IsReady p _ (ping-Answers tools.active tools.api p.github (i.entry h)) i;
      close = λ p i. i;
    }

    fetched-IsReady :
        (p : Process C P G W) (r : Option Error × W)
        → IsReady on p
        → IsReady on (fetched tools p r).1
    unfolding fetched
    fetched-IsReady p (none, w) i = at_world-IsReady on w p i
    fetched-IsReady p (some e, w) i = at_world-IsReady on w p i

    trial-IsReady :
        (r : Result Error (String × String)) (p : Process C P G W)
        → on ≡ true
        → IsReady on p
        → IsReady on (trial tools r p).1
    unfolding trial fetched_with
    trial-IsReady (err e) p h i = i
    trial-IsReady (ok (owner, repo)) p h i =
        let (e, g) = get_in_range p.github.entries p.github.active (i.entry h) in
        rw g (fetched-IsReady p (tools.get_repo e.client owner repo p.github.world) i)

    collector_test-IsReady :
        (repos : List String) (p : Process C P G W)
        → on ≡ true
        → IsReady on p
        → IsReady on (collector_test tools repos p).1
    unfolding collector_test
    collector_test-IsReady [] p h i = i
    collector_test-IsReady (r ∷ rs) p h i =
        trial-IsReady (parse_repo (bad_repo tools.active) r) p h i

    pub collector_service-Keeps :
        (cfg : GithubConfig) → on ≡ true → Keeps (IsReady on) (collector_service tools cfg)
    unfolding collector_service
    collector_service-Keeps cfg h = record {
      self_test = λ p i. collector_test-IsReady cfg.repositories p h i;
      ping = λ p i. i;
      close = λ p i. renewed-IsReady on p.github.world p.last_err false p i;
    }

-- ready for the services that a configuration asks for
module _ {C P G W : Type 0} where
  unfoldable pub Ready : GithubConfig → Process C P G W → Type 0
  Ready cfg = IsReady (enabled cfg)
