-- ===== src/Process.antt =====
-- internal/services/bootstrap.go over the services that it constructs: the process that holds them,
-- each with the methods of its type, and the life of a manager from `Bootstrap` to `CloseAll`. A
-- nil client, a nil pool, an index out of range and a limit that is not there panic, which
-- `panicked` records for good.
pub mod Ready
mod Connecting
pub mod Unharmed
use scuffinger.Prelude.{ℕ, String, Bool, true, false, Option, none, some, List, [], ◌∷◌, zero, suc}
use scuffinger.Prelude.Result.{Result, ok, err}
use scuffinger.I18n
use scuffinger.I18n.{Error, Messages}
use scuffinger.Config.{GithubConfig}
use scuffinger.Vault.{Store}
use scuffinger.Metrics.Health.{HealthMetrics}
use scuffinger.Metrics.Github.{ApiMetrics}
use scuffinger.Cache.{Commands, CacheService, new_cache_service}
use scuffinger.Cache
use scuffinger.Database.{Sql, Pgx, DatabaseService}
use scuffinger.Database
use scuffinger.Pool.{ClientEntry, Api, GithubService, active_entry}
use scuffinger.Pool
use scuffinger.Pool.Connect
use scuffinger.Pool.Connect.{Keys, new_github_service}
use scuffinger.Collector.Repo.{parse_repo}
use scuffinger.Collector.Cycle.{bad_repo}
use scuffinger.Manager.{Service, Manager, Checked, check_health, close_all}
use scuffinger.Bootstrap.{BootstrapOpts, Parts, bootstrap}

-- What the services are made with, and the calls that they make on the world `W`: `C`, `P` and `G`
-- are the types of clients of the cache, pools and clients of GitHub.
pub record Tools (C P G D B K W : Type 0) : Type 0 where
  pub active : Messages
  pub redis : Commands C W
  pub sql : Sql
  pub pgx : Pgx P W
  pub conn_string : String → String
  pub quoted : String → String
  pub api : Api G W
  pub keys : Keys G D B K
  pub get_repo : G → String → String → W → Option Error × W
  pub create_tables : P → W → Option Error × W
  pub now : W → ℕ
  pub time_text : W → String

-- `last_err` is the error of the collector's last cycle; the world is that of `github`
pub record Process (C P G W : Type 0) : Type 0 where
  pub cache : CacheService C
  pub database : DatabaseService P
  pub github : GithubService G W
  pub last_err : Option Error
  pub collecting : Bool
  pub panicked : Bool

module _ {C P G W : Type 0} where
  -- the services as they are constructed
  unfoldable pub new_process : String → String → GithubConfig → ApiMetrics → W → Process C P G W
  unfolding new_github_service
  new_process address name cfg m w = record {
    cache = new_cache_service address;
    database = record { name = name; pool = none };
    github = new_github_service cfg m w;
    last_err = none;
    collecting = false;
    panicked = false;
  }

  abbrev pub at_world : W → Process C P G W → Process C P G W
  at_world w p = record p { github = record p.github { world = w } }

  -- the result of a call that panics when there is none
  unfoldable pub settled :
      Process C P G W → Option (Option Error × W) → Option Error × Process C P G W
  settled p none = (none, record p { panicked = true })
  settled p (some (e, w)) = (e, at_world w p)

  unfoldable pub pool_settled :
      Process C P G W → Option (Option Error × GithubService G W) → Option Error × Process C P G W
  pool_settled p none = (none, record p { panicked = true })
  pool_settled p (some (e, g)) = (e, record p { github = g })

module _ {C P G D B K W : Type 0} (tools : Tools C P G D B K W) where
  unfoldable pub cache_service : Service (Process C P G W)
  unfolding settled
  cache_service = record {
    name = "cache";
    connect = λ p.
        let (e, s, w) = Cache.connect tools.active tools.redis p.cache p.github.world in
        (e, at_world w (record p { cache = s }));
    self_test = λ p. settled p (
        Cache.self_test tools.active tools.redis tools.quoted tools.time_text p.cache
          p.github.world);
    ping = λ p. settled p (Cache.ping tools.active tools.redis p.cache p.github.world);
    close = λ p.
        let (e, w) = Cache.close tools.active tools.redis p.cache p.github.world in
        (e, at_world w p);
  }

  unfoldable pub database_service : Service (Process C P G W)
  unfolding settled
  database_service = record {
    name = "database";
    connect = λ p.
        let (e, s, w) =
          Database.connect tools.active tools.sql tools.pgx tools.conn_string p.database
            p.github.world in
        (e, at_world w (record p { database = s }));
    self_test = λ p. settled p (
        Database.self_test tools.active tools.sql tools.pgx tools.conn_string tools.quoted
          p.database p.github.world);
    ping = λ p. settled p (
        Database.ping tools.active tools.sql tools.pgx tools.conn_string p.database p.github.world);
    close = λ p.
        let (e, w) =
          Database.close tools.active tools.sql tools.pgx tools.conn_string p.database
            p.github.world in
        (e, at_world w p);
  }

  unfoldable pub github_service : GithubConfig → Service (Process C P G W)
  unfolding pool_settled
  github_service cfg = record {
    name = "github";
    connect = λ p.
        let (e, g) = Pool.Connect.connect tools.active tools.keys cfg p.github in
        (e, record p { github = g });
    self_test = λ p. pool_settled p (Pool.self_test tools.active tools.api p.github);
    ping = λ p. pool_settled p (Pool.ping tools.active tools.api p.github);
    close = λ p. (none, p);
  }

  fetched : Process C P G W → Option Error × W → Option Error × Process C P G W
  fetched p (none, w) = (none, at_world w p)
  fetched p (some e, w) =
      (some (I18n.err_with tools.active I18n.err_gh_collector_fetch_repo e), at_world w p)

  -- the trial fetch, through `Client()`
  fetched_with :
      String → String → Option (ClientEntry G) → Process C P G W → Option Error × Process C P G W
  unfolding fetched
  fetched_with owner repo none p = (none, record p { panicked = true })
  fetched_with owner repo (some e) p = fetched p (tools.get_repo e.client owner repo p.github.world)

  trial : Result Error (String × String) → Process C P G W → Option Error × Process C P G W
  unfolding fetched_with
  trial (err e) p = (some e, p)
  trial (ok (owner, repo)) p = fetched_with owner repo (active_entry p.github) p

  -- the collector's `SelfTest`
  unfoldable pub collector_test : List String → Process C P G W → Option Error × Process C P G W
  unfolding trial
  collector_test [] p = (some (I18n.get tools.active I18n.err_gh_collector_no_repos), p)
  collector_test (r ∷ rs) p = trial (parse_repo (bad_repo tools.active) r) p

  unfoldable pub collector_service : GithubConfig → Service (Process C P G W)
  unfolding collector_test
  collector_service cfg = record {
    name = "github_collector";
    connect = λ p. (none, p);
    self_test = collector_test cfg.repositories;
    ping = λ p. (p.last_err, p);
    close = λ p. (none, record p { collecting = false });
  }

  tables_created : Option P → W → Option (Option Error × W)
  tables_created none w = none
  tables_created (some d) w = some (tools.create_tables d w)

  unfoldable pub parts : Parts (Process C P G W)
  unfolding tables_created settled
  parts = record {
    cache = cache_service;
    database = database_service;
    github = github_service;
    collector = collector_service;
    create_tables = λ p. settled p (tables_created p.database.pool p.github.world);
    start_collector = λ p. record p { collecting = true };
  }

  abbrev pub clock : Process C P G W → ℕ
  clock p = tools.now p.github.world

-- What runs between two checks, the collector's cycles and all outside: it leaves the error of the
-- last cycle.
abbrev pub Background : Type 0 → Type 0
Background W = W → Option Error × W

module _ {C P G D B K W : Type 0} (tools : Tools C P G D B K W) where
  abbrev pub passed_by : Background W → Process C P G W → Process C P G W
  passed_by f p = let (e, w) = f p.github.world in at_world w (record p { last_err = e })

  -- the ticks of the health-check loop
  unfoldable pub watched :
      List (Service (Process C P G W))
      → List (Background W)
      → Checked (Process C P G W)
      → Checked (Process C P G W)
  watched svcs [] s = s
  watched svcs (f ∷ fs) s =
      watched svcs fs (check_health (clock tools) svcs (record s { world = passed_by f s.world }))

  -- what is done with the manager that `Bootstrap` returns
  unfoldable pub lived :
      List (Background W)
      → HealthMetrics
      → Result Error (Manager (Process C P G W)) × Process C P G W
      → Process C P G W
  unfolding watched
  lived fs h (err e, p) = p
  lived fs h (ok m, p) =
      let s = watched m.services fs (record { statuses = m.statuses; health = h; world = p }) in
      (close_all tools.active m s.world).2

  unfoldable pub life :
      {S : Type 0}
      → Store S
      → S
      → BootstrapOpts
      → GithubConfig
      → List (Background W)
      → HealthMetrics
      → Process C P G W
      → Process C P G W
  unfolding lived
  life store s opts cfg fs h p =
      lived fs h (bootstrap tools.active (clock tools) (parts tools) store s opts cfg p)
