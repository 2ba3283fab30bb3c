-- ===== src/Lib.antt =====
-- Scuffinger: the core logic of the service that watches GitHub repositories, their workflow runs and
-- its own backing services, and shows them as Prometheus metrics and over HTTP.
--
-- The parts and how they interact:
--
--   Manager      internal/services/service.go. The record `Manager` holds the services, their statuses
--                and the health-check loops begun; `new_manager`, `add_service`, `connect_all`,
--                `run_self_tests`, `check_health`, `start_health_checks`, `snapshot` (Statuses) and
--                `close_all` are its methods. Manager/Reach has the methods as steps.
--   Bootstrap    internal/services/bootstrap.go, which drives a manager from the configuration.
--   Process      the services that bootstrap.go constructs, in one state: `cache_service`,
--                `database_service`, `github_service` and `collector_service` are their methods over
--                it, and `life` goes from `Bootstrap` over health checks to `CloseAll`. `panicked`
--                records the use of a nil or of an index out of range for good.
--   Database     internal/services/database.go, a service over a pgx pool.
--   Pool         internal/services/github.go: `GithubService` holds the credentials with their rate
--                limits and the active index; `connect` (Pool/Connect), `self_test`, `ping`, `rotate`.
--   Collector    internal/services/github_collector.go: `parse_repo` (Collector/Repo), `collect_run`
--                and `collect_repo` (Collector/Jobs, Collector/Runs), `try_lock` and `collect`
--                (Collector/Cycle), over the gauges of Metrics/Workflow; Collector/Service has
--                `Start`, `Close`, `Ping` and `SelfTest`.
--   GithubApp    internal/services/ghauth.go: the transport of a GitHub App with its cached token,
--                `installation_token` and `round_trip`.
--   Cache        internal/services/cache.go, a service over a client of ValKey.
--   Metrics      internal/metrics: Metrics/Vec and Metrics/Workflow for github_collector.go,
--                Metrics/Health for health.go and services.go, Metrics/Github for github.go,
--                Metrics/Http for the middleware of http.go, and Metrics/Counters for logging.go,
--                cache.go and uptime.go.
--   Config       internal/config/config.go: the GitHub section and its `migrate`; Config/Load has the
--                other sections and `load`.
--   I18n         internal/i18n/messages.go: `get` and `err_with` (Err) under an active catalogue;
--                I18n/Keys has the keys, and I18n/Catalogues the eleven languages.
--   Logging      internal/logging: `new_logger` and its methods for logger.go (the names of callers
--                in Logging/Names), and Logging/Yaml for yaml_handler.go.
--   Vault        internal/vault: the interface `Store` with its contract `StoreLaws`, filled by
--                Vault/Memory (vault_other.go) and Vault/Linux (vault_linux.go), and used by Auth.
--   Auth         internal/auth/auth.go: Auth/Credentials over any store, Auth/Flow for the device flow.
--   Server       internal/server: Server/Health for health.go, Server/Github for github.go,
--                Server/Auth for auth.go, Server/Routes for the routes of server.go and of each
--                handler, and Server/Debug for debug.go: the row query (Query, Rows), the listings
--                (Tables), the key scan (Scan), one key (Key) and the statistics (Info).
--   Commands     cmd: Commands/Root for the hooks around each command, which load the configuration,
--                bootstrap the services and close them; Commands/Serve for the route groups of
--                serve.go; Commands/Login for github_auth.go, github_status.go, github_logout.go.
--   Prelude      numbers, integers, lists, maps and texts that the others share.
--   Examples     concrete inputs at which the theorems are applied.
--
-- How the code is modelled. A method is a function on the state that it reads and writes; what
-- lies outside the process (GitHub, ValKey, PostgreSQL, the file system, the clock) is a world of
-- any type, passed through the calls, whose functions are parameters. An error is its text. A map
-- is an association list, written through `insert`. A nil pointer is `none`, and so is a panic, of
-- an index out of range or of the use of a nil. The log lines of the other parts and locks of
-- mutexes are not modelled: the methods run one after another, but for the requests of
-- Metrics/Http/Flight, which overlap. Metrics hold integers, a duration in nanoseconds.
--
-- Loops over lists are structural. The rotation makes one round less than there are credentials.
-- Three loops wait on the outside and run on fuel, whose end is `none`: `poll` gets `poll_fuel`, a
-- round for each five seconds until the code expires and two more, since every round sleeps five
-- seconds at least; `scan_loop` is given more fuel than the rank of its first cursor, which falls
-- with every call; `fetch_pages` is given as many rounds as the listing has pages.
--
-- What is assumed of the outside is a record of laws: `NxLaws` for SET NX of ValKey, `FilesLaws`
-- for package os, `CoreLaws` for the rate limits of GitHub, `ClockLaws` for the clock, `ScanLaws`
-- for SCAN, `SetLaws` for SET and GET, `RangeLaws` for LRANGE and ZRANGE, `HandlersLaws` for the
-- handlers of package slog.
--
-- Not modelled: the command-line vaults of macOS and Windows, whose programs are not part of the
-- source; the tree of commands and the wait for a signal, which are calls of cobra and net/http;
-- what the auth command prints; the embedded SQL statements; the page of the documentation; charts
-- and dashboards. viper, gin, pgx, go-redis, go-github and the JWT library are parameters.
pub mod Prelude
pub mod I18n
pub mod Metrics
pub mod Config
pub mod Collector
pub mod Pool
pub mod Manager
pub mod Server
pub mod Vault
pub mod Auth
pub mod Examples
pub mod Bootstrap
pub mod Database
pub mod Cache
pub mod Logging
pub mod Commands
pub mod GithubApp
pub mod Process
