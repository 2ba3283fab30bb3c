-- ===== src/I18n.antt =====
-- internal/i18n/messages.go: the active catalogue, `Get` and `Err`. An `error` of the program is
-- modelled by its text, which is what its callers show, log or store.
pub mod Keys
pub mod Catalogues
use scuffinger.Prelude.{string_eq, String, Option, none, some, ◌+++◌}
use scuffinger.Prelude.Map.{Map, lookup}

abbrev pub Key : Type 0
Key = String

abbrev pub Error : Type 0
Error = String

abbrev pub Messages : Type 0
Messages = Map Key String

or_key : Key → Option String → String
or_key key none = key
or_key key (some msg) = msg

-- `Get` under the active catalogue, which falls back to the key itself
unfoldable pub get : Messages → Key → String
unfolding or_key
get active key = or_key key (lookup key active)

-- `Err`: the translated prefix in front of the cause
pub err_with : Messages → Key → Error → Error
err_with active key cause = get active key +++ (": " +++ cause)

abbrev pub err_bootstrap_connect : Key
err_bootstrap_connect = "err.bootstrap.connect"

abbrev pub err_bootstrap_self_tests : Key
err_bootstrap_self_tests = "err.bootstrap.self_tests"

abbrev pub err_manager_connect : Key
err_manager_connect = "err.manager.connect"

abbrev pub err_manager_self_test : Key
err_manager_self_test = "err.manager.self_test"

abbrev pub err_manager_close : Key
err_manager_close = "err.manager.close"

abbrev pub err_manager_shutdown : Key
err_manager_shutdown = "err.manager.shutdown"

abbrev pub err_gh_collector_fetch_repo : Key
err_gh_collector_fetch_repo = "err.gh_collector.fetch_repo"

abbrev pub err_gh_collector_fetch_runs : Key
err_gh_collector_fetch_runs = "err.gh_collector.fetch_runs"

abbrev pub err_gh_collector_parse_repo : Key
err_gh_collector_parse_repo = "err.gh_collector.parse_repo"

abbrev pub err_gh_collector_no_repos : Key
err_gh_collector_no_repos = "err.gh_collector.no_repos"

abbrev pub err_gh_not_configured : Key
err_gh_not_configured = "err.gh.not_configured"

abbrev pub err_gh_auth : Key
err_gh_auth = "err.gh.auth"

abbrev pub err_gh_read_key : Key
err_gh_read_key = "err.gh.read_key"

abbrev pub err_gh_parse_key : Key
err_gh_parse_key = "err.gh.parse_key"

abbrev pub err_gh_rate_limit : Key
err_gh_rate_limit = "err.gh.rate_limit"

abbrev pub err_gh_fetch_rate_limit : Key
err_gh_fetch_rate_limit = "err.gh.fetch_rate_limit"

abbrev pub err_gh_fetch_user : Key
err_gh_fetch_user = "err.gh.fetch_user"

abbrev pub err_gh_fetch_org : Key
err_gh_fetch_org = "err.gh.fetch_org"

abbrev pub err_gh_fetch_repo : Key
err_gh_fetch_repo = "err.gh.fetch_repo"

abbrev pub err_gh_fetch_branches : Key
err_gh_fetch_branches = "err.gh.fetch_branches"

abbrev pub err_gh_fetch_workflows : Key
err_gh_fetch_workflows = "err.gh.fetch_workflows"

abbrev pub err_gh_fetch_runs : Key
err_gh_fetch_runs = "err.gh.fetch_runs"

abbrev pub err_gh_invalid_workflow : Key
err_gh_invalid_workflow = "err.gh.invalid_workflow"

abbrev pub err_cache_ping : Key
err_cache_ping = "err.cache.ping"

abbrev pub err_cache_set_init : Key
err_cache_set_init = "err.cache.set_init"

abbrev pub err_cache_get_init : Key
err_cache_get_init = "err.cache.get_init"

abbrev pub err_cache_init_mismatch : Key
err_cache_init_mismatch = "err.cache.init_mismatch"

abbrev pub err_db_connect : Key
err_db_connect = "err.db.connect"

abbrev pub err_db_ping : Key
err_db_ping = "err.db.ping"

abbrev pub err_db_create_testdb : Key
err_db_create_testdb = "err.db.create_testdb"

abbrev pub err_db_connect_testdb : Key
err_db_connect_testdb = "err.db.connect_testdb"

abbrev pub err_db_crud : Key
err_db_crud = "err.db.crud"

abbrev pub err_db_create_table : Key
err_db_create_table = "err.db.create_table"

abbrev pub err_db_insert : Key
err_db_insert = "err.db.insert"

abbrev pub err_db_read : Key
err_db_read = "err.db.read"

abbrev pub err_db_read_mismatch : Key
err_db_read_mismatch = "err.db.read_mismatch"

abbrev pub err_db_update : Key
err_db_update = "err.db.update"

abbrev pub err_db_read_after_update : Key
err_db_read_after_update = "err.db.read_after_update"

abbrev pub err_db_update_mismatch : Key
err_db_update_mismatch = "err.db.update_mismatch"
