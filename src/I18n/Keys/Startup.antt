-- ===== src/I18n/Keys/Startup.antt =====
-- internal/i18n/messages.go: keys of the messages of configuration, start-up, the manager, the backing services and the server.
use scuffinger.I18n.{Key}

abbrev pub msg_config_loaded : Key
msg_config_loaded = "config.loaded"

abbrev pub err_config_load : Key
err_config_load = "err.config.load"

abbrev pub msg_bootstrap_connecting : Key
msg_bootstrap_connecting = "bootstrap.connecting"

abbrev pub msg_bootstrap_self_tests : Key
msg_bootstrap_self_tests = "bootstrap.self_tests"

abbrev pub msg_bootstrap_tests_passed : Key
msg_bootstrap_tests_passed = "bootstrap.tests_passed"

abbrev pub msg_bootstrap_health_start : Key
msg_bootstrap_health_start = "bootstrap.health_start"

abbrev pub msg_manager_connecting : Key
msg_manager_connecting = "manager.connecting"

abbrev pub msg_manager_connected : Key
msg_manager_connected = "manager.connected"

abbrev pub msg_manager_self_test : Key
msg_manager_self_test = "manager.self_test"

abbrev pub msg_manager_self_test_passed : Key
msg_manager_self_test_passed = "manager.self_test_passed"

abbrev pub msg_manager_closing : Key
msg_manager_closing = "manager.closing"

abbrev pub warn_manager_health_failed : Key
warn_manager_health_failed = "manager.health_failed"

abbrev pub msg_cache_self_test_init : Key
msg_cache_self_test_init = "cache.self_test_init"

abbrev pub msg_cache_self_test_passed : Key
msg_cache_self_test_passed = "cache.self_test_passed"

abbrev pub msg_db_creating_test_db : Key
msg_db_creating_test_db = "db.creating_testdb"

abbrev pub msg_db_running_crud : Key
msg_db_running_crud = "db.running_crud"

abbrev pub msg_db_self_test_passed : Key
msg_db_self_test_passed = "db.self_test_passed"

abbrev pub warn_db_drop_test_failed : Key
warn_db_drop_test_failed = "db.drop_test_failed"

abbrev pub msg_server_starting : Key
msg_server_starting = "server.starting"

abbrev pub msg_server_shutdown : Key
msg_server_shutdown = "server.shutdown"

abbrev pub msg_server_stopped : Key
msg_server_stopped = "server.stopped"

abbrev pub msg_server_routes : Key
msg_server_routes = "server.routes_registered"

abbrev pub err_server_listen : Key
err_server_listen = "err.server.listen"

abbrev pub err_server_shutdown : Key
err_server_shutdown = "err.server.shutdown"

abbrev pub msg_health_ready : Key
msg_health_ready = "health.ready"

abbrev pub msg_health_not_ready : Key
msg_health_not_ready = "health.not_ready"
